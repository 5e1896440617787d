-- ===== src/Service/DbAuth.antt =====
-- `DbAuthAdapter` (packages/runtime-core/src/db-auth-adapter.ts) over the table of API keys of a
-- database client, which is a parameter.
use loop_engine.Prelude.{
  ◌≡◌, refl, ap, ◌⊎◌, inl, inr, Bool, true, false, ◌&&◌, not, String, Option, none, some,
  if◌then◌else◌, ◌==◌, eq_of_==, &&-true,
}
use loop_engine.Core.{Platform, Number}
use loop_engine.Canonical.{◌<>◌}
use loop_engine.Auth.{
  RuntimeIdentity, api, missing_header, not_an_api_key, invalid_api_key, Authenticated, identified,
  unauthenticated, extract_bearer_token, is_loop_engine_api_key_token, normalize_loop_api_key_token,
  hash_loop_api_key,
}
use loop_engine.Guards.BuiltIn.{gt_number}

pub record LoopEngineApiKey : Type 0 where
  pub id : String
  pub tenant_id : String
  pub status : String
  pub key_hash : String
  pub grace_key_hash : Option String
  pub grace_expires_at : Option Number

-- The calls on the client: `findFirst` with a condition, the update that clears the two columns of
-- the grace key, which answers false where it throws, and the update of `lastUsedAt`, whose failure
-- is caught.
pub record ApiKeyTable (D : Type 0) : Type 0 where
  pub find_first : (LoopEngineApiKey → Bool) → D → Option LoopEngineApiKey
  pub clear_grace : (id : String) → D → Bool × D
  pub touch : (id : String) → (at : Number) → D → D

unfoldable pub identity_from_row : LoopEngineApiKey → RuntimeIdentity
identity_from_row row = record {
  tenant_id = row.tenant_id;
  api_key_id = some row.id;
  actor_id = "le_key:" <> row.id;
  role = "API_KEY";
  source = api;
}

abbrev is_some_text : String → Option String → Bool
is_some_text t none = false
is_some_text t (some s) = s == t

abbrev is_after : Number → Option Number → Bool
is_after now none = false
is_after now (some t) = gt_number t now

-- The two conditions.
unfoldable pub is_primary : (hashed : String) → LoopEngineApiKey → Bool
is_primary hashed row = row.status == "ACTIVE" && row.key_hash == hashed

unfoldable pub is_in_grace : (hashed : String) → (now : Number) → LoopEngineApiKey → Bool
is_in_grace hashed now row =
    row.status == "ACTIVE"
    && (is_some_text hashed row.grace_key_hash && is_after now row.grace_expires_at)

-- Whether `clearExpiredGraceIfNeeded` writes.
unfoldable pub grace_expired : Number → LoopEngineApiKey → Bool
grace_expired now row = elim row.grace_expires_at [
  | none ↦ false
  | some t ↦
      not (gt_number t now) && elim row.grace_key_hash [ none ↦ false | some h ↦ not (h == "") ]
]

-- The outcome of `authenticate`; the last one is an error of the client.
pub data DbAuthenticated : Type 0 where
  answered : Authenticated → DbAuthenticated
  client_threw : DbAuthenticated

module _ {D : Type 0} (p : Platform) (db : ApiKeyTable D) where
  -- A row found by its primary hash; `later` is the clock when the grace key is looked at.
  unfoldable pub accept_primary : (now later : Number) → LoopEngineApiKey → D → DbAuthenticated × D
  accept_primary now later row d =
      let (cleared, after) = db.clear_grace row.id d in
      let accepted = answered (identified (identity_from_row row)) in
      if grace_expired later row
      then if cleared then (accepted, db.touch row.id now after) else (client_threw, after)
      else (accepted, db.touch row.id now d)

  unfoldable pub accept_grace : (now : Number) → Option LoopEngineApiKey → D → DbAuthenticated × D
  accept_grace now none d = (answered (unauthenticated invalid_api_key), d)
  accept_grace now (some row) d =
      (answered (identified (identity_from_row row)), db.touch row.id now d)

  unfoldable pub accept_key :
      (hashed : String) → (now later : Number) → Option LoopEngineApiKey → D → DbAuthenticated × D
  accept_key hashed now later (some row) d = accept_primary now later row d
  accept_key hashed now later none d = accept_grace now (db.find_first (is_in_grace hashed now) d) d

  unfoldable pub hash_of : String → String
  hash_of token = hash_loop_api_key p (normalize_loop_api_key_token p token)

  unfoldable pub db_authenticate_token :
      (now later : Number) → Option String → D → DbAuthenticated × D
  db_authenticate_token now later none d = (answered (unauthenticated missing_header), d)
  db_authenticate_token now later (some token) d =
      if is_loop_engine_api_key_token p token
      then accept_key (hash_of token) now later (db.find_first (is_primary (hash_of token)) d) d
      else (answered (unauthenticated not_an_api_key), d)

  unfoldable pub db_authenticate :
      (header : Option String) → (now later : Number) → D → DbAuthenticated × D
  db_authenticate header now later d =
      db_authenticate_token now later (extract_bearer_token p header) d

  -- `findFirst` answers with a row that meets the condition.
  abbrev pub FindsMatches : Type 0
  FindsMatches =
      (test : LoopEngineApiKey → Bool) (d : D) (row : LoopEngineApiKey)
      → db.find_first test d ≡ some row
      → test row ≡ true

  -- The row behind an identity, for a hash.
  abbrev pub Backs : (hashed : String) → (now : Number) → RuntimeIdentity → Type 0
  Backs hashed now identity =
      (row : LoopEngineApiKey) × (identity ≡ identity_from_row row)
      × (row.status ≡ "ACTIVE")
      × ((row.key_hash ≡ hashed)
          ⊎ ((row.grace_key_hash ≡ some hashed) × (is_after now row.grace_expires_at ≡ true)))

  some_text_lem : (t : String) (o : Option String) → is_some_text t o ≡ true → o ≡ some t
  some_text_lem t none h = cc h
  some_text_lem t (some s) h = ap some (eq_of_== h)

  primary-Backs :
      (hashed : String) (now later : Number) (row : LoopEngineApiKey) (d : D)
      (identity : RuntimeIdentity)
      → is_primary hashed row ≡ true
      → (accept_primary now later row d).0 ≡ answered (identified identity)
      → Backs hashed now identity
  unfolding is_primary accept_primary
  primary-Backs hashed now later row d identity h e =
      let (is_active, same) = &&-true (row.status == "ACTIVE") (row.key_hash == hashed) h in
      (
        row,
        go (grace_expired later row) (db.clear_grace row.id d) e,
        eq_of_== is_active,
        inl (eq_of_== same),
      )
    where
      accepted : DbAuthenticated
      accepted = answered (identified (identity_from_row row))

      go :
          (b : Bool) (x : Bool × D)
          → (if◌then◌else◌ {A = DbAuthenticated × D} b
              (if x.0 then (accepted, db.touch row.id now x.1) else (client_threw, x.1))
              (accepted, db.touch row.id now d)).0
            ≡ answered (identified identity)
          → identity ≡ identity_from_row row
      go true (true, after) same = cc same
      go true (false, after) same = cc same
      go false x same = cc same

  grace-Backs :
      (hashed : String) (now : Number) (found : Option LoopEngineApiKey) (d : D)
      (identity : RuntimeIdentity)
      → ((row : LoopEngineApiKey) → found ≡ some row → is_in_grace hashed now row ≡ true)
      → (accept_grace now found d).0 ≡ answered (identified identity)
      → Backs hashed now identity
  unfolding accept_grace is_in_grace
  grace-Backs hashed now none d identity h e = cc e
  grace-Backs hashed now (some row) d identity h e =
      let (is_active, rest) = &&-true (row.status == "ACTIVE") _ (h row refl) in
      let (same, current) = &&-true (is_some_text hashed row.grace_key_hash) _ rest in
      (row, cc e, eq_of_== is_active, inr (some_text_lem hashed row.grace_key_hash same, current))

  accept_key-Backs :
      (hashed : String) (now later : Number) (found : Option LoopEngineApiKey) (d : D)
      (identity : RuntimeIdentity)
      → FindsMatches
      → ((row : LoopEngineApiKey) → found ≡ some row → is_primary hashed row ≡ true)
      → (accept_key hashed now later found d).0 ≡ answered (identified identity)
      → Backs hashed now identity
  unfolding accept_key
  accept_key-Backs hashed now later (some row) d identity finds h e =
      primary-Backs hashed now later row d identity (h row refl) e
  accept_key-Backs hashed now later none d identity finds h e =
      grace-Backs hashed now _ d identity (finds _ d) e

  token-Backs :
      (now later : Number) (found : Option String) (d : D) (identity : RuntimeIdentity)
      → FindsMatches
      → (db_authenticate_token now later found d).0 ≡ answered (identified identity)
      → (token : String) × (found ≡ some token)
        × (is_loop_engine_api_key_token p token ≡ true)
        × Backs (hash_of token) now identity
  unfolding db_authenticate_token
  token-Backs now later none d identity finds e = cc e
  token-Backs now later (some token) d identity finds e =
      go (is_loop_engine_api_key_token p token) refl e
    where
      rest : DbAuthenticated × D
      rest = accept_key (hash_of token) now later (db.find_first (is_primary (hash_of token)) d) d

      go :
          (b : Bool)
          → is_loop_engine_api_key_token p token ≡ b
          → (if b then rest else (answered (unauthenticated not_an_api_key), d)).0
            ≡ answered (identified identity)
          → (t : String) × (some token ≡ some t)
            × (is_loop_engine_api_key_token p t ≡ true)
            × Backs (hash_of t) now identity
      go true f same = (
        token,
        refl,
        f,
        accept_key-Backs (hash_of token) now later _ d identity finds (finds _ d) same,
      )
      go false f same = cc same

  -- When `findFirst` answers with a row that meets its condition, an identified request bore a token
  -- in the form of an API key, and its identity is that of an active key whose hash is the hash of
  -- the token, or whose grace hash is and whose grace period has not ended.
  pub db_authenticate_lem :
      (header : Option String) (now later : Number) (d : D) (identity : RuntimeIdentity)
      → FindsMatches
      → (db_authenticate header now later d).0 ≡ answered (identified identity)
      → (token : String) × (extract_bearer_token p header ≡ some token)
        × (is_loop_engine_api_key_token p token ≡ true)
        × Backs (hash_of token) now identity
  unfolding db_authenticate
  db_authenticate_lem header now later d identity finds e =
      token-Backs now later _ d identity finds e
