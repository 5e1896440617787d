-- ===== src/Auth.antt =====
-- packages/auth-iface: bearer tokens, API keys and the in-memory adapter (bearer.ts, api-key.ts,
-- memory-adapter.ts, types.ts).
pub mod RoundTrip
use Prim.Native.String
use Prim.Native.Char.{code}
use loop_engine.Prelude.{
  ℕ, zero, suc, Bool, true, false, ◌&&◌, ◌||◌, String, Option, none, some, List, [], ◌∷◌, Dict, get,
  put, leb, eqb, if◌then◌else◌, ◌==◌,
}
use loop_engine.Core.{Platform}
use loop_engine.Canonical.{◌<>◌}
use loop_engine.Redaction.{lower_code}

pub data IdentitySource : Type 0 where
  api ui internal : IdentitySource

pub record RuntimeIdentity : Type 0 where
  pub tenant_id : String
  pub api_key_id : Option String
  pub actor_id : String
  pub role : String
  pub source : IdentitySource

-- The first two parts of `header.split(" ")`.
unfoldable pub before_space : String → String
before_space String.[] = ""
before_space (String.◌∷◌ c s) =
    let rest = before_space s in if eqb (code c) b' ' then "" else String.◌∷◌ c rest

unfoldable pub after_space : String → Option String
after_space String.[] = none
after_space (String.◌∷◌ c s) =
    let rest = after_space s in if eqb (code c) b' ' then some s else rest

-- `trimmed.length === 0 ? null : trimmed`, and the test `!token`.
unfoldable pub nonblank : String → Option String
nonblank s = if s == "" then none else some s

-- A hexadecimal digit, in either case, and n of them up to the end.
unfoldable pub is_hex : ℕ → Bool
is_hex c = (leb b'0' c && leb c b'9') || (leb b'a' (lower_code c) && leb (lower_code c) b'f')

unfoldable pub hex_body : ℕ → String → Bool
hex_body zero String.[] = true
hex_body zero (String.◌∷◌ c s) = false
hex_body (suc n) String.[] = false
hex_body (suc n) (String.◌∷◌ c s) = is_hex (code c) && hex_body n s

-- What the pattern's letters and digits stand for, with the flag `i`.
unfoldable pub key_body : (prefix : String) → String → Bool
key_body String.[] text = hex_body 32 text
key_body (String.◌∷◌ w prefix) String.[] = false
key_body (String.◌∷◌ w prefix) (String.◌∷◌ c text) =
    eqb (lower_code (code c)) (code w) && key_body prefix text

-- `LOOP_ENGINE_API_KEY_PREFIX`.
unfoldable pub loop_engine_api_key_prefix : String
loop_engine_api_key_prefix = "le_"

pub record MemoryApiKeyRecord : Type 0 where
  pub token : String
  pub tenant_id : String
  pub api_key_id : String
  pub actor_id : Option String

-- The messages of `AuthenticationError`.
pub data AuthenticationError : Type 0 where
  missing_header not_an_api_key invalid_api_key : AuthenticationError

pub data Authenticated : Type 0 where
  identified : RuntimeIdentity → Authenticated
  unauthenticated : AuthenticationError → Authenticated

-- `byToken`.
abbrev pub MemoryAuth : Type 0
MemoryAuth = Dict MemoryApiKeyRecord

unfoldable pub identity_of : MemoryApiKeyRecord → RuntimeIdentity
identity_of r = record {
  tenant_id = r.tenant_id;
  api_key_id = some r.api_key_id;
  actor_id = elim r.actor_id [ none ↦ "le_key:" <> r.api_key_id | some a ↦ a ];
  role = "API_KEY";
  source = api;
}

module _ (p : Platform) where
  unfoldable pub token_of : (scheme : String) → Option String → Option String
  token_of scheme none = none
  token_of scheme (some rest) =
      if scheme == "Bearer"
      then elim (nonblank (before_space rest)) [
        | none ↦ none
        | some token ↦ nonblank (p.trim token)
      ]
      else none

  -- A header that is `""` has no scheme.
  unfoldable pub extract_bearer_token : Option String → Option String
  extract_bearer_token none = none
  extract_bearer_token (some header) = token_of (before_space header) (after_space header)

  unfoldable pub is_loop_engine_api_key_token : String → Bool
  is_loop_engine_api_key_token token = key_body loop_engine_api_key_prefix (p.trim token)

  unfoldable pub normalize_loop_api_key_token : String → String
  normalize_loop_api_key_token token = p.to_lower (p.trim token)

  -- `random_hex` is `randomBytes(16).toString("hex")`.
  unfoldable pub generate_plain_loop_api_key : (random_hex : String) → String
  generate_plain_loop_api_key random_hex = loop_engine_api_key_prefix <> random_hex

  unfoldable pub hash_loop_api_key : String → String
  hash_loop_api_key plain = p.sha256_hex plain

  unfoldable pub key_prefix_display : String → String
  key_prefix_display plain = p.slice plain 12 <> "..."

  -- `register`; `none` where it throws.
  unfoldable pub register_api_key : MemoryApiKeyRecord → MemoryAuth → Option MemoryAuth
  register_api_key r keys =
      if is_loop_engine_api_key_token r.token
      then some (put (normalize_loop_api_key_token r.token) r keys)
      else none

  -- The loop of the constructor.
  unfoldable pub register_all : List MemoryApiKeyRecord → MemoryAuth → Option MemoryAuth
  register_all [] keys = some keys
  register_all (r ∷ rs) keys = elim (register_api_key r keys) [
    | none ↦ none
    | some after ↦ register_all rs after
  ]

  unfoldable pub identify : Option MemoryApiKeyRecord → Authenticated
  identify none = unauthenticated invalid_api_key
  identify (some r) = identified (identity_of r)

  unfoldable pub authenticate_token : MemoryAuth → Option String → Authenticated
  authenticate_token keys none = unauthenticated missing_header
  authenticate_token keys (some token) =
      if is_loop_engine_api_key_token token
      then identify (get (normalize_loop_api_key_token token) keys)
      else unauthenticated not_an_api_key

  -- `authenticate`, on the value of the header `authorization`.
  unfoldable pub authenticate : MemoryAuth → Option String → Authenticated
  authenticate keys header = authenticate_token keys (extract_bearer_token header)
