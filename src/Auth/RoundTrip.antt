-- ===== src/Auth/RoundTrip.antt =====
-- Registration and authentication with a generated key (packages/auth-iface/src).
use Prim.Native.String.append
use Prim.Native.Char.{code}
use loop_engine.Prelude.{
  ℕ, zero, suc, ◌≡◌, refl, sym, ap, ◌∙◌, subst, Bool, true, false, String, none, some, put, get-put,
  arith, if◌then◌else◌, ◌==◌, ==_refl, eq_of_==, &&-true,
}
use loop_engine.Core.{Platform}
use loop_engine.Canonical.{◌<>◌}
use loop_engine.Redaction.{lower_code, is_space}
use loop_engine.Auth.{
  before_space, after_space, nonblank, is_hex, hex_body, key_body, loop_engine_api_key_prefix,
  MemoryApiKeyRecord, MemoryAuth, identified, identity_of, token_of, extract_bearer_token,
  is_loop_engine_api_key_token, normalize_loop_api_key_token, generate_plain_loop_api_key,
  register_api_key, identify, authenticate_token, authenticate,
}

-- A text without white space.
abbrev pub Solid : String → Type 0
Solid String.[] = Unit
Solid (String.◌∷◌ c s) = (is_space (code c) ≡ false) × Solid s

is_hex-solid : (c : ℕ) → is_hex c ≡ true → is_space c ≡ false
unfolding is_hex is_space lower_code
is_hex-solid c h = ground arith

hex_body-Solid : (n : ℕ) (s : String) → hex_body n s ≡ true → Solid s
unfolding hex_body
hex_body-Solid zero String.[] h = tt
hex_body-Solid zero (String.◌∷◌ c s) h = cc h
hex_body-Solid (suc n) String.[] h = tt
hex_body-Solid (suc n) (String.◌∷◌ c s) h =
    let (digit, rest) = &&-true (is_hex (code c)) (hex_body n s) h in
    (is_hex-solid (code c) digit, hex_body-Solid n s rest)

-- A text without white space, and a word before a space.
before_space-Solid : (s : String) → Solid s → before_space s ≡ s
unfolding before_space is_space
before_space-Solid String.[] h = refl
before_space-Solid (String.◌∷◌ c s) (solid, rest) = ground (arith, before_space-Solid s rest)

before_space-word : (word t : String) → Solid word → before_space (word <> String.◌∷◌ " " t) ≡ word
unfolding before_space is_space
before_space-word String.[] t h = ap before_space (append.nil (String.◌∷◌ " " t))
before_space-word (String.◌∷◌ c s) t (solid, rest) =
    ap before_space (append.cons c s (String.◌∷◌ " " t))
    ∙ ground (arith, before_space-word s t rest)

after_space-word : (word t : String) → Solid word → after_space (word <> String.◌∷◌ " " t) ≡ some t
unfolding after_space is_space
after_space-word String.[] t h = ap after_space (append.nil (String.◌∷◌ " " t))
after_space-word (String.◌∷◌ c s) t (solid, rest) =
    ap after_space (append.cons c s (String.◌∷◌ " " t)) ∙ ground (arith, after_space-word s t rest)

-- The header of a bearer.
unfoldable pub bearer : String → String
bearer token = "Bearer" <> String.◌∷◌ " " token

prefixed :
    (hex : String)
    → loop_engine_api_key_prefix <> hex ≡ String.◌∷◌ "l" (String.◌∷◌ "e" (String.◌∷◌ "_" hex))
unfolding loop_engine_api_key_prefix
prefixed hex =
    append.cons "l" "e_" hex
    ∙ ap (String.◌∷◌ "l") (
        append.cons "e" "_" hex
        ∙ ap (String.◌∷◌ "e") (append.cons "_" "" hex ∙ ap (String.◌∷◌ "_") (append.nil hex)))

bearer-Solid : Solid "Bearer"
unfolding is_space
bearer-Solid = (refl, (refl, (refl, (refl, (refl, (refl, tt))))))

abbrev has_letters : String → Bool
has_letters String.[] = false
has_letters (String.◌∷◌ c s) = true

nonblank-some : (s : String) → has_letters s ≡ true → nonblank s ≡ some s
unfolding nonblank
nonblank-some s h = go (s == "") refl
  where
    go : (b : Bool) → (s == "") ≡ b → (if b then none else some s) ≡ some s
    go true e = cc (ap has_letters (eq_of_== e), h)
    go false e = refl

module _ (p : Platform) (hex : String) (digits : hex_body 32 hex ≡ true) where
  key : String
  key = generate_plain_loop_api_key p hex

  key-Solid : Solid key
  unfolding generate_plain_loop_api_key key is_space
  key-Solid = subst Solid (sym (prefixed hex)) (refl, (refl, (refl, hex_body-Solid 32 hex digits)))

  key_body-key : key_body loop_engine_api_key_prefix key ≡ true
  unfolding generate_plain_loop_api_key key key_body loop_engine_api_key_prefix lower_code
  key_body-key = ap (key_body "le_") (prefixed hex) ∙ digits

  key-has_letters : has_letters key ≡ true
  unfolding generate_plain_loop_api_key key
  key-has_letters = ap has_letters (prefixed hex)

  module _ (trims : (s : String) → Solid s → p.trim s ≡ s) where
    is_api_key : is_loop_engine_api_key_token p key ≡ true
    unfolding is_loop_engine_api_key_token
    is_api_key = rw (trims key key-Solid) key_body-key

    extract_bearer : extract_bearer_token p (some (bearer key)) ≡ some key
    unfolding extract_bearer_token bearer token_of
    extract_bearer =
        rw
          (
            before_space-word "Bearer" key bearer-Solid,
            after_space-word "Bearer" key bearer-Solid,
            before_space-Solid key key-Solid,
            nonblank-some key key-has_letters,
            trims key key-Solid,
          )
          (nonblank-some key key-has_letters)

-- Where `trim` leaves a text without white space as it is: a record whose token is a generated key,
-- the prefix and 32 hexadecimal digits, is accepted by `register`, and a request that bears the token
-- is then identified as the record says, whatever keys were registered before.
pub register_api_key-authenticates :
    (p : Platform) (hex : String) (r : MemoryApiKeyRecord) (keys : MemoryAuth)
    → ((s : String) → Solid s → p.trim s ≡ s)
    → hex_body 32 hex ≡ true
    → r.token ≡ generate_plain_loop_api_key p hex
    → (after : MemoryAuth) × (register_api_key p r keys ≡ some after)
      × (authenticate p after (some (bearer r.token)) ≡ identified (identity_of r))
unfolding register_api_key authenticate authenticate_token identify key
register_api_key-authenticates p hex r keys trims digits generated =
    let accepted : is_loop_engine_api_key_token p r.token ≡ true =
      rw generated (is_api_key p hex digits trims) in
    let borne : extract_bearer_token p (some (bearer r.token)) ≡ some r.token =
      rw generated (extract_bearer p hex digits trims) in
    let name = normalize_loop_api_key_token p r.token in
    (
      put name r keys,
      rw accepted refl,
      rw (borne, accepted, get-put name name r keys, ==_refl name) refl,
    )
