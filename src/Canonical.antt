-- ===== src/Canonical.antt =====
-- packages/canonical-json/src/canonical-hash.ts: the canonical text of a value and its hash. A text
-- of the model has no lone surrogate, so the check for one always passes; the message and the path
-- of a `CanonicalizationError` are left out.
use Prim.Native.String
use Prim.Native.Char.{code}
use Prim.Native.Nat.{◌/◌, ◌%◌, ◌^◌}
use loop_engine.Prelude.{
  ℕ, ◌+◌, ◌-◌, ◌*◌, Bool, true, false, ◌&&◌, ◌||◌, not, String, Option, none, some, List, [], ◌∷◌,
  Dict, ltb, eqb, if◌then◌else◌,
}
use loop_engine.Prelude.Int.{ℤ, pos_part, neg_part}
use loop_engine.Core.{
  Platform, Value, undefined, null, boolean, num, str, array, object, Items, nil, cons, Fields, end,
  field, Number, fin,
}

infixr 65 ◌<>◌
abbrev pub ◌<>◌ : String → String → String
a <> b = String.◌++◌ a b

-- `Number.isInteger(v)`, and `Math.abs(v) > Number.MAX_SAFE_INTEGER`, at z / 2^1074.
unfoldable pub is_integer : ℤ → Bool
is_integer z = eqb ((pos_part z + neg_part z) % 2 ^ 1074) 0

unfoldable pub exceeds_safe : ℤ → Bool
exceeds_safe z = ltb ((2 ^ 53 - 1) * 2 ^ 1074) (pos_part z + neg_part z)

unfoldable pub canonical_number : Number → Bool
canonical_number (fin z) = not (is_integer z && exceeds_safe z)
canonical_number _ = false

-- `assertCanonicalizable`: false where it throws.
unfoldable mutual
  pub canonicalizable : Value → Bool
  canonicalizable undefined = false
  canonicalizable null = true
  canonicalizable (boolean b) = true
  canonicalizable (num n) = canonical_number n
  canonicalizable (str s) = true
  canonicalizable (array vs) = canonicalizable_items vs
  canonicalizable (object fs) = canonicalizable_fields fs

  pub canonicalizable_items : Items → Bool
  canonicalizable_items nil = true
  canonicalizable_items (cons v vs) = canonicalizable v && canonicalizable_items vs

  pub canonicalizable_fields : Fields → Bool
  canonicalizable_fields end = true
  canonicalizable_fields (field k v fs) = canonicalizable v && canonicalizable_fields fs

-- The UTF-16 code units of a code point and of a text.
unfoldable pub code_units : ℕ → List ℕ → List ℕ
code_units c rest =
    if ltb c 0x10000
    then c ∷ rest
    else (0xd800 + (c - 0x10000) / 0x400) ∷ (0xdc00 + (c - 0x10000) % 0x400) ∷ rest

unfoldable pub utf16 : String → List ℕ
utf16 String.[] = []
utf16 (String.◌∷◌ c s) = code_units (code c) (utf16 s)

-- The order of `Array.prototype.sort` on texts.
unfoldable pub leb_units : List ℕ → List ℕ → Bool
leb_units [] ys = true
leb_units (x ∷ xs) [] = false
leb_units (x ∷ xs) (y ∷ ys) = ltb x y || (eqb x y && leb_units xs ys)

-- `keys.sort()`, each key with the serialization of its value.
unfoldable pub insert_key : String → String → Dict String → Dict String
insert_key k v [] = (k, v) ∷ []
insert_key k v ((j, w) ∷ m) =
    if leb_units (utf16 k) (utf16 j) then (k, v) ∷ (j, w) ∷ m else (j, w) ∷ insert_key k v m

unfoldable pub sort_keys : Dict String → Dict String
sort_keys [] = []
sort_keys ((k, v) ∷ m) = insert_key k v (sort_keys m)

-- `parts.join(",")`.
unfoldable pub commas : List String → String
commas [] = ""
commas (x ∷ []) = x
commas (x ∷ y ∷ xs) = x <> "," <> commas (y ∷ xs)

module _ (p : Platform) where
  unfoldable pub key_parts : Dict String → List String
  key_parts [] = []
  key_parts ((k, v) ∷ m) = (p.json_string k <> ":" <> v) ∷ key_parts m

  -- `canonicalSerialize`, on values that `canonicalizable` accepts.
  unfoldable mutual
    pub serialize : Value → String
    serialize undefined = ""
    serialize null = "null"
    serialize (boolean true) = "true"
    serialize (boolean false) = "false"
    serialize (num n) = p.json_number n
    serialize (str s) = p.json_string s
    serialize (array vs) = "[" <> commas (serialize_items vs) <> "]"
    serialize (object fs) = "{" <> commas (key_parts (sort_keys (serialize_fields fs))) <> "}"

    pub serialize_items : Items → List String
    serialize_items nil = []
    serialize_items (cons v vs) = serialize v ∷ serialize_items vs

    pub serialize_fields : Fields → Dict String
    serialize_fields end = []
    serialize_fields (field k v fs) = (k, serialize v) ∷ serialize_fields fs

  -- `canonicalize`, and `sha256CanonicalHex`; `none` is a `CanonicalizationError`.
  unfoldable pub canonicalize : Value → Option String
  canonicalize v = if canonicalizable v then some (serialize v) else none

  unfoldable pub sha256_canonical_hex : Value → Option String
  sha256_canonical_hex v = elim (canonicalize v) [ none ↦ none | some t ↦ some (p.sha256_hex t) ]
