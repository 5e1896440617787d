-- ===== src/Redaction.antt =====
-- The cleaning of evidence before it leaves the process: `redactPiiEvidence`
-- (sdk/src/lib/redactPiiEvidence.ts), `guardEvidence` (core/src/toolAdapter.ts)
-- and `sanitizeEvidence` (runtime-core/src/loop-execution.ts).
pub mod Safe
pub mod Masked
use Prim.Native.String
use Prim.Native.Char.{code}
use loop_engine.Prelude.{
  ℕ, suc, ◌+◌, Bool, true, false, ◌&&◌, ◌||◌, String, Option, none, some, List, [], ◌∷◌, map, Dict,
  put, contains, length, leb, ltb, eqb, if◌then◌else◌,
}
use loop_engine.Core.{
  Platform, Value, undefined, null, boolean, num, str, array, object, Items, nil, cons, Fields, end,
  field, object_of, Attributes,
}
use loop_engine.Canonical.{utf16, ◌<>◌}

-- `\s` of a regular expression, which is also what `trimStart` drops.
unfoldable pub is_space : ℕ → Bool
is_space c =
    (leb 9 c && leb c 13)
    || (eqb c 32
        || (eqb c 0xa0
            || (eqb c 0x1680
                || ((leb 0x2000 c && leb c 0x200a)
                    || (eqb c 0x2028
                        || (eqb c 0x2029
                            || (eqb c 0x202f
                                || (eqb c 0x205f || (eqb c 0x3000 || eqb c 0xfeff)))))))))

unfoldable pub trim_start : String → String
trim_start String.[] = ""
trim_start (String.◌∷◌ c s) =
    let rest = trim_start s in if is_space (code c) then rest else String.◌∷◌ c s

-- `text.length`.
unfoldable pub text_length : String → ℕ
text_length s = length (utf16 s)

-- The flag `i`, on the letters of the pattern.
unfoldable pub lower_code : ℕ → ℕ
lower_code c = if leb b'A' c && leb c b'Z' then c + 32 else c

-- What follows a word of the pattern.
unfoldable pub after_word : (word text : String) → Option String
after_word String.[] text = some text
after_word (String.◌∷◌ w word) String.[] = none
after_word (String.◌∷◌ w word) (String.◌∷◌ c text) =
    let rest = after_word word text in if eqb (lower_code (code c)) (code w) then rest else none

unfoldable pub after_colon : String → Option String
after_colon String.[] = none
after_colon (String.◌∷◌ c text) = if eqb (code c) b':' then some text else none

-- `text.replace(/^(system|user|assistant|human|ai)\s*:/i, "")`, with the words still to be tried. No
-- word begins with another one.
unfoldable pub strip_prefix : List String → String → String
strip_prefix [] text = text
strip_prefix (w ∷ ws) text =
    let others = strip_prefix ws text in
    elim (after_word w text) [
      | none ↦ others
      | some rest ↦ elim (after_colon (trim_start rest)) [ none ↦ others | some after ↦ after ]
    ]

unfoldable pub roles : List String
roles = "system" ∷ "user" ∷ "assistant" ∷ "human" ∷ "ai" ∷ []

unfoldable pub blocked_keys : List String
blocked_keys =
    "ssn" ∷ "sin" ∷ "dob" ∷ "dateofbirth" ∷ "passport" ∷ "driverslicense" ∷ "creditcard" ∷ "ccn"
    ∷ "accountnumber" ∷ "routingnumber" ∷ "iban" ∷ "swift" ∷ "pin" ∷ "password" ∷ "secret" ∷ "token"
    ∷ "email" ∷ "phone" ∷ "mobile" ∷ "address" ∷ "ip" ∷ "ipaddress" ∷ "geolocation" ∷ "lat" ∷ "lng"
    ∷ "healthrecord" ∷ "mrn" ∷ "npi" ∷ "diagnosis" ∷ "medication" ∷ []

-- `.replace(/[_\-\s]/g, "")`.
unfoldable pub is_separator : ℕ → Bool
is_separator c = eqb c b'_' || (eqb c b'-' || is_space c)

unfoldable pub without_separators : String → String
without_separators String.[] = ""
without_separators (String.◌∷◌ c s) =
    if is_separator (code c) then without_separators s else String.◌∷◌ c (without_separators s)

module _ (p : Platform) where
  unfoldable pub truncated : String → String
  truncated s = if ltb 512 (text_length s) then p.slice s 512 <> " [truncated]" else s

  unfoldable pub sanitize_value : Value → Value
  sanitize_value (str s) = str (truncated (trim_start (strip_prefix roles s)))
  sanitize_value v = v

  -- The loop of `sanitizeEvidence`, on what is built so far.
  unfoldable pub sanitize_from : Attributes → Attributes → Attributes
  sanitize_from sanitized [] = sanitized
  sanitize_from sanitized ((k, v) ∷ evidence) =
      sanitize_from (put k (sanitize_value v) sanitized) evidence

  unfoldable pub sanitize_evidence : Option Attributes → Option Attributes
  sanitize_evidence none = none
  sanitize_evidence (some evidence) = some (sanitize_from [] evidence)

  unfoldable pub is_blocked_key : String → Bool
  is_blocked_key k = contains (without_separators (p.to_lower k)) blocked_keys

  unfoldable pub redact_value : Value → Value
  redact_value (str s) = str (truncated (trim_start (strip_prefix roles (p.trim s))))
  redact_value v = v

  -- The loop of `redactPiiEvidence`, on what is built so far.
  unfoldable pub redact_from : Attributes → Attributes → Attributes
  redact_from result [] = result
  redact_from result ((k, v) ∷ evidence) =
      if is_blocked_key k
      then redact_from result evidence
      else redact_from (put k (redact_value v) result) evidence

  unfoldable pub redact_pii_evidence : Attributes → Attributes
  redact_pii_evidence evidence = redact_from [] evidence

  -- The loop over `masks`; `s.replace(pattern, "[REDACTED]")` is a function of the text.
  unfoldable pub mask_text : (masks : List (String → String)) → String → String
  mask_text [] s = s
  mask_text (replace ∷ masks) s = mask_text masks (replace s)

  -- The walk of `guardEvidence`: the keys in `strip` go, at any depth, and texts are masked.
  unfoldable mutual
    pub walk : (strip : List String) → (masks : List (String → String)) → Value → Value
    walk strip masks undefined = undefined
    walk strip masks null = null
    walk strip masks (boolean b) = boolean b
    walk strip masks (num n) = num n
    walk strip masks (str s) = str (mask_text masks s)
    walk strip masks (array vs) = array (walk_items strip masks vs)
    walk strip masks (object fs) = object (walk_fields strip masks fs)

    pub walk_items : (strip : List String) → (masks : List (String → String)) → Items → Items
    walk_items strip masks nil = nil
    walk_items strip masks (cons v vs) = cons (walk strip masks v) (walk_items strip masks vs)

    pub walk_fields : (strip : List String) → (masks : List (String → String)) → Fields → Fields
    walk_fields strip masks end = end
    walk_fields strip masks (field k v fs) =
        if contains (p.to_lower k) strip
        then walk_fields strip masks fs
        else field k (walk strip masks v) (walk_fields strip masks fs)

  unfoldable pub guard_evidence :
      (strip_fields : List String) → (mask_patterns : List (String → String)) → Value → Value
  guard_evidence strip_fields mask_patterns payload =
      walk (map p.to_lower strip_fields) mask_patterns payload
