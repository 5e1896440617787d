-- ===== src/Redaction/Safe.antt =====
-- What the cleaning of evidence lets through.
use Prim.Native.Char.{code}
use Prim.Native.String.append
use Prim.Native.Nat.{◌/◌, ◌%◌}
use loop_engine.Prelude.{
  ℕ, ◌-◌, ◌+◌, ◌≤◌, ◌<◌, ◌≡◌, refl, ap, ◌∙◌, ◌⊎◌, inl, inr, Bool, true, false, String, some, List,
  [], ◌∷◌, ◌++◌, get, length, length-append, ltb, arith, if◌then◌else◌,
}
use loop_engine.Core.{Platform, Value, Attributes}
use loop_engine.Canonical.{utf16, code_units, ◌<>◌}
use loop_engine.Redaction.{text_length, truncated, is_blocked_key, redact_value}

-- An entry of a dictionary.
abbrev pub Entry : String → Value → Attributes → Type 0
Entry k v [] = ⊥
Entry k v ((j, w) ∷ m) = ((j ≡ k) × (w ≡ v)) ⊎ Entry k v m

module _ (p : Platform) where
  -- A value of the result stood there before, or cleans an entry that is not blocked.
  abbrev Comes : String → Value → Attributes → Attributes → Type 0
  Comes k v result evidence =
      (get k result ≡ some v)
      ⊎ ((is_blocked_key p k ≡ false) × ((w : Value) × Entry k w evidence × (v ≡ redact_value p w)))

code_units-append : (c : ℕ) (a b : List ℕ) → code_units c (a ++ b) ≡ code_units c a ++ b
unfolding code_units
code_units-append c a b = go (ltb c 0x10000)
  where
    go :
        (small : Bool)
        → (if small
            then c ∷ (a ++ b)
            else (0xd800 + (c - 0x10000) / 0x400) ∷ (0xdc00 + (c - 0x10000) % 0x400) ∷ (a ++ b))
          ≡ ((if small
                then c ∷ a
                else (0xd800 + (c - 0x10000) / 0x400) ∷ (0xdc00 + (c - 0x10000) % 0x400) ∷ a)
              ++ b)
    go true = refl
    go false = refl

utf16-append : (s t : String) → utf16 (s <> t) ≡ utf16 s ++ utf16 t
unfolding utf16
utf16-append String.[] t = ap utf16 (append.nil t)
utf16-append (String.◌∷◌ c s) t =
    ap utf16 (append.cons c s t)
    ∙ ap (code_units (code c)) (utf16-append s t)
    ∙ code_units-append (code c) (utf16 s) (utf16 t)

suffix_length : length (utf16 " [truncated]") ≡ 12
unfolding utf16 code_units
suffix_length = refl

-- A text of at most 512 code units is kept; a longer one is cut and marked, and then has 524 units,
-- where `slice(0, n)` returns n units of a text that has as many.
pub truncated_lem :
    (p : Platform)
    → ((s : String) (n : ℕ) → n ≤ text_length s → text_length (p.slice s n) ≡ n)
    → (s : String)
    → ((text_length s ≤ 512) × (truncated p s ≡ s))
      ⊎ ((512 < text_length s) × (text_length (truncated p s) ≡ 524))
unfolding truncated text_length
truncated_lem p cut s = go (ltb 512 (length (utf16 s))) refl
  where
    go :
        (b : Bool)
        → ltb 512 (length (utf16 s)) ≡ b
        → let t = if b then p.slice s 512 <> " [truncated]" else s in
          ((length (utf16 s) ≤ 512) × (t ≡ s))
          ⊎ ((512 < length (utf16 s)) × (length (utf16 t) ≡ 524))
    go true e =
        let long : 512 < length (utf16 s) = ground (arith, e) in
        let split = ap length (utf16-append (p.slice s 512) " [truncated]") in
        let parts = length-append (utf16 (p.slice s 512)) (utf16 " [truncated]") in
        let kept = cut s 512 (omega (arith, long)) in
        inr (long, omega (arith, split, parts, suffix_length, kept))
    go false e = inl (ground (arith, e), refl)
