-- ===== src/Redaction/Masked.antt =====
-- What `guardEvidence` lets through (core/src/toolAdapter.ts).
use loop_engine.Prelude.{
  ◌≡◌, refl, sym, ap, inl, inr, false, String, List, [], ◌∷◌, map, In, contains, contains_iff,
  Bool-cases,
}
use loop_engine.Core.{
  Platform, Value, undefined, null, boolean, num, str, array, object, Items, nil, cons, Fields, end,
  field,
}
use loop_engine.Redaction.{mask_text, walk, walk_items, walk_fields, guard_evidence}

-- Every key and every text of a value, at any depth, is a good one.
unfoldable mutual
  pub Clean : (Key Text : String → Type 0) → Value → Type 0
  Clean Key Text (str s) = Text s
  Clean Key Text (array vs) = CleanItems Key Text vs
  Clean Key Text (object fs) = CleanFields Key Text fs
  Clean Key Text _ = Unit

  pub CleanItems : (Key Text : String → Type 0) → Items → Type 0
  CleanItems Key Text nil = Unit
  CleanItems Key Text (cons v vs) = Clean Key Text v × CleanItems Key Text vs

  pub CleanFields : (Key Text : String → Type 0) → Fields → Type 0
  CleanFields Key Text end = Unit
  CleanFields Key Text (field k v fs) = Key k × Clean Key Text v × CleanFields Key Text fs

-- `s` comes from `t` by one replacement after the other.
abbrev Masks : (masks : List (String → String)) → (t s : String) → Type 0
Masks [] t s = s ≡ t
Masks (replace ∷ masks) t s = Masks masks (replace t) s

mask_text-Masks :
    (p : Platform) (masks : List (String → String)) (t : String)
    → Masks masks t (mask_text p masks t)
unfolding mask_text
mask_text-Masks p [] t = refl
mask_text-Masks p (replace ∷ masks) t = mask_text-Masks p masks (replace t)

Masks-unique :
    (p : Platform) (masks : List (String → String)) (t s : String)
    → Masks masks t s
    → mask_text p masks t ≡ s
unfolding mask_text
Masks-unique p [] t s h = sym h
Masks-unique p (replace ∷ masks) t s h = Masks-unique p masks (replace t) s h

module _ (p : Platform) (strip : List String) (masks : List (String → String)) where
  -- A key that is not to be stripped.
  abbrev pub Kept : String → Type 0
  Kept k = ¬ In (p.to_lower k) strip

  -- A text that has been masked.
  abbrev pub Masked : String → Type 0
  Masked s = (t : String) × Masks masks t s

  -- A text that the masks leave alone.
  abbrev pub Harmless : String → Type 0
  Harmless s = Masks masks s s

  Kept-contains : (k : String) → contains (p.to_lower k) strip ≡ false → Kept k
  Kept-contains k e m = cc ((contains_iff (p.to_lower k) strip).1 m, e)

  contains-Kept : (k : String) → Kept k → contains (p.to_lower k) strip ≡ false
  contains-Kept k kept = elim (Bool-cases (contains (p.to_lower k) strip)) [
    | inl e ↦ absurd (kept ((contains_iff (p.to_lower k) strip).0 e))
    | inr e ↦ e
  ]

  mutual
    unfolding walk walk_items walk_fields Clean CleanItems CleanFields

    walk-Clean : (v : Value) → Clean Kept Masked (walk p strip masks v)
    walk-Clean undefined = tt
    walk-Clean null = tt
    walk-Clean (boolean b) = tt
    walk-Clean (num n) = tt
    walk-Clean (str s) = (s, mask_text-Masks p masks s)
    walk-Clean (array vs) = walk_items-Clean vs
    walk-Clean (object fs) = walk_fields-Clean fs

    walk_items-Clean : (vs : Items) → CleanItems Kept Masked (walk_items p strip masks vs)
    walk_items-Clean nil = tt
    walk_items-Clean (cons v vs) = (walk-Clean v, walk_items-Clean vs)

    walk_fields-Clean : (fs : Fields) → CleanFields Kept Masked (walk_fields p strip masks fs)
    walk_fields-Clean end = tt
    walk_fields-Clean (field k v fs) =
        let own = walk-Clean v in
        let rest = walk_fields-Clean fs in
        elim (Bool-cases (contains (p.to_lower k) strip)) [
          | inl e ↦ rw e rest
          | inr e ↦ rw e (Kept-contains k e, own, rest)
        ]

  mutual
    unfolding walk walk_items walk_fields Clean CleanItems CleanFields

    walk-same : (v : Value) → Clean Kept Harmless v → walk p strip masks v ≡ v
    walk-same undefined h = refl
    walk-same null h = refl
    walk-same (boolean b) h = refl
    walk-same (num n) h = refl
    walk-same (str s) h = ap str (Masks-unique p masks s s h)
    walk-same (array vs) h = ap array (walk_items-same vs h)
    walk-same (object fs) h = ap object (walk_fields-same fs h)

    walk_items-same : (vs : Items) → CleanItems Kept Harmless vs → walk_items p strip masks vs ≡ vs
    walk_items-same nil h = refl
    walk_items-same (cons v vs) (own, rest) = cc (walk-same v own, walk_items-same vs rest)

    walk_fields-same :
        (fs : Fields) → CleanFields Kept Harmless fs → walk_fields p strip masks fs ≡ fs
    walk_fields-same end h = refl
    walk_fields-same (field k v fs) (kept, own, rest) =
        let same = walk-same v own in
        let others = walk_fields-same fs rest in rw (contains-Kept k kept) (cc (same, others))

-- Whatever the payload: at any depth of guarded evidence, no key is one of the fields to strip,
-- compared in lower case, and every text went through all the masks. A payload that has no such key
-- and no text that a mask changes is returned as it is.
pub guard_evidence_lem :
    (p : Platform) (strip_fields : List String) (masks : List (String → String)) (payload : Value)
    → let strip = map p.to_lower strip_fields in
      Clean
        (Kept p strip masks)
        (Masked p strip masks)
        (guard_evidence p strip_fields masks payload)
      × (Clean (Kept p strip masks) (Harmless p strip masks) payload
          → guard_evidence p strip_fields masks payload ≡ payload)
unfolding guard_evidence
guard_evidence_lem p strip_fields masks payload = (
  walk-Clean p (map p.to_lower strip_fields) masks payload,
  walk-same p (map p.to_lower strip_fields) masks payload,
)
