-- ===== src/Sdk/System.antt =====
-- The definitions that a created system runs.
use loop_engine.Prelude.{
  ◌≡◌, refl, sym, ap, ◌∙◌, subst, Bool, true, false, String, Option, none, some, List, [], ◌∷◌, In,
  inl, inr, Dict, get, put, get-put, values, find, find-some, all, is_empty, if◌then◌else◌, ◌==◌,
  eq_of_==, &&-true, some-injective,
}
use loop_engine.Core.{Platform, LoopDefinition, LoopInstance}
use loop_engine.Validator.{validate_loop_definition}
use loop_engine.Validator.Valid.{declared}
use loop_engine.Runtime.World.{World, Options}
use loop_engine.Runtime.Life.{Life, born, lives}
use loop_engine.Runtime.Declared.{Life-declared}
use loop_engine.Sdk.{
  CreateLoopSystemOptions, merge_into, merge_definitions, registry_get, registry_loops, is_valid,
  engine_options, create_loop_system,
}

abbrev pub preferring : Option LoopDefinition → Option LoopDefinition → Option LoopDefinition
preferring none b = b
preferring (some d) b = some d

-- The last definition of a list with an identifier.
unfoldable pub last_of : String → List LoopDefinition → Option LoopDefinition
last_of id [] = none
last_of id (d ∷ ds) = preferring (last_of id ds) (if d.id == id then some d else none)

-- Every definition stands under its own identifier.
abbrev Keyed : Dict LoopDefinition → Type 0
Keyed [] = Unit
Keyed ((k, d) ∷ m) = (d.id ≡ k) × Keyed m

put-Keyed : (d : LoopDefinition) (m : Dict LoopDefinition) → Keyed m → Keyed (put d.id d m)
unfolding put
put-Keyed d [] h = (refl, tt)
put-Keyed d ((k, e) ∷ m) (same, h) = go (k == d.id) refl (put-Keyed d m h)
  where
    go :
        (b : Bool)
        → (k == d.id) ≡ b
        → Keyed (put d.id d m)
        → Keyed (if b then (k, d) ∷ m else (k, e) ∷ put d.id d m)
    go true f rest = (sym (eq_of_== f), h)
    go false f rest = (same, rest)

merge-Keyed :
    (ds : List LoopDefinition) (m : Dict LoopDefinition) → Keyed m → Keyed (merge_into ds m)
unfolding merge_into
merge-Keyed [] m h = h
merge-Keyed (d ∷ ds) m h = merge-Keyed ds (put d.id d m) (put-Keyed d m h)

get-merge :
    (id : String) (ds : List LoopDefinition) (m : Dict LoopDefinition)
    → get id (merge_into ds m) ≡ preferring (last_of id ds) (get id m)
unfolding merge_into last_of
get-merge id [] m = refl
get-merge id (d ∷ ds) m = get-merge id ds (put d.id d m) ∙ go (last_of id ds)
  where
    push :
        (b : Bool)
        → (if b then some d else get id m) ≡ preferring (if b then some d else none) (get id m)
    push true = refl
    push false = refl

    go :
        (o : Option LoopDefinition)
        → preferring o (get id (put d.id d m))
          ≡ preferring (preferring o (if d.id == id then some d else none)) (get id m)
    go (some e) = refl
    go none = get-put d.id id d m ∙ push (d.id == id)

find-Keyed :
    (id : String) (m : Dict LoopDefinition) → Keyed m → find (λ d. d.id == id) (values m) ≡ get id m
unfolding find values get
find-Keyed id [] h = refl
find-Keyed id ((k, d) ∷ m) (same, h) =
    ap (λ i. if i == id then some d else find (λ d. d.id == id) (values m)) same
    ∙ ap (λ o. if k == id then some d else o) (find-Keyed id m h)

-- A lookup in the merged definitions finds the last local definition with the identifier, and the
-- registry's last one where there is no local one.
pub registry_get-merge_definitions :
    (id : String) (registry_defs local_defs : List LoopDefinition)
    → registry_get (merge_definitions registry_defs local_defs) id
      ≡ preferring (last_of id local_defs) (last_of id registry_defs)
unfolding registry_get merge_definitions get
registry_get-merge_definitions id registry_defs local_defs =
    find-Keyed id _ (merge-Keyed local_defs _ (merge-Keyed registry_defs [] tt))
    ∙ get-merge id local_defs (merge_into registry_defs [])
    ∙ ap (preferring (last_of id local_defs))
        (get-merge id registry_defs [] ∙ none_last (last_of id registry_defs))
  where
    none_last : (o : Option LoopDefinition) → preferring o (get id []) ≡ o
    none_last none = refl
    none_last (some d) = refl

all-In :
    (ds : List LoopDefinition) (d : LoopDefinition)
    → all is_valid ds ≡ true
    → In d ds
    → is_valid d ≡ true
unfolding all
all-In [] d h m = elim m [ ]
all-In (e ∷ ds) d h m =
    let (first, rest) = &&-true (is_valid e) (all is_valid ds) h in
    elim m [
      | inl same ↦ subst (λ x. is_valid x ≡ true) same first
      | inr there ↦ all-In ds d rest there
    ]

is_empty-nil : {A : Type 0} (xs : List A) → is_empty xs ≡ true → xs ≡ []
is_empty-nil [] h = refl
is_empty-nil (x ∷ xs) h = cc h

-- The states of a created system's loops: no hypothesis on the definition is left.
module _ {S : Type 0} (p : Platform) (options : CreateLoopSystemOptions S) (o : Options S)
    (made : create_loop_system p options ≡ some o) where
  -- The definitions of the system are merged and valid.
  system-definitions :
      let merged = merge_definitions (registry_loops options.registry) options.loops in
      (all is_valid merged ≡ true) × (o ≡ engine_options p options merged)
  unfolding create_loop_system
  system-definitions = go (all is_valid merged) refl made
    where
      merged : List LoopDefinition
      merged = merge_definitions (registry_loops options.registry) options.loops

      go :
          (b : Bool)
          → all is_valid merged ≡ b
          → (if b then some (engine_options p options merged) else none) ≡ some o
          → (all is_valid merged ≡ true) × (o ≡ engine_options p options merged)
      go true e h = (e, sym (some-injective _ _ h))
      go false e h = cc h

  definition_of-system :
      (id : String)
      → o.definition_of id
        ≡ preferring (last_of id options.loops) (last_of id (registry_loops options.registry))
  unfolding engine_options
  definition_of-system id =
      ap (λ (x : Options S). x.definition_of id) system-definitions.1
      ∙ registry_get-merge_definitions id _ _

  definition_of-valid :
      (id : String) (d : LoopDefinition)
      → o.definition_of id ≡ some d
      → validate_loop_definition d ≡ []
  unfolding engine_options registry_get
  definition_of-valid id d h =
      let (valid, same) = system-definitions in
      let found = ap (λ (x : Options S). x.definition_of id) (sym same) ∙ h in
      is_empty-nil _ (all-In _ d valid (find-some _ _ found).0)

  Life-definition :
      (a : String) (d : LoopDefinition) {w : World S}
      → Life o a d w
      → validate_loop_definition d ≡ []
  Life-definition a d (born w q i sound at_a fresh defined known returned) =
      definition_of-valid d.id d known
  Life-definition a d (lives c other l) = Life-definition a d l

-- When `createLoopSystem` creates a system, its engine runs, for an identifier, the last local
-- definition that has it and otherwise the registry's last one; and in every world of a life of an
-- aggregate in it, the stored current state is one that the definition declares.
pub create_loop_system_lem :
    {S : Type 0} (p : Platform) (options : CreateLoopSystemOptions S) (o : Options S)
    → create_loop_system p options ≡ some o
    → ((id : String)
        → o.definition_of id
          ≡ preferring (last_of id options.loops) (last_of id (registry_loops options.registry)))
      × ((a : String) (d : LoopDefinition) (w : World S) (i : LoopInstance)
          → Life o a d w
          → o.store.get_instance w.store a ≡ some i
          → In i.current_state (declared d))
create_loop_system_lem p options o made = (
  definition_of-system p options o made,
  λ a d w i l found. Life-declared o a d (Life-definition p options o made a d l) l i found,
)
