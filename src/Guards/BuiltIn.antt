-- ===== src/Guards/BuiltIn.antt =====
-- The four built-in evaluators (guards/src/built-in) and `registerBuiltIns`.
use Prim.Native.String
use Prim.Native.Nat.{◌^◌}
use loop_engine.Prelude.{
  ◌*◌, Bool, true, false, ◌&&◌, ◌||◌, not, String, Option, none, some, List, [], ◌∷◌, get, filter,
  is_empty, if◌then◌else◌,
}
use loop_engine.Prelude.Int.{pos}
use loop_engine.Core.{
  Platform, Attributes, Value, num, str, array, Number, nan, fin, number, number_of_int, ge_number,
  read_opt, or_else, items, same_actor_type, human,
}
use loop_engine.Guards.Types.{Evaluator}
use loop_engine.Guards.{GuardRegistry, register}

infixr 65 ◌<>◌
abbrev ◌<>◌ : String → String → String
a <> b = String.◌++◌ a b

abbrev failing : Bool → String → Option String
failing true code = none
failing false code = some code

-- The double nearest to 0.7.
unfoldable pub default_threshold : Number
default_threshold = fin (pos (3152519739159347 * 2 ^ 1022))

-- `typeof v === "number" ? v : d`.
unfoldable pub number_or : Number → Value → Number
number_or d (num n) = n
number_or d _ = d

-- The entries of an array that are texts.
unfoldable pub texts : List Value → List String
texts [] = []
texts (str s ∷ vs) = s ∷ texts vs
texts (_ ∷ vs) = texts vs

-- `parts.join(separator)`.
unfoldable pub join : String → List String → String
join separator [] = ""
join separator (x ∷ []) = x
join separator (x ∷ y ∷ xs) = x <> separator <> join separator (y ∷ xs)

abbrev is_some : Option Value → Bool
is_some none = false
is_some (some v) = true

-- `a > b` on doubles: `b >= a` fails, and neither is `NaN`.
unfoldable pub gt_number : Number → Number → Bool
gt_number a b = ge_number a b && not (ge_number b a)

module _ (p : Platform) where
  unfoldable pub confidence : Value → Number
  confidence (num n) = n
  confidence v = p.to_number (or_else v (num (number 0)))

  unfoldable pub confidence_threshold : Evaluator
  confidence_threshold now context parameters =
      let threshold = number_or default_threshold (read_opt "threshold" parameters) in
      let actual = confidence (read_opt "confidence" context.evidence) in
      let passed = ge_number actual threshold in
      some (record {
        passed = passed;
        code = failing passed "confidence_below_threshold";
        message = some (
            if passed
            then "Confidence threshold met"
            else "AI confidence "
              <> p.to_text (num actual)
              <> " below required threshold "
              <> p.to_text (num threshold));
        metadata = none;
      })

  unfoldable pub is_finite : Number → Bool
  is_finite (fin z) = true
  is_finite _ = false

  -- `rawLastTransitionAt` as a number of milliseconds.
  unfoldable pub last_transition_at : Value → Number
  last_transition_at (str s) = elim (p.parse_date s) [ none ↦ nan | some t ↦ number_of_int t ]
  last_transition_at v = p.to_number v

  unfoldable pub cooldown : Evaluator
  cooldown now context parameters =
      let cooldown_ms = number_or (number 0) (read_opt "cooldownMs" parameters) in
      let last = last_transition_at (read_opt "lastTransitionAt" context.loop_data) in
      let elapsed_ms = p.sub_number (p.now_ms now) last in
      let passed = gt_number elapsed_ms cooldown_ms in
      if is_finite last
      then some (record {
        passed = passed;
        code = failing passed "cooldown_not_elapsed";
        message = some (
            if passed
            then "Cooldown elapsed"
            else "Transition blocked: cooldown period not elapsed");
        metadata = some (("elapsedMs", num elapsed_ms) ∷ ("cooldownMs", num cooldown_ms) ∷ []);
      })
      else some (record {
        passed = true;
        code = none;
        message = some "No prior transition timestamp; cooldown not applicable";
        metadata = none;
      })

  -- The texts in an array; any other value holds none.
  unfoldable pub required_fields : Value → List String
  required_fields (array vs) = texts (items vs)
  required_fields _ = []

  -- `field in evidence`.
  unfoldable pub has_field : Attributes → String → Bool
  has_field evidence field = is_some (get field evidence) || p.is_inherited field

  unfoldable pub evidence_required : Evaluator
  evidence_required now context parameters =
      let required = required_fields (read_opt "requiredFields" parameters) in
      let evidence : Attributes = elim context.evidence [ none ↦ [] | some e ↦ e ] in
      let missing = filter (λ field. not (has_field evidence field)) required in
      let passed = is_empty missing in
      some (record {
        passed = passed;
        code = failing passed "missing_evidence_fields";
        message = some (
            if passed
            then "Required evidence present"
            else "Missing required evidence fields: " <> join ", " missing);
        metadata = none;
      })

  unfoldable pub human_only : Evaluator
  human_only now context parameters =
      let passed = same_actor_type context.actor.type human in
      some (record {
        passed = passed;
        code = failing passed "human_actor_required";
        message = some (
            if passed
            then "Human actor requirement satisfied"
            else "This transition requires a human actor");
        metadata = none;
      })

  unfoldable pub register_built_ins : GuardRegistry → GuardRegistry
  register_built_ins r = register "cooldown" cooldown (
      register "evidence-required" evidence_required
        (register "human-only" human_only (register "confidence-threshold" confidence_threshold r)))
