-- ===== src/Validator.antt =====
-- packages/loop-definition: the validation of a definition (loop-definition/src/validator.ts). A set
-- of texts is a list, and a result is valid where its list of errors is empty. Messages are left out.
pub mod Search
pub mod Decides
pub mod Graph
pub mod Checks
pub mod Cycles
pub mod Valid
use loop_engine.Prelude.{
  ℕ, zero, suc, ◌+◌, Bool, true, false, ◌&&◌, ◌||◌, not, String, Option, none, some, List, [], ◌∷◌,
  ◌++◌, map, Dict, get, put, filter, any, contains, eqb, length, is_empty, if◌then◌else◌, ◌==◌,
}
use loop_engine.Core.{LoopDefinition, TransitionSpec, StateSpec, GuardSpec, OutcomeSpec, flag}

pub data ErrorCode : Type 0 where
  invalid_initial_state invalid_transition_state duplicate_guard_id no_terminal_state : ErrorCode
  loop_not_completable signal_cycle_detected outcome_metrics_required : ErrorCode

-- The path of an error.
pub data Place : Type 0 where
  whole initial_state states business_metrics : Place
  from_of to_of guards_of signal_of : (transition : ℕ) → Place

pub record ValidationError : Type 0 where
  pub code : ErrorCode
  pub path : Place

abbrev pub report : Bool → ErrorCode → Place → List ValidationError
report wrong c path = if wrong then record { code = c; path = path } ∷ [] else []

-- `Set.add`.
unfoldable pub add : String → List String → List String
add k ks = if contains k ks then ks else ks ++ k ∷ []

-- `findTerminalStates`.
unfoldable pub terminal_states : List StateSpec → List String
terminal_states [] = []
terminal_states (s ∷ ss) =
    if flag s.is_terminal then s.id ∷ terminal_states ss else terminal_states ss

abbrev pub neighbours : Option (List String) → List String
neighbours none = []
neighbours (some ks) = ks

-- `graph.get(state) ?? new Set()`.
abbrev pub next_in : Dict (List String) → String → List String
next_in graph state = neighbours (get state graph)

-- The loop that fills `graph`.
unfoldable pub graph_from : Dict (List String) → List TransitionSpec → Dict (List String)
graph_from graph [] = graph
graph_from graph (t ∷ ts) = graph_from (put t.from (add t.to (next_in graph t.from)) graph) ts

-- What is still to be pushed: the neighbours of the listed states that were not visited.
unfoldable pub weight : (String → List String) → List String → List String → ℕ
weight next visited [] = 0
weight next visited (k ∷ ks) =
    (if contains k visited then 0 else length (next k)) + weight next visited ks

-- The loop over the queue, on fuel.
unfoldable pub search :
    (fuel : ℕ) → (next : String → List String) → (terminals visited queue : List String) → Bool
search zero next terminals visited queue = false
search (suc n) next terminals visited [] = false
search (suc n) next terminals visited (current ∷ queue) =
    let skipped = search n next terminals visited queue in
    let pushed = filter (λ k. not (contains k (current ∷ visited))) (next current) in
    let deeper = search n next terminals (current ∷ visited) (queue ++ pushed) in
    if contains current terminals
    then true
    else if contains current visited
    then skipped
    else deeper

abbrev pub sources : List TransitionSpec → List String
sources ts = map (λ (t : TransitionSpec). t.from) ts

-- `hasPathToTerminal`.
unfoldable pub has_path_to_terminal : LoopDefinition → List String → Bool
has_path_to_terminal d terminals =
    let next = next_in (graph_from [] d.transitions) in
    search (2 + weight next [] (sources d.transitions)) next terminals [] (d.initial_state ∷ [])

-- `b` leads back along the signal of `a`.
abbrev pub reverses : TransitionSpec → TransitionSpec → Bool
reverses a b = b.signal == a.signal && (b.from == a.to && b.to == a.from)

-- The inner loop of `checkSignalCycles` from position `j`.
unfoldable pub cycles_with : TransitionSpec → (i j : ℕ) → List TransitionSpec → List ValidationError
cycles_with a i j [] = []
cycles_with a i j (b ∷ bs) =
    report (not (eqb i j) && reverses a b) signal_cycle_detected (signal_of i)
    ++ cycles_with a i (suc j) bs

-- The outer loop from position `i`.
unfoldable pub cycles_from :
    List TransitionSpec → (i : ℕ) → List TransitionSpec → List ValidationError
cycles_from ts i [] = []
cycles_from ts i (a ∷ rest) = cycles_with a i 0 ts ++ cycles_from ts (suc i) rest

-- The loop over the guards of a transition: the identifiers seen again.
unfoldable pub duplicates : (seen dups : List String) → List GuardSpec → List String
duplicates seen dups [] = dups
duplicates seen dups (g ∷ gs) =
    duplicates (add g.id seen) (if contains g.id seen then add g.id dups else dups) gs

unfoldable pub has_duplicates : Option (List GuardSpec) → Bool
has_duplicates none = false
has_duplicates (some gs) = not (is_empty (duplicates [] [] gs))

-- The loop over the transitions from position `i`.
unfoldable pub transition_errors :
    (state_ids : List String) → (i : ℕ) → List TransitionSpec → List ValidationError
transition_errors state_ids i [] = []
transition_errors state_ids i (t ∷ ts) =
    report (not (contains t.from state_ids)) invalid_transition_state (from_of i)
    ++ (report (not (contains t.to state_ids)) invalid_transition_state (to_of i)
        ++ (report (has_duplicates t.guards) duplicate_guard_id (guards_of i)
            ++ transition_errors state_ids (suc i) ts))

unfoldable pub completion_errors : LoopDefinition → List String → List ValidationError
completion_errors d terminals =
    if is_empty terminals
    then report true no_terminal_state states
    else report
        (not (any (λ (t : TransitionSpec). contains t.to terminals) d.transitions)
          || not (has_path_to_terminal d terminals))
        loop_not_completable whole

unfoldable pub lacks_metrics : Option OutcomeSpec → Bool
lacks_metrics none = false
lacks_metrics (some o) = is_empty o.business_metrics

unfoldable pub validate_loop_definition : LoopDefinition → List ValidationError
validate_loop_definition d =
    let state_ids = map (λ (s : StateSpec). s.id) d.states in
    report (not (contains d.initial_state state_ids)) invalid_initial_state initial_state
    ++ (transition_errors state_ids 0 d.transitions
        ++ (completion_errors d (terminal_states d.states)
            ++ (cycles_from d.transitions 0 d.transitions
                ++ report (lacks_metrics d.outcome) outcome_metrics_required business_metrics)))
