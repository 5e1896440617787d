-- ===== src/Runtime/Rules.antt =====
-- Rules for engine code that leaves the store and the inserted evidence alone, and for code that goes on
-- after it.
use loop_engine.Prelude.{◌≡◌, refl, ◌∙◌, String, Option, none, some, List, [], ◌∷◌, arith}
use loop_engine.Core.{Outcome, ok, threw, Failure}
use loop_engine.Evidence.Commit.{SnapshotStoreInsertInput}
use loop_engine.Events.{LoopEvent, EventBase}
use loop_engine.Runtime.World.{
  World, Options, M, continue, pure, ◌>>=◌, ◌>>◌, require, for_each, clock, emit, create,
}

-- What outlives a call: the store, and the batches that the snapshot store was given.
abbrev pub Durable : Type 0 → Type 0
Durable S = S × List SnapshotStoreInsertInput

module _ {S : Type 0} where
  abbrev pub durable : World S → Durable S
  durable w = (w.store, w.inserted)

  abbrev pub Quiet : {A : Type 0} → M S A → Type 0
  Quiet m = (w : World S) → durable (m w).1 ≡ durable w

  continue_quiet :
      {A B : Type 0} (P : Outcome B × World S → Type 0) (s : Durable S) (f : A → M S B)
      → ((e : Failure) (w : World S) → durable w ≡ s → P (threw e, w))
      → ((a : A) (w : World S) → durable w ≡ s → P (f a w))
      → (x : Outcome A × World S) → durable x.1 ≡ s
      → P (continue x f)
  continue_quiet P s f on_throw on_ok (ok a, w) h = on_ok a w h
  continue_quiet P s f on_throw on_ok (threw e, w) h = on_throw e w h

  -- A property of the end of `m >>= f` that holds where `m` throws and where `f` takes over.
  pub after_quiet :
      {A B : Type 0} (P : Outcome B × World S → Type 0) (s : Durable S) (m : M S A) (f : A → M S B)
      → Quiet m
      → ((e : Failure) (w : World S) → durable w ≡ s → P (threw e, w))
      → ((a : A) (w : World S) → durable w ≡ s → P (f a w))
      → (w : World S) → durable w ≡ s
      → P ((m >>= f) w)
  after_quiet P s m f quiet on_throw on_ok w h =
      continue_quiet P s f on_throw on_ok (m w) (quiet w ∙ h)

  pub >>=-Quiet :
      {A B : Type 0} (m : M S A) (f : A → M S B)
      → Quiet m
      → ((a : A) → Quiet (f a))
      → Quiet (m >>= f)
  >>=-Quiet m f quiet_m quiet_f w =
      after_quiet (λ x. durable x.1 ≡ durable w) (durable w) m f quiet_m (λ e w' h. h)
        (λ a w' h. quiet_f a w' ∙ h) w refl

  pub require-Quiet : {A : Type 0} (a : Option A) (e : Failure) → Quiet (require a e)
  require-Quiet none e w = refl
  require-Quiet (some a) e w = refl

  pub for_each-Quiet :
      {A : Type 0} (xs : List A) (body : A → M S (Unit {0}))
      → ((x : A) → Quiet (body x))
      → Quiet (for_each xs body)
  unfolding for_each
  for_each-Quiet [] body quiet w = refl
  for_each-Quiet (x ∷ xs) body quiet w =
      >>=-Quiet (body x) (λ _. for_each xs body) (quiet x) (λ _. for_each-Quiet xs body quiet) w

module _ {S : Type 0} (o : Options S) where
  pub emit-Quiet : (e : LoopEvent) → Quiet (emit o e)
  unfolding emit
  emit-Quiet e w = ground arith

  pub clock-Quiet : Quiet (clock o)
  unfolding clock
  clock-Quiet w = refl

  pub create-Quiet :
      (loop_id aggregate_id : String) (correlation_id : Option String)
      (event : EventBase → LoopEvent)
      → Quiet (create o loop_id aggregate_id correlation_id event)
  unfolding create
  create-Quiet l a c event w = require-Quiet _ _ _

  -- A factory call and its emission.
  pub announce-Quiet : (m : M S LoopEvent) → Quiet m → Quiet (m >>= emit o)
  announce-Quiet m quiet = >>=-Quiet m (emit o) quiet emit-Quiet

  -- The same, with a result returned.
  pub announce_return-Quiet :
      {A : Type 0} (m : M S LoopEvent) (result : LoopEvent → A)
      → Quiet m
      → Quiet (m >>= λ event. emit o event >> pure (result event))
  announce_return-Quiet m result quiet =
      >>=-Quiet m (λ event. emit o event >> pure (result event)) quiet
        λ event.
          >>=-Quiet (emit o event) (λ _. pure (result event)) (emit-Quiet event) (λ _ w. refl)
