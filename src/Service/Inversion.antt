-- ===== src/Service/Inversion.antt =====
-- What a service call that returned has done.
use loop_engine.Prelude.{◌≡◌, refl, Option, none, some}
use loop_engine.Core.{Outcome, ok, threw}
use loop_engine.Service.{Server, returned, N, go_on, ◌>>=◌, change, on_host, served, or_throw}
use loop_engine.Service.Traced.{Host}

module _ {S T R A B : Type 0} where
  -- The write answered, and the rest returned.
  pub change-returned :
      (f : R → Option A × R) (k : A → N S T R B) (s : Server S T R) {b : B}
      → ((change f >>= k) s).0 ≡ returned b
      → (a : A) × ((f s.repo).0 ≡ some a)
        × ((k a (record s { repo = (f s.repo).1 })).0 ≡ returned b)
        × (((change f >>= k) s).1 ≡ (k a (record s { repo = (f s.repo).1 })).1)
  unfolding change
  change-returned f k s {b} h = go (f s.repo) h
    where
      go :
          (x : Option A × R)
          → (go_on (or_throw x.0, record s { repo = x.1 }) k).0 ≡ returned b
          → (a : A) × (x.0 ≡ some a)
            × ((k a (record s { repo = x.1 })).0 ≡ returned b)
            × ((go_on (or_throw x.0, record s { repo = x.1 }) k).1
                ≡ (k a (record s { repo = x.1 })).1)
      go (none, r) e = cc e
      go (some a, r) e = (a, refl, e, refl)

  -- The call on the host returned, and so did the rest.
  pub on_host-returned :
      (f : Host S T → Outcome A × Host S T) (k : A → N S T R B) (s : Server S T R) {b : B}
      → ((on_host f >>= k) s).0 ≡ returned b
      → (a : A) × ((f s.host).0 ≡ ok a)
        × ((k a (record s { host = (f s.host).1 })).0 ≡ returned b)
        × (((on_host f >>= k) s).1 ≡ (k a (record s { host = (f s.host).1 })).1)
  unfolding on_host
  on_host-returned f k s {b} h = go (f s.host) h
    where
      go :
          (x : Outcome A × Host S T)
          → (go_on (served x.0, record s { host = x.1 }) k).0 ≡ returned b
          → (a : A) × (x.0 ≡ ok a)
            × ((k a (record s { host = x.1 })).0 ≡ returned b)
            × ((go_on (served x.0, record s { host = x.1 }) k).1
                ≡ (k a (record s { host = x.1 })).1)
      go (threw e, w) bad = cc bad
      go (ok a, w) e = (a, refl, e, refl)
