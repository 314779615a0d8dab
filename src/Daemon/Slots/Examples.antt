-- ===== src/Daemon/Slots/Examples.antt =====
-- Runs of a pool with two slots, and the theorems on pools at concrete inputs.
use fisk.Base.{String, ◌≡◌, refl, inr, List, [], ◌∷◌, arith, ℕ_discrete}
use fisk.OrderedMap.{get, set, delete}
use fisk.Daemon.Slots.{Slots, Event, changed, called, done, create, acquire, release, serve_first}
use fisk.Daemon.Slots.Invariant.{IsValid, release-IsValid}

-- Clients 1 and 2 hold the slots, client 3 waits.
abbrev contended : Slots String
contended = record {
  count = 2;
  used = (1, 101) ∷ (2, 102) ∷ [];
  pending = (3, record { cb = "three"; pid = 103 }) ∷ [];
  total_acquired = 2;
}

contended_runs :
    (acquire (acquire (acquire (create 2) 1 101 "one").0 2 102 "two").0 3 103 "three").0 ≡ contended
unfolding acquire create set ℕ_discrete
contended_runs = refl

contended-IsValid : IsValid contended
unfolding get ℕ_discrete
contended-IsValid = record {
  bounded = omega arith;
  busy = inr refl;
  used_once = (refl, (refl, tt));
  pending_once = (refl, tt);
  apart = λ id. ground (arith, ℕ_discrete 1 id, ℕ_discrete 2 id, ℕ_discrete 3 id);
}

release-IsValid_example :
    (r : Slots String × List (Event String)) × (release contended 1 ≡ done r) × IsValid r.0
release-IsValid_example = release-IsValid contended 1 contended-IsValid

abbrev after_one : Slots String
after_one = record contended { used = (2, 102) ∷ (3, 103) ∷ []; pending = []; total_acquired = 3 }

release_runs : release contended 1 ≡ done (after_one, called "three" ∷ changed ∷ [])
unfolding release serve_first get set delete ℕ_discrete
release_runs = refl
