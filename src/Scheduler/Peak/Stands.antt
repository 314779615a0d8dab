-- ===== src/Scheduler/Peak/Stands.antt =====
-- The array of a peak, against all the samples that were recorded.
use fisk.Base.{ℕ, ◌-◌, ◌≤◌, ap, [], ◌∷◌, ◌++◌, arith, drop}
use fisk.Scheduler.Peak.{Samples, from_larger, scan}
use fisk.Scheduler.Peak.Window.{
  younger, not_older, AllUntil-weaken, Holds, younger-append, not_older-append, younger-from_larger,
  not_older-from_larger, younger-drop, not_older-drop, Holds-drop, Holds-from_larger, Holds-append,
}

-- An array stands for all the samples, from a time on.
pub record Stands (i now : ℕ) (all xs : Samples) : Type 0 where
  pub holds : Holds now xs
  pub at_least : (T : ℕ) → now ≤ T → younger i T all ≤ younger i T xs
  pub at_most : (T : ℕ) → not_older i T xs ≤ not_older i T all

pub Stands-record :
    (i last now v : ℕ) (all xs : Samples)
    → last ≤ now
    → Stands i last all xs
    → Stands i now (all ++ (now, v) ∷ []) (from_larger i now v xs ++ (now, v) ∷ [])
Stands-record i last now v all xs le h = record {
  holds =
      Holds-append last now v (from_larger i now v xs) le
        (Holds-from_larger i now v last xs h.holds);
  at_least = λ T later. omega (
    arith,
    younger-append i T all ((now, v) ∷ []),
    younger-append i T (from_larger i now v xs) ((now, v) ∷ []),
    younger-from_larger i now v T xs later (AllUntil-weaken last now xs le h.holds.until),
    h.at_least T (omega arith),
  );
  at_most = λ T. omega (
    arith,
    not_older-append i T all ((now, v) ∷ []),
    not_older-append i T (from_larger i now v xs) ((now, v) ∷ []),
    not_older-from_larger i now v T xs,
    h.at_most T,
  );
}

pub Stands-drop :
    (i last now : ℕ) (all xs : Samples)
    → last ≤ now
    → Stands i last all xs
    → Stands i now all (drop (scan i now 0 0 0 xs).1 xs)
Stands-drop i last now all xs le h =
    let k = (scan i now 0 0 0 xs).1 in
    record {
      holds = record {
        timed = (Holds-drop last k xs h.holds).timed;
        until = AllUntil-weaken last now (drop k xs) le (Holds-drop last k xs h.holds).until;
      };
      at_least = λ T later. omega (
        arith,
        younger-drop i now T 0 0 0 xs later (omega arith) h.holds.timed,
        ap (λ n. younger i T (drop n xs)) {x = k - 0} {y = k} (omega arith),
        h.at_least T (omega arith),
      );
      at_most = λ T. omega (arith, not_older-drop i T k xs, h.at_most T);
    }

pub Stands-later :
    (i last now : ℕ) (all xs : Samples) → last ≤ now → Stands i last all xs → Stands i now all xs
Stands-later i last now all xs le h = record {
  holds = record { timed = h.holds.timed; until = AllUntil-weaken last now xs le h.holds.until };
  at_least = λ T later. h.at_least T (omega arith);
  at_most = h.at_most;
}
