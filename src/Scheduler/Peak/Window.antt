-- ===== src/Scheduler/Peak/Window.antt =====
-- The array of samples that a peak over an interval keeps, against all samples of the interval.
use fisk.Base.{
  ℕ, zero, suc, ◌+◌, ◌-◌, ◌≤◌, max, ◌≡◌, refl, ap, [], ◌∷◌, ◌++◌, arith, dec_lt, ltb, leb,
  if◌then◌else◌, drop,
}
use fisk.Scheduler.Peak.{Samples, from_larger, scan}

-- The largest value of the samples that are younger than the interval at a time.
unfoldable pub younger : ℕ → ℕ → Samples → ℕ
younger interval now [] = 0
younger interval now ((t, n) ∷ rest) =
    max (if ltb now (t + interval) then n else 0) (younger interval now rest)

-- The same with those that are as old as the interval.
unfoldable pub not_older : ℕ → ℕ → Samples → ℕ
not_older interval now [] = 0
not_older interval now ((t, n) ∷ rest) =
    max (if leb now (t + interval) then n else 0) (not_older interval now rest)

-- Every time is at least, at most, this one.
abbrev pub AllFrom : ℕ → Samples → Type 0
AllFrom t [] = Unit {0}
AllFrom t ((u, n) ∷ rest) = (t ≤ u) × AllFrom t rest

abbrev pub AllUntil : ℕ → Samples → Type 0
AllUntil t [] = Unit {0}
AllUntil t ((u, n) ∷ rest) = (u ≤ t) × AllUntil t rest

-- The times do not descend.
abbrev pub IsTimed : Samples → Type 0
IsTimed [] = Unit {0}
IsTimed ((t, n) ∷ rest) = AllFrom t rest × IsTimed rest

pub younger-append :
    (i T : ℕ) (xs ys : Samples) → younger i T (xs ++ ys) ≡ max (younger i T xs) (younger i T ys)
unfolding younger
younger-append i T [] ys = omega arith
younger-append i T ((t, n) ∷ xs) ys = ground (arith, younger-append i T xs ys)

pub not_older-append :
    (i T : ℕ) (xs ys : Samples)
    → not_older i T (xs ++ ys) ≡ max (not_older i T xs) (not_older i T ys)
unfolding not_older
not_older-append i T [] ys = omega arith
not_older-append i T ((t, n) ∷ xs) ys = ground (arith, not_older-append i T xs ys)

pub younger-le-not_older : (i T : ℕ) (xs : Samples) → younger i T xs ≤ not_older i T xs
unfolding younger not_older
younger-le-not_older i T [] = omega arith
younger-le-not_older i T ((t, n) ∷ xs) = ground (arith, younger-le-not_older i T xs)

-- What `record` drops is too old, or no larger than the sample that it adds.
pub younger-from_larger :
    (i now v T : ℕ) (xs : Samples)
    → now ≤ T
    → AllUntil now xs
    → younger i T xs ≤ max (younger i T (from_larger i now v xs)) (younger i T ((now, v) ∷ []))
unfolding younger from_larger
younger-from_larger i now v T [] le h = omega arith
younger-from_larger i now v T ((t, n) ∷ xs) le h =
    ground (arith, younger-from_larger i now v T xs le h.1, h.0)

pub not_older-from_larger :
    (i now v T : ℕ) (xs : Samples) → not_older i T (from_larger i now v xs) ≤ not_older i T xs
unfolding not_older from_larger
not_older-from_larger i now v T [] = omega arith
not_older-from_larger i now v T ((t, n) ∷ xs) = ground (arith, not_older-from_larger i now v T xs)

-- The peak that `toObject` finds.
pub scan-peak :
    (i T idx p s : ℕ) (xs : Samples) → (scan i T idx p s xs).0 ≡ max p (not_older i T xs)
unfolding scan not_older
scan-peak i T idx p s [] = omega arith
scan-peak i T idx p s ((t, n) ∷ xs) =
    ground (arith, scan-peak i T (idx + 1) p (idx + 1) xs, scan-peak i T (idx + 1) (max p n) s xs)

scan-none_old :
    (i T idx p s t : ℕ) (xs : Samples) → T ≤ t + i → AllFrom t xs → (scan i T idx p s xs).1 ≡ s
unfolding scan
scan-none_old i T idx p s t [] young h = refl
scan-none_old i T idx p s t ((u, n) ∷ xs) young h =
    ground (arith, h.0, scan-none_old i T (idx + 1) (max p n) s t xs young h.1)

scan-ge : (i T idx p s : ℕ) (xs : Samples) → s ≤ idx → s ≤ (scan i T idx p s xs).1
unfolding scan
scan-ge i T idx p s [] small = omega arith
scan-ge i T idx p s ((t, n) ∷ xs) small = ground (
  arith,
  scan-ge i T (idx + 1) p (idx + 1) xs (omega arith),
  scan-ge i T (idx + 1) (max p n) s xs (omega arith),
)

drop-past :
    (r idx : ℕ) (x : ℕ × ℕ) (xs : Samples)
    → idx + 1 ≤ r
    → drop (r - idx) (x ∷ xs) ≡ drop (r - (idx + 1)) xs
drop-past r idx x xs le =
    ap (λ k. drop k (x ∷ xs)) {x = r - idx} {y = suc (r - (idx + 1))} (omega arith)

drop-none : (r idx : ℕ) (xs : Samples) → r ≤ idx → drop (r - idx) xs ≡ xs
drop-none r idx xs le = ap (λ k. drop k xs) {x = r - idx} {y = 0} (omega arith)

-- What `toObject` drops from a timed array was too old, then and later.
pub younger-drop :
    (i T U idx p s : ℕ) (xs : Samples)
    → T ≤ U
    → s ≤ idx
    → IsTimed xs
    → younger i U (drop ((scan i T idx p s xs).1 - idx) xs) ≡ younger i U xs
unfolding younger scan
younger-drop i T U idx p s [] le small h = ap (younger i U) (drop-none s idx [] small)
younger-drop i T U idx p s ((t, n) ∷ xs) le small h = elim (dec_lt (t + i) T) [
  | yes old ↦ ground (
    arith,
    ap (younger i U) (
        drop-past (scan i T (idx + 1) p (idx + 1) xs).1 idx (t, n) xs
          (scan-ge i T (idx + 1) p (idx + 1) xs (omega arith))),
    younger-drop i T U (idx + 1) p (idx + 1) xs le (omega arith) h.1,
  )
  | no young ↦ ground (
    arith,
    ap (younger i U) (
        drop-none (scan i T (idx + 1) (max p n) s xs).1 idx ((t, n) ∷ xs)
          (omega (arith, scan-none_old i T (idx + 1) (max p n) s t xs (omega arith) h.0, small))),
  )
]

pub not_older-drop : (i T k : ℕ) (xs : Samples) → not_older i T (drop k xs) ≤ not_older i T xs
unfolding not_older
not_older-drop i T zero xs = omega arith
not_older-drop i T (suc k) [] = omega arith
not_older-drop i T (suc k) ((t, n) ∷ xs) = ground (arith, not_older-drop i T k xs)

-- A timed array until a time stays one.
pub record Holds (now : ℕ) (xs : Samples) : Type 0 where
  pub timed : IsTimed xs
  pub until : AllUntil now xs

AllFrom-drop : (t k : ℕ) (xs : Samples) → AllFrom t xs → AllFrom t (drop k xs)
AllFrom-drop t zero xs h = h
AllFrom-drop t (suc k) [] h = tt
AllFrom-drop t (suc k) ((u, n) ∷ xs) h = AllFrom-drop t k xs h.1

pub Holds-drop : (now k : ℕ) (xs : Samples) → Holds now xs → Holds now (drop k xs)
Holds-drop now zero xs h = h
Holds-drop now (suc k) [] h = h
Holds-drop now (suc k) ((u, n) ∷ xs) h =
    Holds-drop now k xs (record { timed = h.timed.1; until = h.until.1 })

pub Holds-from_larger :
    (i T v now : ℕ) (xs : Samples) → Holds now xs → Holds now (from_larger i T v xs)
unfolding from_larger
Holds-from_larger i T v now [] h = h
Holds-from_larger i T v now ((u, n) ∷ xs) h =
    ground
      (arith, h, Holds-from_larger i T v now xs (record { timed = h.timed.1; until = h.until.1 }))

AllFrom-append :
    (t now v : ℕ) (xs : Samples) → t ≤ now → AllFrom t xs → AllFrom t (xs ++ (now, v) ∷ [])
AllFrom-append t now v [] le h = (le, tt)
AllFrom-append t now v ((u, n) ∷ xs) le h = (h.0, AllFrom-append t now v xs le h.1)

pub Holds-append :
    (last now v : ℕ) (xs : Samples) → last ≤ now → Holds last xs → Holds now (xs ++ (now, v) ∷ [])
Holds-append last now v [] le h = record { timed = (tt, tt); until = (omega arith, tt) }
Holds-append last now v ((u, n) ∷ xs) le h =
    let rest = Holds-append last now v xs le (record { timed = h.timed.1; until = h.until.1 }) in
    record {
      timed = (AllFrom-append u now v xs (omega (arith, h.until.0, le)) h.timed.0, rest.timed);
      until = (omega (arith, h.until.0, le), rest.until);
    }

pub AllUntil-weaken : (t u : ℕ) (xs : Samples) → t ≤ u → AllUntil t xs → AllUntil u xs
AllUntil-weaken t u [] le h = tt
AllUntil-weaken t u ((v, n) ∷ xs) le h = (omega (arith, h.0), AllUntil-weaken t u xs le h.1)
