-- ===== src/Daemon/CompilerInfoCache/Callers.antt =====
-- What the callers of the compiler info cache hear.
use fisk.Base.{
  ℕ, ◌+◌, ◌≡◌, refl, String, ite, Option, none, some, List, [], ◌∷◌, ◌++◌, arith, ℕ_discrete,
  String_discrete, Option-cases, inl, inr,
}
use fisk.OrderedMap.{get}
use fisk.OrderedMap.Laws.{IsDistinct, set-IsDistinct, delete-IsDistinct}
use fisk.OrderedMap.Sums.{sum_values, sum_values-set_new, sum_values-set, sum_values-delete}
use fisk.Daemon.CompilerInfoCache.{
  Effect, computes, resolved, rejected, CompilerInfoCache, Event, asked, computed, start, get_info,
  answers, on_computed, step, run,
}

-- How often a number is in a list.
abbrev times : ℕ → List ℕ → ℕ
times c [] = 0
times c (d ∷ ds) = ite (ℕ_discrete d c) 1 0 + times c ds

module _ {I : Type 0} where
  -- How often a caller asked.
  abbrev pub times_asked : ℕ → List (Event I) → ℕ
  times_asked c [] = 0
  times_asked c (asked d key ∷ es) = ite (ℕ_discrete d c) 1 0 + times_asked c es
  times_asked c (computed key r ∷ es) = times_asked c es

  -- How often its promise was resolved or rejected.
  abbrev pub times_settled : ℕ → List (Effect I) → ℕ
  times_settled c [] = 0
  times_settled c (computes key ∷ out) = times_settled c out
  times_settled c (resolved d info ∷ out) = ite (ℕ_discrete d c) 1 0 + times_settled c out
  times_settled c (rejected d ∷ out) = ite (ℕ_discrete d c) 1 0 + times_settled c out

  -- How often it waits for a computation.
  abbrev pub times_waiting : ℕ → CompilerInfoCache I → ℕ
  times_waiting c s = sum_values String_discrete (times c) s.pending

times-append : (c : ℕ) (xs ys : List ℕ) → times c (xs ++ ys) ≡ times c xs + times c ys
times-append c [] ys = omega arith
times-append c (x ∷ xs) ys = omega (arith, times-append c xs ys)

module _ {I : Type 0} where
  times_settled-append :
      (c : ℕ) (xs ys : List (Effect I))
      → times_settled c (xs ++ ys) ≡ times_settled c xs + times_settled c ys
  times_settled-append c [] ys = omega arith
  times_settled-append c (computes k ∷ xs) ys = times_settled-append c xs ys
  times_settled-append c (resolved d i ∷ xs) ys = omega (arith, times_settled-append c xs ys)
  times_settled-append c (rejected d ∷ xs) ys = omega (arith, times_settled-append c xs ys)

  times_settled-answers :
      (c : ℕ) (callers : List ℕ) (r : Option I)
      → times_settled c (answers callers r) ≡ times c callers
  unfolding answers
  times_settled-answers c [] none = refl
  times_settled-answers c [] (some i) = refl
  times_settled-answers c (d ∷ ds) none = omega (arith, times_settled-answers c ds none)
  times_settled-answers c (d ∷ ds) (some i) = omega (arith, times_settled-answers c ds (some i))

  -- The effects of an event account for the callers that wait after it, and those before.
  record Counted (c : ℕ) (s : CompilerInfoCache I) (asks : ℕ)
      (r : CompilerInfoCache I × List (Effect I)) : Type 0 where
    count : times_settled c r.1 + times_waiting c r.0 ≡ asks + times_waiting c s
    distinct : IsDistinct String_discrete r.0.pending

  get_info-Counted :
      (c : ℕ) (s : CompilerInfoCache I) (d : ℕ) (key : Option String)
      → IsDistinct String_discrete s.pending
      → Counted c s (ite (ℕ_discrete d c) 1 0) (get_info s d key)
  unfolding get_info
  get_info-Counted c s d none u = record { count = omega arith; distinct = u }
  get_info-Counted c s d (some key) u = elim (Option-cases (get String_discrete key s.cache)) [
    | inr (i, e) ↦ rw (e, get_info) (record { count = omega arith; distinct = u })
    | inl e ↦ elim (Option-cases (get String_discrete key s.pending)) [
      | inl e' ↦
          rw (e, e', get_info)
            (record {
              count =
                  omega
                    (arith, sum_values-set_new String_discrete (times c) key (d ∷ []) s.pending e');
              distinct = set-IsDistinct String_discrete key (d ∷ []) s.pending u;
            })
      | inr (callers, e') ↦
          rw (e, e', get_info)
            (record {
              count = omega (
                arith,
                sum_values-set String_discrete (times c) key callers (callers ++ d ∷ []) s.pending
                    e',
                times-append c callers (d ∷ []),
              );
              distinct = set-IsDistinct String_discrete key (callers ++ d ∷ []) s.pending u;
            })
    ]
  ]

  on_computed-Counted :
      (c : ℕ) (s : CompilerInfoCache I) (key : String) (r : Option I)
      → IsDistinct String_discrete s.pending
      → Counted c s 0 (on_computed s key r)
  unfolding on_computed
  on_computed-Counted c s key r u = elim (Option-cases (get String_discrete key s.pending)) [
    | inl e ↦ rw (e, on_computed) (record { count = omega arith; distinct = u })
    | inr (callers, e) ↦
        rw (e, on_computed)
          (record {
            count = omega (
              arith,
              times_settled-answers c callers r,
              sum_values-delete String_discrete (times c) key callers s.pending u e,
            );
            distinct = delete-IsDistinct String_discrete key s.pending u;
          })
  ]

  run-Counted :
      (c : ℕ) (s : CompilerInfoCache I) (es : List (Event I))
      → IsDistinct String_discrete s.pending
      → Counted c s (times_asked c es) (run s es)
  unfolding run step
  run-Counted c s [] u = record { count = omega arith; distinct = u }
  run-Counted c s (asked d key ∷ es) u =
      let w = get_info-Counted c s d key u in
      let r = run-Counted c (get_info s d key).0 es w.distinct in
      record {
        count = omega (
          arith,
          w.count,
          r.count,
          times_settled-append c (get_info s d key).1 (run (get_info s d key).0 es).1,
        );
        distinct = r.distinct;
      }
  run-Counted c s (computed key i ∷ es) u =
      let w = on_computed-Counted c s key i u in
      let r = run-Counted c (on_computed s key i).0 es w.distinct in
      record {
        count = omega (
          arith,
          w.count,
          r.count,
          times_settled-append c (on_computed s key i).1 (run (on_computed s key i).0 es).1,
        );
        distinct = r.distinct;
      }

  -- Whatever is asked, and however the computations end: each call of `get` is either settled, once, or
  -- waits for a computation that has not ended.
  pub run-settles :
      (c : ℕ) (es : List (Event I))
      → times_settled c (run start es).1 + times_waiting c (run start es).0 ≡ times_asked c es
  run-settles c es = omega (arith, (run-Counted c start es tt).count)
