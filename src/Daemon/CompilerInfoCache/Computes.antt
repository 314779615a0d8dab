-- ===== src/Daemon/CompilerInfoCache/Computes.antt =====
-- How often a compiler is probed.
use fisk.Base.{
  ℕ, ◌+◌, ◌≤◌, ◌≡◌, refl, String, ite, Option, none, some, List, [], ◌∷◌, ◌++◌, arith,
  String_discrete, Option-cases, inl, inr, if◌then◌else◌, ◌||◌,
}
use fisk.OrderedMap.{get, has, is_some}
use fisk.OrderedMap.Laws.{get-set, get-delete}
use fisk.Daemon.CompilerInfoCache.{
  Effect, computes, resolved, rejected, CompilerInfoCache, Event, asked, computed, start, get_info,
  answers, remember, on_computed, step, run,
}

module _ {I : Type 0} where
  -- How often the computation of a key was started, and how often it failed.
  abbrev pub times_computed : String → List (Effect I) → ℕ
  times_computed key [] = 0
  times_computed key (computes k ∷ out) = ite (String_discrete k key) 1 0 + times_computed key out
  times_computed key (resolved d info ∷ out) = times_computed key out
  times_computed key (rejected d ∷ out) = times_computed key out

  abbrev pub times_failed : String → List (Event I) → ℕ
  times_failed key [] = 0
  times_failed key (asked d k ∷ es) = times_failed key es
  times_failed key (computed k none ∷ es) = ite (String_discrete k key) 1 0 + times_failed key es
  times_failed key (computed k (some i) ∷ es) = times_failed key es

  -- A key that is neither cached nor computed may be computed once before one of its computations fails.
  abbrev chances : String → CompilerInfoCache I → ℕ
  chances key s =
      if has String_discrete key s.cache || has String_discrete key s.pending then 0 else 1

  times_computed-append :
      (key : String) (xs ys : List (Effect I))
      → times_computed key (xs ++ ys) ≡ times_computed key xs + times_computed key ys
  times_computed-append key [] ys = omega arith
  times_computed-append key (computes k ∷ xs) ys = omega (arith, times_computed-append key xs ys)
  times_computed-append key (resolved d i ∷ xs) ys = times_computed-append key xs ys
  times_computed-append key (rejected d ∷ xs) ys = times_computed-append key xs ys

  times_computed-answers :
      (key : String) (callers : List ℕ) (r : Option I) → times_computed key (answers callers r) ≡ 0
  unfolding answers
  times_computed-answers key [] none = refl
  times_computed-answers key [] (some i) = refl
  times_computed-answers key (d ∷ ds) none = times_computed-answers key ds none
  times_computed-answers key (d ∷ ds) (some i) = times_computed-answers key ds (some i)

  get_info-chances :
      (key : String) (s : CompilerInfoCache I) (d : ℕ) (k : Option String)
      → times_computed key (get_info s d k).1 + chances key (get_info s d k).0 ≤ chances key s
  unfolding get_info
  get_info-chances key s d none = omega arith
  get_info-chances key s d (some k) = elim (Option-cases (get String_discrete k s.cache)) [
    | inr (i, e) ↦ rw (e, get_info) (omega arith)
    | inl e ↦ elim (Option-cases (get String_discrete k s.pending)) [
      | inl e' ↦
          rw (e, e', get_info, get-set String_discrete k key (d ∷ []) s.pending)
            (ground (arith, e, e'))
      | inr (callers, e') ↦
          rw (e, e', get_info, get-set String_discrete k key (callers ++ d ∷ []) s.pending)
            (ground (arith, e, e'))
    ]
  ]

  ended-chances :
      (key : String) (s : CompilerInfoCache I) (k : String) (callers : List ℕ) (r : Option I)
      → get String_discrete k s.pending ≡ some callers
      → 0
          + (if is_some (get String_discrete key (remember k r s.cache))
                || is_some (ite (String_discrete k key) none (get String_discrete key s.pending))
              then 0
              else 1)
        ≤ times_failed key (computed k r ∷ []) + chances key s
  unfolding remember
  ended-chances key s k callers none e = ground (arith, e)
  ended-chances key s k callers (some i) e =
      rw (get-set String_discrete k key i s.cache) (ground (arith, e))

  on_computed-chances :
      (key : String) (s : CompilerInfoCache I) (k : String) (r : Option I)
      → times_computed key (on_computed s k r).1 + chances key (on_computed s k r).0
        ≤ times_failed key (computed k r ∷ []) + chances key s
  unfolding on_computed remember
  on_computed-chances key s k r = elim (Option-cases (get String_discrete k s.pending)) [
    | inl e ↦ rw (e, on_computed) (omega arith)
    | inr (callers, e) ↦
        rw
          (
            e,
            on_computed,
            times_computed-answers key callers r,
            get-delete String_discrete k key s.pending,
          )
          (ended-chances key s k callers r e)
  ]

  run-chances :
      (key : String) (s : CompilerInfoCache I) (es : List (Event I))
      → times_computed key (run s es).1 ≤ chances key s + times_failed key es
  unfolding run step
  run-chances key s [] = omega arith
  run-chances key s (asked d k ∷ es) = omega (
    arith,
    get_info-chances key s d k,
    run-chances key (get_info s d k).0 es,
    times_computed-append key (get_info s d k).1 (run (get_info s d k).0 es).1,
  )
  run-chances key s (computed k none ∷ es) = omega (
    arith,
    on_computed-chances key s k none,
    run-chances key (on_computed s k none).0 es,
    times_computed-append key (on_computed s k none).1 (run (on_computed s k none).0 es).1,
  )
  run-chances key s (computed k (some i) ∷ es) = omega (
    arith,
    on_computed-chances key s k (some i),
    run-chances key (on_computed s k (some i)).0 es,
    times_computed-append key (on_computed s k (some i)).1 (run (on_computed s k (some i)).0 es).1,
  )

  -- Whatever is asked, and however the computations end, a key is computed at most once more often
  -- than its computations fail: one compiler is not probed twice at a time, nor again once it is known.
  pub run-computes_once :
      (key : String) (es : List (Event I))
      → times_computed key (run start es).1 ≤ 1 + times_failed key es
  unfolding get
  run-computes_once key es = run-chances key start es
