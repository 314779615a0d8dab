-- ===== src/Scheduler/Purge/Size.antt =====
-- Which environments of the directory stay, and which are removed.
use fisk.Base.{
  ℕ, ◌+◌, ◌-◌, ◌≤◌, ◌<◌, ◌≡◌, refl, ◌==◌, List, [], ◌∷◌, arith, leb, Bool-cases, inl, inr, is_empty,
  not,
}
use fisk.Scheduler.Purge.Listed.{Lists, env_infos-Lists}
use fisk.Scheduler.Purge.{EnvInfo, EnvFile, env_infos, fit, purge_environments}

abbrev pub total_size : List EnvInfo → ℕ
total_size [] = 0
total_size (e ∷ es) = e.size + total_size es

-- Each of these is too large to stay beside the others.
abbrev pub NoneFits : ℕ → List EnvInfo → Type 0
NoneFits room [] = Unit {0}
NoneFits room (e ∷ es) = (room < e.size) × NoneFits room es

-- The first two lists together are the third, and each is in its order.
pub data Splits : List EnvInfo → List EnvInfo → List EnvInfo → Type 0 where
  all_split : Splits [] [] []
  stays : (e : EnvInfo) (ks rs es : List EnvInfo) → Splits ks rs es → Splits (e ∷ ks) rs (e ∷ es)
  goes : (e : EnvInfo) (ks rs es : List EnvInfo) → Splits ks rs es → Splits ks (e ∷ rs) (e ∷ es)

pub record IsFit (max_size : ℕ) (envs : List EnvInfo) (r : List EnvInfo × List EnvInfo)
    : Type 0 where
  pub within : total_size r.0 ≤ max_size
  pub complete : Splits r.0 r.1 envs
  pub tight : NoneFits (max_size - total_size r.0) r.1

NoneFits-less :
    (room less : ℕ) (es : List EnvInfo) → less ≤ room → NoneFits room es → NoneFits less es
NoneFits-less room less [] le h = tt
NoneFits-less room less (e ∷ es) le h = (omega (arith, le, h.0), NoneFits-less room less es le h.1)

fit-IsFit : (max_size : ℕ) (envs : List EnvInfo) → IsFit max_size envs (fit max_size envs)
unfolding fit
fit-IsFit max_size [] = record { within = omega arith; complete = all_split; tight = tt }
fit-IsFit max_size (e ∷ es) =
    let kept = fit-IsFit (max_size - e.size) es in
    let removed = fit-IsFit max_size es in
    elim (Bool-cases (leb e.size max_size)) [
      | inl fits ↦
          rw (fits, fit)
            (record {
              within = ground (arith, fits, kept.within);
              complete = stays e _ _ es kept.complete;
              tight =
                  NoneFits-less _ (max_size - (e.size + total_size (fit (max_size - e.size) es).0))
                    _ (omega arith) kept.tight;
            })
      | inr not_fits ↦
          rw (not_fits, fit)
            (record {
              within = removed.within;
              complete = goes e _ _ es removed.complete;
              tight = (ground (arith, not_fits), removed.tight);
            })
    ]

-- When there is a maximum: the environments that are listed are those files whose names are 40
-- characters and ".tar.gz" and that stat finds, each with these characters as its hash, its size and
-- its time of birth; those that stay and those that are removed are together all of these, both in the
-- order of the sort; what stays is within the maximum, no environment that is removed would fit beside
-- it, and the answer says whether any was removed.
pub purge_environments-IsFit :
    (sort : List EnvInfo → List EnvInfo) (max_size : ℕ) (files : List EnvFile)
    → 0 < max_size
    → Lists files (env_infos files)
      × IsFit max_size (sort (env_infos files)) (
        (purge_environments sort max_size files).0.kept,
        (purge_environments sort max_size files).0.removed,
      )
      × ((purge_environments sort max_size files).1
          ≡ not (is_empty (purge_environments sort max_size files).0.removed))
unfolding purge_environments
purge_environments-IsFit sort max_size files some_room = elim (Bool-cases (max_size == 0)) [
  | inl e ↦ absurd (ground (arith, e, some_room))
  | inr e ↦
      rw (e, purge_environments)
        (env_infos-Lists files, fit-IsFit max_size (sort (env_infos files)), refl)
]
