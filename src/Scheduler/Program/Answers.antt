-- ===== src/Scheduler/Program/Answers.antt =====
-- src/scheduler/fisk-scheduler.ts: what a compile hears, and which counter it counts in.
use fisk.Base.{
  ℕ, ◌+◌, ◌≡◌, refl, inl, inr, ite, Bool, true, false, ◌||◌, List, ◌∷◌, arith, ℕ_discrete, ◌==◌,
  Bool-cases, Option-cases, String_discrete, length, is_empty, holds, [],
}
use fisk.Scheduler.Choice.{Compile}
use fisk.Scheduler.Environments.{compatible_environments, has_environment}
use fisk.Scheduler.Program.{Versions, Scheduler, Sent, builder_found}
use fisk.Scheduler.Program.Compiles.{
  schedule, find_builder, choice_for, on_compile, request_environment,
}

-- The compile is told of a builder.
abbrev pub is_found : ℕ → List Sent → Bool
is_found cid [] = false
is_found cid (builder_found id r ∷ out) = ite (ℕ_discrete id cid) true false || is_found cid out
is_found cid (e ∷ out) = is_found cid out

-- One message, after which the compile counts once, as failed or as scheduled.
pub record IsAnswered (cid : ℕ) (s : Scheduler) (r : Scheduler × List Sent) : Type 0 where
  pub once : length r.1 ≡ 1
  pub counted : r.0.jobs_failed + r.0.jobs_scheduled ≡ s.jobs_failed + s.jobs_scheduled + 1
  pub found : is_found cid r.1 ≡ (r.0.jobs_scheduled == s.jobs_scheduled + 1)

find_builder-IsAnswered :
    (s : Scheduler) (now cid : ℕ) (c : Compile) → IsAnswered cid s (find_builder s now cid c)
unfolding find_builder schedule
find_builder-IsAnswered s now cid c =
    elim (Bool-cases (is_empty (compatible_environments s.environments c.environment))) [
      | inl e ↦ rw (e) (record { once = refl; counted = omega arith; found = ground arith })
      | inr e ↦ rw (e) (elim (Option-cases (choice_for s c)) [
        | inl o ↦ rw (o) (record { once = refl; counted = omega arith; found = ground arith })
        | inr (k, o) ↦ rw (o) (record { once = refl; counted = omega arith; found = ground arith })
      ])
    ]

-- A compile that arrives is answered once, and counts once: as scheduled when the answer is a builder
-- for it, and as failed otherwise.
pub on_compile-IsAnswered :
    (v : Versions) (s : Scheduler) (now cid : ℕ) (c : Compile)
    → IsAnswered cid s (on_compile v s now cid c)
unfolding on_compile request_environment
on_compile-IsAnswered v s now cid c = elim (Bool-cases (v.older v.client_minimum c.npm_version)) [
  | inl e ↦ rw (e) (record { once = refl; counted = omega arith; found = ground arith })
  | inr e ↦ rw (e) (elim (Bool-cases (has_environment s.environments c.environment)) [
    | inl f ↦ rw (f) (find_builder-IsAnswered s now cid c)
    | inr f ↦
        rw (f) (elim (Bool-cases (holds String_discrete c.environment s.pending_environments)) [
          | inl g ↦ rw (g) (find_builder-IsAnswered s now cid c)
          | inr g ↦ rw (g) (record { once = refl; counted = omega arith; found = ground arith })
        ])
  ])
]
