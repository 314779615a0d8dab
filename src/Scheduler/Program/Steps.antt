-- ===== src/Scheduler/Program/Steps.antt =====
-- src/scheduler/fisk-scheduler.ts: every handler keeps the numbers true.
use fisk.Base.{
  ℕ, ◌≡◌, refl, inl, inr, true, none, some, List, ◌∷◌, ℕ_discrete, Bool-cases, Option-cases,
  String_discrete, is_empty, holds, [],
}
use fisk.OrderedMap.{get}
use fisk.Scheduler.Builder
use fisk.Scheduler.Builder.{Headers, named}
use fisk.Scheduler.Choice.{Compile, Choice}
use fisk.Scheduler.Choice.Best.{choose-IsOneOf}
use fisk.Scheduler.Environments.{Environments, compatible_environments, has_environment}
use fisk.Scheduler.ObjectCacheManager.{ObjectCacheManager}
use fisk.Scheduler.Peak.{Peak}
use fisk.Scheduler.Sync.{sync_environments}
use fisk.Scheduler.Program.{
  Versions, Scheduler, start, put_builder, with_cache, on_builder, on_builder_close,
  on_environments, on_job_finished, on_uploaded, values, sync_one, sync_all, insert_builder,
  remove_builder, look_up,
}
use fisk.Scheduler.Program.Compiles.{
  on_compile, on_compile_error, on_compile_close, schedule, find_builder, choice_for, cached_nodes,
  let_go, give_up, request_environment,
}
use fisk.Scheduler.Program.Events.{
  BuilderEvent, closed, environments, load, job_started, job_finished, cache_hit, object_cache,
  object_cache_added, object_cache_removed, Event, on_builder_event, step, run, on_cleared,
  enable_object_cache, builder_arrived, from_builder, compile_arrived, compile_failed,
  compile_closed, uploaded, object_cache_enabled, object_cache_disabled, object_cache_cleared,
}
use fisk.Scheduler.Program.Counts.{
  IsCounted, put-Counts, insert-Counts, remove-Counts, assign-Counts, release-Counts,
}
use fisk.Scheduler.Program.Sums.{look_up-IsOneOf}

sync_one-IsCounted : (s : Scheduler) (id : ℕ) → IsCounted s → IsCounted (sync_one s id).0
unfolding sync_one sync_environments
sync_one-IsCounted s id w = elim (Option-cases (get ℕ_discrete id s.connections)) [
  | inl e ↦ rw (e, sync_one) w
  | inr (b, e) ↦ rw (e, sync_one) (put-Counts w id b _ e refl refl)
]

sync_all-IsCounted : (s : Scheduler) (ids : List ℕ) → IsCounted s → IsCounted (sync_all s ids).0
unfolding sync_all
sync_all-IsCounted s [] w = w
sync_all-IsCounted s (id ∷ ids) w =
    sync_all-IsCounted (sync_one s id).0 ids (sync_one-IsCounted s id w)

with_cache-IsCounted :
    (f : ObjectCacheManager → ObjectCacheManager) (s : Scheduler)
    → IsCounted s
    → IsCounted (with_cache f s)
unfolding with_cache
with_cache-IsCounted f s w = elim (Option-cases s.object_cache) [
  | inl e ↦ rw (e) w
  | inr (m, e) ↦ rw (e) w
]

on_builder-IsCounted :
    (v : Versions) (s : Scheduler) (id : ℕ) (h : Headers)
    → get ℕ_discrete id s.connections ≡ none
    → IsCounted s
    → IsCounted (on_builder v s id h).0
unfolding on_builder insert_builder Builder.create
on_builder-IsCounted v s id h fresh w = elim (Bool-cases (v.older v.scheduler h.npm_version)) [
  | inl e ↦ rw (e) w
  | inr e ↦ rw (e) (
      sync_one-IsCounted (insert_builder id (Builder.create h) s) id
        (insert-Counts w id (Builder.create h) fresh refl))
]

on_builder_event-IsCounted :
    (s : Scheduler) (id : ℕ) (b : Builder.Builder) (e : BuilderEvent)
    → get ℕ_discrete id s.connections ≡ some b
    → holds ℕ_discrete id s.connected ≡ true
    → IsCounted s
    → IsCounted (on_builder_event s id b e).0
unfolding on_builder_event on_builder_close remove_builder on_environments on_job_finished
on_builder_event-IsCounted s id b closed here in_use w =
    with_cache-IsCounted _ (remove_builder id b s) (remove-Counts w id b here in_use)
on_builder_event-IsCounted s id b (environments hashes) here in_use w =
    sync_one-IsCounted (put_builder id (record b { environments = named [] hashes }) s) id
      (put-Counts w id b _ here refl refl)
on_builder_event-IsCounted s id b (load measure) here in_use w = put-Counts w id b _ here refl refl
on_builder_event-IsCounted s id b job_started here in_use w = w
on_builder_event-IsCounted s id b (job_finished x y) here in_use w =
    put-Counts w id b _ here refl refl
on_builder_event-IsCounted s id b (cache_hit sha1) here in_use w = with_cache-IsCounted _ s w
on_builder_event-IsCounted s id b (object_cache x y l) here in_use w = with_cache-IsCounted _ s w
on_builder_event-IsCounted s id b (object_cache_added msg) here in_use w =
    with_cache-IsCounted _ s w
on_builder_event-IsCounted s id b (object_cache_removed msg) here in_use w =
    with_cache-IsCounted _ s w

-- The chosen builder is the one of its identity.
pub choice_for-known :
    (s : Scheduler) (c : Compile) (k : Choice)
    → choice_for s c ≡ some k
    → get ℕ_discrete k.id s.connections ≡ some k.builder
unfolding choice_for
choice_for-known s c k h =
    elim (choose-IsOneOf c (compatible_environments s.environments c.environment)
      (look_up s.connections (cached_nodes s c)) (look_up s.connections (values s.builders)) k h) [
        | inl one ↦ look_up-IsOneOf s.connections (cached_nodes s c) k one
        | inr one ↦ look_up-IsOneOf s.connections (values s.builders) k one
      ]

schedule-IsCounted :
    (s : Scheduler) (now cid : ℕ) (c : Compile) (k : Choice)
    → get ℕ_discrete cid s.assigned ≡ none
    → get ℕ_discrete k.id s.connections ≡ some k.builder
    → IsCounted s
    → IsCounted (schedule s now cid c k).0
unfolding schedule
schedule-IsCounted s now cid c k fresh here w =
    assign-Counts w cid k.id k.builder _ fresh here refl refl

find_builder-IsCounted :
    (s : Scheduler) (now cid : ℕ) (c : Compile)
    → get ℕ_discrete cid s.assigned ≡ none
    → IsCounted s
    → IsCounted (find_builder s now cid c).0
unfolding find_builder
find_builder-IsCounted s now cid c fresh w =
    elim (Bool-cases (is_empty (compatible_environments s.environments c.environment))) [
      | inl e ↦ rw (e) w
      | inr e ↦ rw (e) (elim (Option-cases (choice_for s c)) [
        | inl o ↦ rw (o) w
        | inr (k, o) ↦ rw (o) (schedule-IsCounted s now cid c k fresh (choice_for-known s c k o) w)
      ])
    ]

on_compile-IsCounted :
    (v : Versions) (s : Scheduler) (now cid : ℕ) (c : Compile)
    → get ℕ_discrete cid s.assigned ≡ none
    → IsCounted s
    → IsCounted (on_compile v s now cid c).0
unfolding on_compile request_environment
on_compile-IsCounted v s now cid c fresh w =
    elim (Bool-cases (v.older v.client_minimum c.npm_version)) [
      | inl e ↦ rw (e) w
      | inr e ↦ rw (e) (elim (Bool-cases (has_environment s.environments c.environment)) [
        | inl f ↦ rw (f) (find_builder-IsCounted s now cid c fresh w)
        | inr f ↦
            rw (f) (elim (Bool-cases (holds String_discrete c.environment s.pending_environments)) [
              | inl g ↦ rw (g) (find_builder-IsCounted s now cid c fresh w)
              | inr g ↦ rw (g) w
            ])
      ])
    ]

let_go-IsCounted : (s : Scheduler) (cid : ℕ) → IsCounted s → IsCounted (let_go s cid)
unfolding let_go
let_go-IsCounted s cid w = elim (Option-cases (get ℕ_discrete cid s.assigned)) [
  | inl e ↦ rw (e, let_go) w
  | inr (id, e) ↦
      rw (e, let_go)
        (elim (Option-cases (get ℕ_discrete id s.connections)) [
          | inl f ↦ rw (f, let_go) w
          | inr (b, f) ↦ rw (f, let_go) (release-Counts w cid id b _ e f refl refl)
        ])
]

give_up-IsCounted : (s : Scheduler) (cid : ℕ) → IsCounted s → IsCounted (give_up s cid)
unfolding give_up
give_up-IsCounted s cid w = elim (Option-cases (get ℕ_discrete cid s.uploads)) [
  | inl e ↦ rw (e, give_up) w
  | inr (env, e) ↦ rw (e, give_up) w
]

pub step-IsCounted :
    (v : Versions) (s : Scheduler) (e : Event) → IsCounted s → IsCounted (step v s e).0
unfolding step on_compile_error on_compile_close on_uploaded on_cleared enable_object_cache
    with_cache
step-IsCounted v s (builder_arrived id h) w =
    elim (Option-cases (get ℕ_discrete id s.connections)) [
      | inl e ↦ rw (e) (on_builder-IsCounted v s id h e w)
      | inr (b, e) ↦ rw (e) w
    ]
step-IsCounted v s (from_builder id event) w = elim (Bool-cases (holds ℕ_discrete id s.connected)) [
  | inr f ↦ rw (f) w
  | inl f ↦ rw (f) (elim (Option-cases (get ℕ_discrete id s.connections)) [
    | inl e ↦ rw (e) w
    | inr (b, e) ↦ rw (e) (on_builder_event-IsCounted s id b event e f w)
  ])
]
step-IsCounted v s (compile_arrived cid now c) w =
    elim (Option-cases (get ℕ_discrete cid s.assigned)) [
      | inl e ↦ rw (e) (on_compile-IsCounted v s now cid c e w)
      | inr (b, e) ↦ rw (e) w
    ]
step-IsCounted v s (compile_failed cid) w =
    give_up-IsCounted (let_go s cid) cid (let_go-IsCounted s cid w)
step-IsCounted v s (compile_closed cid) w =
    give_up-IsCounted (let_go s cid) cid (let_go-IsCounted s cid w)
step-IsCounted v s (uploaded env) w = sync_all-IsCounted _ (values s.builders) w
step-IsCounted v s (object_cache_enabled x y n) w = elim (Option-cases s.object_cache) [
  | inl e ↦ rw (e) w
  | inr (m, e) ↦ rw (e) w
]
step-IsCounted v s object_cache_disabled w = w
step-IsCounted v s object_cache_cleared w = elim (Option-cases s.object_cache) [
  | inl e ↦ rw (e) w
  | inr (m, e) ↦ rw (e) w
]

pub run-IsCounted-from :
    (v : Versions) (s : Scheduler) (es : List Event) → IsCounted s → IsCounted (run v s es)
unfolding run
run-IsCounted-from v s [] w = w
run-IsCounted-from v s (e ∷ es) w = run-IsCounted-from v (step v s e).0 es (step-IsCounted v s e w)

-- Whatever reaches the scheduler from its start on, its numbers are true: `builderCount` is the number
-- of the connected builders and `capacity` the sum of their slots, `activeJobs` is the number of the
-- compiles that have a builder, and each builder's `activeClients` is the number of those that have it.
pub run-IsCounted :
    (v : Versions) (known : Environments) (peaks : List Peak) (es : List Event)
    → IsCounted (run v (start known peaks) es)
unfolding start get
run-IsCounted v known peaks es = run-IsCounted-from v (start known peaks) es (record {
  builders = refl;
  slots = refl;
  jobs = refl;
  clients = λ id. refl;
  distinct = tt;
  unrepeated = tt;
  known = λ id h. refl;
})
