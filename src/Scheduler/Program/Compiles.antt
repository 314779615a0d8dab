-- ===== src/Scheduler/Program/Compiles.antt =====
-- src/scheduler/fisk-scheduler.ts: the handlers of a compile: the search for its builder, the job that
-- the builder gets, the request of an unknown environment, and the compile's end.
use fisk.Base.{
  ℕ, ◌+◌, ◌-◌, ◌*◌, ◌/◌, String, ite, Option, none, some, List, ◌∷◌, ◌++◌, ℕ_discrete,
  if◌then◌else◌, String_discrete, is_empty, holds, take_out, [],
}
use fisk.OrderedMap.{get, set, delete}
use fisk.Scheduler.Choice.{Compile, Choice, choose}
use fisk.Scheduler.Environments.{compatible_environments, has_environment, extra_args}
use fisk.Scheduler.ObjectCacheManager.Maps.{nodes_for}
use fisk.Scheduler.Peak
use fisk.Scheduler.Peak.{record_sample}
use fisk.Scheduler.Program.{
  Versions, Scheduler, Sent, next_job_id, look_up, values, builder_found, no_builder,
  version_mismatch, needs_environment,
}

unfoldable pub record_all : ℕ → ℕ → ℕ → List Peak.Peak → List Peak.Peak
record_all now active_jobs utilization [] = []
record_all now active_jobs utilization (p ∷ ps) =
    (record_sample p now active_jobs utilization).0 ∷ record_all now active_jobs utilization ps

-- The environment that the compile must use, if it is not its own.
unfoldable pub other_environment : Scheduler → Compile → String → Option (String × List String)
unfolding extra_args
other_environment s c env =
    ite (String_discrete env c.environment) none
      (some (env, extra_args s.environments c.environment env))

-- The end of the "compile" handler: the chosen builder gets the job.
unfoldable pub schedule : Scheduler → ℕ → ℕ → Compile → Choice → Scheduler × List Sent
unfolding other_environment next_job_id record_all
schedule s now cid c k =
    let active = s.active_jobs + 1 in
    let b = k.builder in
    let (job_id, id) = next_job_id s.job_id in
    (
      record s {
        active_jobs = active;
        peaks = record_all now active (active * 1000000 / s.capacity) s.peaks;
        connections =
            set ℕ_discrete k.id
              (record b {
                active_clients = b.active_clients + 1;
                jobs_scheduled = b.jobs_scheduled + 1;
                last_job = now;
              })
              s.connections;
        job_id = job_id;
        jobs_scheduled = s.jobs_scheduled + 1;
        assigned = set ℕ_discrete cid k.id s.assigned;
      },
      builder_found cid (record {
        id = id;
        ip = b.ip;
        hostname = b.hostname;
        port = b.port;
        environment = other_environment s c k.env;
      })
          ∷ [],
    )

abbrev pub failed : Scheduler → Scheduler
failed s = record s { jobs_failed = s.jobs_failed + 1 }

-- data.nodes of the object cache, if it is on and the compile has a sha1.
unfoldable pub cached_nodes : Scheduler → Compile → List ℕ
cached_nodes s c = elim s.object_cache [
  | none ↦ []
  | some m ↦ elim c.sha1 [ none ↦ [] | some sha1 ↦ nodes_for m.by_sha1 sha1 ]
]

unfoldable pub choice_for : Scheduler → Compile → Option Choice
unfolding cached_nodes look_up values
choice_for s c =
    choose c (compatible_environments s.environments c.environment)
      (look_up s.connections (cached_nodes s c)) (look_up s.connections (values s.builders))

-- requestEnvironment, which is false when the environment is on its way already.
unfoldable pub request_environment : Scheduler → ℕ → String → Option Scheduler
request_environment s cid env =
    if holds String_discrete env s.pending_environments
    then none
    else some (record s {
      pending_environments = s.pending_environments ++ env ∷ [];
      uploads = set ℕ_discrete cid env s.uploads;
    })

-- The search for a builder, when the environment was not asked for.
unfoldable pub find_builder : Scheduler → ℕ → ℕ → Compile → Scheduler × List Sent
unfolding choice_for schedule
find_builder s now cid c =
    if is_empty (compatible_environments s.environments c.environment)
    then (failed s, no_builder cid ∷ [])
    else elim (choice_for s c) [
      | none ↦ (failed s, no_builder cid ∷ [])
      | some k ↦ schedule s now cid c k
    ]

-- server.on("compile")
unfoldable pub on_compile : Versions → Scheduler → ℕ → ℕ → Compile → Scheduler × List Sent
unfolding find_builder request_environment
on_compile v s now cid c =
    if v.older v.client_minimum c.npm_version
    then (failed s, version_mismatch cid ∷ [])
    else if has_environment s.environments c.environment
    then find_builder s now cid c
    else elim (request_environment s cid c.environment) [
      | none ↦ find_builder s now cid c
      | some s' ↦ (failed s', needs_environment cid ∷ [])
    ]

-- `if (builder) { --builder.activeClients; --activeJobs; builder = undefined; }`
unfoldable pub let_go : Scheduler → ℕ → Scheduler
let_go s cid = elim (get ℕ_discrete cid s.assigned) [
  | none ↦ s
  | some id ↦ elim (get ℕ_discrete id s.connections) [
    | none ↦ s
    | some b ↦ record s {
      connections =
          set ℕ_discrete id (record b { active_clients = b.active_clients - 1 }) s.connections;
      active_jobs = s.active_jobs - 1;
      assigned = delete ℕ_discrete cid s.assigned;
    }
  ]
]

-- `delete pendingEnvironments[compile.environment]`
unfoldable pub give_up : Scheduler → ℕ → Scheduler
give_up s cid = elim (get ℕ_discrete cid s.uploads) [
  | none ↦ s
  | some env ↦ record s {
    pending_environments = take_out String_discrete env s.pending_environments;
  }
]

-- compile.on("error")
unfoldable pub on_compile_error : Scheduler → ℕ → Scheduler
unfolding let_go give_up
on_compile_error s cid = give_up (let_go s cid) cid

-- compile.on("close"), after which the compile has no handlers.
unfoldable pub on_compile_close : Scheduler → ℕ → Scheduler
unfolding on_compile_error
on_compile_close s cid =
    let s' = on_compile_error s cid in record s' { uploads = delete ℕ_discrete cid s'.uploads }
