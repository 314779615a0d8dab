-- ===== src/Scheduler/Program.antt =====
-- src/scheduler/fisk-scheduler.ts: the scheduler's builders and compiles. A connection is known by an
-- identity; `connections` has every builder that was made, and `builders` those of the scheduler's
-- map, by "ip port". `assigned` is the variable `builder` of each compile's handlers, and `uploads`
-- has the compiles that were asked for their environment. What monitors and logs are sent is left
-- out. A utilization counts in millionths.
pub mod Compiles
pub mod Counts
pub mod Answers
pub mod Handlers
pub mod Assignment
pub mod Listed
pub mod Steps
pub mod Sums
pub mod Events
mod Examples
use fisk.Base.{
  ℕ, ◌+◌, ◌-◌, String, Bool, Option, none, some, List, ◌∷◌, ◌++◌, ℕ_discrete, ◌==◌, if◌then◌else◌,
  String_discrete, is_empty, take_out, push_new, [],
}
use fisk.OrderedMap.{OrderedMap, get, set, delete}
use fisk.Scheduler.Builder
use fisk.Scheduler.Builder.{Headers, builder_key, address, named}
use fisk.Scheduler.Environments.{Environment, Environments}
use fisk.Scheduler.Environments
use fisk.Scheduler.ObjectCacheManager
use fisk.Scheduler.ObjectCacheManager.{ObjectCacheManager, remove_node}
use fisk.Scheduler.Peak
use fisk.Scheduler.Sync.{Synced, sync_environments}

-- compareVersions(a, b) >= 1, of the package compare-versions, and the versions that it is used on.
pub record Versions : Type 0 where
  pub older : String → String → Bool
  pub scheduler : String
  pub client_minimum : String

pub record Scheduler : Type 0 where
  pub connections : OrderedMap ℕ Builder.Builder
  pub connected : List ℕ
  pub builders : OrderedMap String ℕ
  pub builder_count : ℕ
  pub active_jobs : ℕ
  pub capacity : ℕ
  pub jobs_failed : ℕ
  pub jobs_started : ℕ
  pub jobs_scheduled : ℕ
  pub jobs_finished : ℕ
  pub job_id : ℕ
  pub peaks : List Peak.Peak
  pub object_cache : Option ObjectCacheManager
  pub environments : Environments
  pub pending_environments : List String
  pub assigned : OrderedMap ℕ ℕ
  pub uploads : OrderedMap ℕ String

-- The scheduler as it starts, with the environments of the disk and its peaks.
unfoldable pub start : Environments → List Peak.Peak → Scheduler
start known peaks = record {
  connections = [];
  connected = [];
  builders = [];
  builder_count = 0;
  active_jobs = 0;
  capacity = 0;
  jobs_failed = 0;
  jobs_started = 0;
  jobs_scheduled = 0;
  jobs_finished = 0;
  job_id = 0;
  peaks = peaks;
  object_cache = none;
  environments = known;
  pending_environments = [];
  assigned = [];
  uploads = [];
}

-- What a compile is told: the job's id, where its builder is, and the environment to use there with
-- its extra arguments, if it is another one.
pub record Reply : Type 0 where
  pub id : ℕ
  pub ip : String
  pub hostname : String
  pub port : String
  pub environment : Option (String × List String)

pub data Sent : Type 0 where
  version_mismatch needs_environment no_builder : ℕ → Sent
  builder_found : ℕ → Reply → Sent
  drop_environments get_environments : ℕ → List String → Sent
  clear_object_cache : ℕ → Sent

-- nextJobId: the new value of jobId, and the id.
unfoldable pub next_job_id : ℕ → ℕ × ℕ
next_job_id job_id = (job_id + 1, if job_id + 1 == 2147483647 then 1 else job_id + 1)

abbrev pub put_builder : ℕ → Builder.Builder → Scheduler → Scheduler
put_builder id b s = record s { connections = set ℕ_discrete id b s.connections }

-- The "ip:port" of a builder.
unfoldable pub address_of : Scheduler → ℕ → String
address_of s id = elim (get ℕ_discrete id s.connections) [ none ↦ "" | some b ↦ address b ]

abbrev pub listed_if :
    ℕ → Option Builder.Builder → List (ℕ × Builder.Builder) → List (ℕ × Builder.Builder)
listed_if id none rest = rest
listed_if id (some b) rest = (id, b) ∷ rest

-- The builders of these identities.
unfoldable pub look_up : OrderedMap ℕ Builder.Builder → List ℕ → List (ℕ × Builder.Builder)
look_up m [] = []
look_up m (id ∷ ids) = listed_if id (get ℕ_discrete id m) (look_up m ids)

unfoldable pub values : OrderedMap String ℕ → List ℕ
values [] = []
values ((k, v) ∷ m) = v ∷ values m

abbrev pub told : ℕ → Synced → List Sent
told id y =
    (if is_empty y.unwanted then [] else drop_environments id y.unwanted ∷ [])
    ++ (if is_empty y.needs then [] else get_environments id y.needs ∷ [])

-- syncEnvironments(builder)
unfoldable pub sync_one : Scheduler → ℕ → Scheduler × List Sent
unfolding sync_environments
sync_one s id = elim (get ℕ_discrete id s.connections) [
  | none ↦ (s, [])
  | some b ↦
      let y = sync_environments s.environments.environments b in
      (put_builder id y.builder s, told id y)
]

-- syncEnvironments()
unfoldable pub sync_all : Scheduler → List ℕ → Scheduler × List Sent
unfolding sync_one
sync_all s [] = (s, [])
sync_all s (id ∷ ids) =
    let (s1, out) = sync_one s id in let (s2, out') = sync_all s1 ids in (s2, out ++ out')

unfoldable pub insert_builder : ℕ → Builder.Builder → Scheduler → Scheduler
unfolding builder_key
insert_builder id b s = record s {
  connections = set ℕ_discrete id b s.connections;
  connected = push_new ℕ_discrete id s.connected;
  builders = set String_discrete (builder_key b) id s.builders;
  builder_count = s.builder_count + 1;
  capacity = s.capacity + b.slots;
}

unfoldable pub remove_builder : ℕ → Builder.Builder → Scheduler → Scheduler
unfolding builder_key
remove_builder id b s = record s {
  connected = take_out ℕ_discrete id s.connected;
  builder_count = s.builder_count - 1;
  capacity = s.capacity - b.slots;
  builders = delete String_discrete (builder_key b) s.builders;
}

-- server.on("builder"): a builder with a version that is too old gets no handlers.
unfoldable pub on_builder : Versions → Scheduler → ℕ → Headers → Scheduler × List Sent
unfolding insert_builder
on_builder v s id h =
    if v.older v.scheduler h.npm_version
    then (s, version_mismatch id ∷ [])
    else sync_one (insert_builder id (Builder.create h) s) id

unfoldable pub with_cache : (ObjectCacheManager → ObjectCacheManager) → Scheduler → Scheduler
with_cache f s = elim s.object_cache [ none ↦ s | some m ↦ record s { object_cache = some (f m) } ]

-- builder.on("close")
unfoldable pub on_builder_close : Scheduler → ℕ → Builder.Builder → Scheduler
unfolding with_cache remove_builder
on_builder_close s id b = with_cache (λ m. remove_node (address_of s) m id) (remove_builder id b s)

-- builder.on("environments")
unfoldable pub on_environments :
    Scheduler → ℕ → Builder.Builder → List String → Scheduler × List Sent
unfolding named
on_environments s id b hashes =
    sync_one (put_builder id (record b { environments = named [] hashes }) s) id

unfoldable pub on_job_finished : Scheduler → ℕ → Builder.Builder → ℕ → ℕ → Scheduler
on_job_finished s id b compile_speed upload_speed =
    put_builder id
      (record b {
        jobs_performed = b.jobs_performed + 1;
        total_compile_speed = b.total_compile_speed + compile_speed;
        total_upload_speed = b.total_upload_speed + upload_speed;
      })
      (record s { jobs_finished = s.jobs_finished + 1 })

-- The last part of an upload is saved: the environment is known, and the builders hear of it. There is
-- no max-environment-size, so none is purged.
unfoldable pub on_uploaded : Scheduler → Environment → Scheduler × List Sent
unfolding sync_all
on_uploaded s env =
    let s' = record s {
      environments = Environments.complete s.environments env;
      pending_environments = take_out String_discrete env.hash s.pending_environments;
    } in
    sync_all s' (values s'.builders)
