-- ===== src/Scheduler/Program/Events.antt =====
-- src/scheduler/fisk-scheduler.ts: what reaches the scheduler, as the handlers of server.on("builder"),
-- server.on("compile") and of the object cache take it, one event at a time. A builder's events count
-- while it is connected; a new connection has an identity of its own. The transfers that the object
-- cache asks for are those of ObjectCacheManager/Distribute, and left out here.
use fisk.Base.{
  ℕ, ◌+◌, String, Bool, Option, none, some, List, ◌∷◌, ℕ_discrete, if◌then◌else◌, holds, [],
}
use fisk.OrderedMap.{get, has}
use fisk.Scheduler.Builder
use fisk.Scheduler.Builder.{Headers}
use fisk.Scheduler.Choice.{Compile}
use fisk.Scheduler.Environments.{Environment}
use fisk.Scheduler.ObjectCacheManager
use fisk.Scheduler.ObjectCacheManager.{ObjectCacheManager, Message, add_node, remove, clear}
use fisk.Scheduler.ObjectCacheManager.Events
use fisk.Scheduler.Program.{
  Versions, Scheduler, Sent, put_builder, address_of, with_cache, on_builder, on_builder_close,
  on_environments, on_job_finished, on_uploaded, clear_object_cache, values,
}
use fisk.Scheduler.Program.Compiles.{on_compile, on_compile_error, on_compile_close}

-- What a connected builder sends.
pub data BuilderEvent : Type 0 where
  closed : BuilderEvent
  environments : List String → BuilderEvent
  load : ℕ → BuilderEvent
  job_started : BuilderEvent
  job_finished : ℕ → ℕ → BuilderEvent
  cache_hit : String → BuilderEvent
  object_cache : ℕ → ℕ → List (String × ℕ) → BuilderEvent
  object_cache_added object_cache_removed : Message → BuilderEvent

pub data Event : Type 0 where
  builder_arrived : ℕ → Headers → Event
  from_builder : ℕ → BuilderEvent → Event
  compile_arrived : ℕ → ℕ → Compile → Event
  compile_failed compile_closed : ℕ → Event
  uploaded : Environment → Event
  object_cache_enabled : Bool → Bool → ℕ → Event
  object_cache_disabled object_cache_cleared : Event

unfoldable pub on_builder_event :
    Scheduler → ℕ → Builder.Builder → BuilderEvent → Scheduler × List Sent
unfolding on_builder_close on_environments on_job_finished with_cache
on_builder_event s id b closed = (on_builder_close s id b, [])
on_builder_event s id b (environments hashes) = on_environments s id b hashes
on_builder_event s id b (load measure) = (put_builder id (record b { load = measure }) s, [])
on_builder_event s id b job_started = (record s { jobs_started = s.jobs_started + 1 }, [])
on_builder_event s id b (job_finished compile_speed upload_speed) =
    (on_job_finished s id b compile_speed upload_speed, [])
on_builder_event s id b (cache_hit sha1) =
    (with_cache (λ m. Events.hit (address_of s) m sha1) s, [])
on_builder_event s id b (object_cache cache_size max_size sha1s) =
    (with_cache (λ m. add_node m id cache_size max_size sha1s) s, [])
on_builder_event s id b (object_cache_added msg) =
    (with_cache (λ m. Events.insert (address_of s) m msg id) s, [])
on_builder_event s id b (object_cache_removed msg) = (with_cache (λ m. remove m msg id) s, [])

abbrev clear_messages : List ℕ → List Sent
clear_messages [] = []
clear_messages (id ∷ ids) = clear_object_cache id ∷ clear_messages ids

-- onObjectCacheCleared
unfoldable pub on_cleared : Scheduler → Scheduler × List Sent
unfolding values
on_cleared s = (
  record s { jobs_failed = 0; jobs_started = 0; jobs_scheduled = 0; jobs_finished = 0 },
  clear_messages (values s.builders),
)

-- setObjectCacheEnabled(true), with the options of the new manager, and setObjectCacheEnabled(false).
unfoldable pub enable_object_cache : Option ObjectCacheManager → Scheduler → Scheduler
enable_object_cache none s = record s { object_cache = none }
enable_object_cache (some fresh) s = elim s.object_cache [
  | none ↦ record s { object_cache = some fresh }
  | some m ↦ s
]

unfoldable pub step : Versions → Scheduler → Event → Scheduler × List Sent
unfolding on_builder on_builder_event on_compile on_compile_error on_compile_close on_uploaded
    on_cleared enable_object_cache
step v s (builder_arrived id h) =
    if has ℕ_discrete id s.connections then (s, []) else on_builder v s id h
step v s (from_builder id e) =
    if holds ℕ_discrete id s.connected
    then elim (get ℕ_discrete id s.connections) [
      | none ↦ (s, [])
      | some b ↦ on_builder_event s id b e
    ]
    else (s, [])
step v s (compile_arrived cid now c) =
    if has ℕ_discrete cid s.assigned then (s, []) else on_compile v s now cid c
step v s (compile_failed cid) = (on_compile_error s cid, [])
step v s (compile_closed cid) = (on_compile_close s cid, [])
step v s (uploaded env) = on_uploaded s env
step v s (object_cache_enabled on_insertion on_cache_hit redundancy) = (
  enable_object_cache (some (ObjectCacheManager.create on_insertion on_cache_hit redundancy)) s,
  [],
)
step v s object_cache_disabled = (enable_object_cache none s, [])
step v s object_cache_cleared = elim s.object_cache [
  | none ↦ (s, [])
  | some m ↦ on_cleared (with_cache clear s)
]

unfoldable pub run : Versions → Scheduler → List Event → Scheduler
unfolding step
run v s [] = s
run v s (e ∷ es) = run v (step v s e).0 es
