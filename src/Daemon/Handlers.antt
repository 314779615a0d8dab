-- ===== src/Daemon/Handlers.antt =====
-- src/daemon/fisk-daemon.ts: the handlers of a client's connection over the three slot pools. A
-- connection is known by its `id`; its handlers' variables (requestedCppSlot and so on) are a `Conn`.
-- A failed `assert` of a handler is `exited`: the slots' events come as one byte each, and what their
-- handlers throw ends the process by the uncaughtException handler. A JSON message of such a type,
-- which fisk's clients do not send, is left out: there the decoder catches what is thrown and destroys
-- the connection. What the decoder itself throws for an unexpected byte is in Compile.
-- Load averages are counted in the kernel's units of 1/65536. Log lines are left out.
pub mod Pools
pub mod Invariant
pub mod Steps
pub mod Protocol
mod Examples
use fisk.Base.{
  ℕ, String, ite, Bool, true, false, ◌&&◌, Option, none, some, List, [], ◌∷◌, ◌++◌, map, ℕ_discrete,
  ltb, leb, if◌then◌else◌, String_discrete,
}
use fisk.OrderedMap.{OrderedMap, get, set}
use fisk.Daemon.Constants
use fisk.Daemon.Slots
use fisk.Daemon.Slots.{Slots, Event, changed, called, Outcome, done, assertion_failed, active}

-- What compilerInfoCache answers: the compiler's info, or the text of the error.
pub record CompilerInfoResult : Type 0 where
  pub info : Option String
  pub error : Option String

-- The callbacks that wait in a pool.
pub data Call : Type 0 where
  send_cpp_acquired send_compile_acquired : ℕ → Call
  respond_cpp : ℕ → CompilerInfoResult → Call

pub record Conn : Type 0 where
  pub pid : ℕ
  pub requested_cpp_slot : Bool
  pub requested_local_slot : Bool
  pub requested_compile_slot : Bool
  pub compile_closed : Bool

pub record Daemon : Type 0 where
  pub cpp_slots : Slots Call
  pub compile_slots : Slots Call
  pub local_slots : Slots Call
  pub max_load : ℕ
  pub conns : OrderedMap ℕ Conn
  pub slot_subscribers : List ℕ

pub data PoolName : Type 0 where
  cpp compile local : PoolName

unfoldable pub pool : PoolName → Daemon → Slots Call
pool cpp d = d.cpp_slots
pool compile d = d.compile_slots
pool local d = d.local_slots

unfoldable pub with_pool : PoolName → Slots Call → Daemon → Daemon
with_pool cpp s d = record d { cpp_slots = s }
with_pool compile s d = record d { compile_slots = s }
with_pool local s d = record d { local_slots = s }

unfoldable pub requested : PoolName → Conn → Bool
requested cpp c = c.requested_cpp_slot
requested compile c = c.requested_compile_slot
requested local c = c.requested_local_slot

unfoldable pub with_requested : PoolName → Bool → Conn → Conn
with_requested cpp b c = record c { requested_cpp_slot = b }
with_requested compile b c = record c { requested_compile_slot = b }
with_requested local b c = record c { requested_local_slot = b }

pub record Usage : Type 0 where
  pub active : ℕ
  pub capacity : ℕ
  pub total : ℕ

-- What is written to the clients' sockets, and the lookups that are started.
pub data Sent : Type 0 where
  code : ℕ → ℕ → Sent
  slots_info : ℕ → Usage → Usage → Usage → Sent
  slot_acquired : ℕ → PoolName → CompilerInfoResult → Sent
  dump : ℕ → Slots Call → Slots Call → Slots Call → Sent
  look_up : ℕ → String → Sent
  missing_path : ℕ → Sent

unfoldable pub usage : Slots Call → Usage
usage s = record { active = active s; capacity = s.count; total = s.total_acquired }

-- slotsInfo(), sent to one client.
unfoldable pub info_for : Daemon → ℕ → Sent
unfolding usage
info_for d id = slots_info id (usage d.local_slots) (usage d.cpp_slots) (usage d.compile_slots)

unfoldable pub broadcast : Daemon → List Sent
unfolding info_for
broadcast d = map (info_for d) d.slot_subscribers

unfoldable pub run_call : Call → Sent
run_call (send_cpp_acquired id) = code id Constants.cpp_slot_acquired
run_call (send_compile_acquired id) = code id Constants.compile_slot_acquired
run_call (respond_cpp id r) = slot_acquired id cpp r

-- What the events of a pool make the daemon send; it has its new state when they are emitted.
unfoldable pub handle_events : Daemon → List (Event Call) → List Sent
unfolding broadcast run_call
handle_events d [] = []
handle_events d (changed ∷ es) = broadcast d ++ handle_events d es
handle_events d (called c ∷ es) = run_call c ∷ handle_events d es

pub data Step : Type 0 where
  went : Daemon → List Sent → Step
  exited : Step

unfoldable pub put_conn : ℕ → Conn → Daemon → Daemon
put_conn id c d = record d { conns = set ℕ_discrete id c d.conns }

-- acquireCppSlot and acquireCompileSlot
unfoldable pub on_acquire : PoolName → Call → Daemon → ℕ → Conn → Step
unfolding handle_events
on_acquire p cb d id c =
    if requested p c
    then exited
    else (let (s, es) = Slots.acquire (pool p d) id c.pid cb in
        let d' = with_pool p s (put_conn id (with_requested p true c) d) in
        went d' (handle_events d' es))

unfoldable pub released : PoolName → Daemon → Outcome (Slots Call × List (Event Call)) → Step
unfolding handle_events with_pool
released p d assertion_failed = exited
released p d (done (s, es)) = let d' = with_pool p s d in went d' (handle_events d' es)

-- The request flag is cleared and the slot released.
unfoldable pub let_go : PoolName → Daemon → ℕ → Conn → Step
unfolding released
let_go p d id c =
    released p (put_conn id (with_requested p false c) d) (Slots.release (pool p d) id)

-- releaseCppSlot, releaseCompileSlot and releaseLocalSlot
unfoldable pub on_release : PoolName → Daemon → ℕ → Conn → Step
on_release p d id c = if requested p c then let_go p d id c else exited

abbrev pub and_then : Step → (Daemon → Step) → Step
and_then exited f = exited
and_then (went d out) f = elim (f d) [ exited ↦ exited | went d' out' ↦ went d' (out ++ out') ]

-- `if (requested…) { requested… = false; ….release(compile.id); }`
unfoldable pub release_requested : PoolName → ℕ → Daemon → Step
release_requested p id d = elim (get ℕ_discrete id d.conns) [
  | none ↦ went d []
  | some c ↦ if requested p c then let_go p d id c else went d []
]

unfoldable pub unsubscribe : ℕ → List ℕ → List ℕ
unsubscribe id [] = []
unsubscribe id (j ∷ ids) = ite (ℕ_discrete j id) (unsubscribe id ids) (j ∷ unsubscribe id ids)

unfoldable pub drop_subscriber : ℕ → Daemon → Step
unfolding unsubscribe
drop_subscriber id d = went (record d { slot_subscribers = unsubscribe id d.slot_subscribers }) []

-- The "error" and "end" handlers do the same. The subscribers' own handlers were added later, and
-- run last.
unfoldable pub on_closed : Daemon → ℕ → Conn → Step
on_closed d id c =
    and_then
      (and_then
        (and_then (release_requested cpp id (put_conn id (record c { compile_closed = true }) d))
          (release_requested compile id))
        (release_requested local id))
      (drop_subscriber id)

unfoldable pub can_acquire_local_slot : Daemon → ℕ → Bool
can_acquire_local_slot d load =
    if leb d.local_slots.count 0
    then false
    else if ltb 0 d.max_load && ltb d.max_load load
    then false
    else true

-- A local slot was granted.
unfoldable pub grant_local :
    Daemon → ℕ → Conn → CompilerInfoResult → Slots Call → List (Event Call) → Step
grant_local d id c r s es =
    let d' = with_pool local s (put_conn id (with_requested local true c) d) in
    went d' (handle_events d' es ++ slot_acquired id local r ∷ [])

-- The cpp slot is asked for instead. The assert here throws in a promise, whose `catch` logs it.
unfoldable pub fall_back : Daemon → ℕ → Conn → CompilerInfoResult → Step
fall_back d id c r = if requested cpp c then went d [] else on_acquire cpp (respond_cpp id r) d id c

unfoldable pub resolved_local : Daemon → ℕ → Conn → CompilerInfoResult → Step
resolved_local d id c r =
    let (s, es, granted) = Slots.try_acquire d.local_slots id c.pid in
    if granted then grant_local d id c r s es else fall_back d id c r

-- What follows in acquireSlot when the compiler's info is there; `load` is os.loadavg()[0].
unfoldable pub on_info_resolved : Daemon → ℕ → Conn → CompilerInfoResult → ℕ → Step
on_info_resolved d id c r load =
    if c.compile_closed
    then went d []
    else if can_acquire_local_slot d load
    then resolved_local d id c r
    else fall_back d id c r

-- The part of acquireSlot before its promise: a path that is missing or empty is an answer at once.
unfoldable pub on_acquire_slot : Daemon → ℕ → Option String → Step
on_acquire_slot d id none = went d (missing_path id ∷ [])
on_acquire_slot d id (some path) =
    ite (String_discrete path "") (went d (missing_path id ∷ [])) (went d (look_up id path ∷ []))

unfoldable pub on_subscribe : Daemon → ℕ → Step
unfolding info_for
on_subscribe d id =
    let d' = record d { slot_subscribers = d.slot_subscribers ++ id ∷ [] } in
    went d' (info_for d' id ∷ [])

-- What happens to a connection.
pub data Input : Type 0 where
  connected : ℕ → Input
  dump_slots subscribe_slots : Input
  acquire_cpp_slot release_cpp_slot acquire_compile_slot release_compile_slot : Input
  acquire_slot : Option String → Input
  info_resolved : CompilerInfoResult → ℕ → Input
  release_local_slot ended failed : Input

abbrev pub new_conn : ℕ → Conn
new_conn pid = record {
  pid = pid;
  requested_cpp_slot = false;
  requested_local_slot = false;
  requested_compile_slot = false;
  compile_closed = false;
}

unfoldable pub dispatch : Daemon → ℕ → Conn → Input → Step
dispatch d id c (connected pid) = went d []
dispatch d id c dump_slots = went d (dump id d.cpp_slots d.compile_slots d.local_slots ∷ [])
dispatch d id c subscribe_slots = on_subscribe d id
dispatch d id c acquire_cpp_slot = on_acquire cpp (send_cpp_acquired id) d id c
dispatch d id c release_cpp_slot = on_release cpp d id c
dispatch d id c acquire_compile_slot = on_acquire compile (send_compile_acquired id) d id c
dispatch d id c release_compile_slot = on_release compile d id c
dispatch d id c (acquire_slot path) = on_acquire_slot d id path
dispatch d id c (info_resolved r load) = on_info_resolved d id c r load
dispatch d id c release_local_slot = on_release local d id c
dispatch d id c ended = on_closed d id c
dispatch d id c failed = on_closed d id c

-- A connection with no handlers yet can only be made; the server gives each a new id.
unfoldable pub unknown : Daemon → ℕ → Input → Step
unknown d id (connected pid) = went (put_conn id (new_conn pid) d) []
unknown d id _ = went d []

unfoldable pub step : Daemon → ℕ × Input → Step
step d (id, i) = elim (get ℕ_discrete id d.conns) [
  | none ↦ unknown d id i
  | some c ↦ dispatch d id c i
]

unfoldable pub run : Daemon → List (ℕ × Input) → Step
run d [] = went d []
run d (i ∷ is) = and_then (step d i) (λ d'. run d' is)

-- The daemon when it starts: cpp-slots, slots, local-slots and local-slots-max-load.
unfoldable pub start : ℕ → ℕ → ℕ → ℕ → Daemon
start cpps compiles locals max_load = record {
  cpp_slots = Slots.create cpps;
  compile_slots = Slots.create compiles;
  local_slots = Slots.create locals;
  max_load = max_load;
  conns = [];
  slot_subscribers = [];
}
