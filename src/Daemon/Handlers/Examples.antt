-- ===== src/Daemon/Handlers/Examples.antt =====
-- Two clients on a daemon with one cpp slot, and the theorems on that run.
use fisk.Base.{ℕ, ◌≡◌, refl, true, false, none, some, List, [], ◌∷◌, ℕ_discrete}
use fisk.OrderedMap.{get, set}
use fisk.Daemon.Slots
use fisk.Daemon.Handlers.{
  Conn, Daemon, send_cpp_acquired, CompilerInfoResult, went, exited, code, Input, connected,
  acquire_cpp_slot, ended, failed, pool, with_pool, requested, with_requested, put_conn,
  handle_events, on_acquire, dispatch, unknown, step, run, start,
}
use fisk.Daemon.Handlers.Invariant.{Inv, Goes}
use fisk.Daemon.Handlers.Steps.{HoldsNothing}
use fisk.Daemon.Handlers.Protocol.{run-start-Inv, step_closed}

-- Client 7 holds the cpp slot, client 8 waits for it.
abbrev requests : List (ℕ × Input)
requests =
    (7, connected 70) ∷ (8, connected 80) ∷ (7, acquire_cpp_slot) ∷ (8, acquire_cpp_slot) ∷ []

abbrev asking : ℕ → Conn
asking pid = record {
  pid = pid;
  requested_cpp_slot = true;
  requested_local_slot = false;
  requested_compile_slot = false;
  compile_closed = false;
}

abbrev two_clients : Daemon
two_clients = record {
  cpp_slots = record {
    count = 1;
    used = (7, 70) ∷ [];
    pending = (8, record { cb = send_cpp_acquired 8; pid = 80 }) ∷ [];
    total_acquired = 1;
  };
  compile_slots = record { count = 1; used = []; pending = []; total_acquired = 0 };
  local_slots = record { count = 0; used = []; pending = []; total_acquired = 0 };
  max_load = 0;
  conns = (7, asking 70) ∷ (8, asking 80) ∷ [];
  slot_subscribers = [];
}

two_clients-run : run (start 1 1 0 0) requests ≡ went two_clients (code 7 10 ∷ [])
unfolding run step dispatch unknown start on_acquire requested with_requested pool with_pool
    put_conn handle_events get set ℕ_discrete Slots.create Slots.acquire
two_clients-run = refl

two_clients-Inv : Inv two_clients
two_clients-Inv = run-start-Inv 1 1 0 0 requests two_clients (code 7 10 ∷ []) two_clients-run

run-start-Inv_example : Inv two_clients
run-start-Inv_example = run-start-Inv 1 1 0 0 requests two_clients (code 7 10 ∷ []) two_clients-run

known_client : get ℕ_discrete 7 two_clients.conns ≡ some (asking 70)
unfolding get ℕ_discrete
known_client = refl

-- A second acquire breaks the protocol.
twice_exits : step two_clients (7, acquire_cpp_slot) ≡ exited
unfolding step dispatch on_acquire requested get ℕ_discrete
twice_exits = refl

step_closed_example :
    Goes (λ d'. Inv d' × HoldsNothing 7 d') (step two_clients (7, ended))
    × Goes (λ d'. Inv d' × HoldsNothing 7 d') (step two_clients (7, failed))
step_closed_example = step_closed two_clients 7 (asking 70) two_clients-Inv known_client

abbrev gone : Daemon
gone = record two_clients { conns = (9, record (asking 90) { compile_closed = true }) ∷ [] }

gone_known : get ℕ_discrete 9 gone.conns ≡ some (record (asking 90) { compile_closed = true })
unfolding get ℕ_discrete
gone_known = refl

abbrev answer : CompilerInfoResult
answer = record { info = some "clang"; error = none }
