-- ===== src/Daemon/CompilerInfoCache/Examples.antt =====
-- Two callers of one compiler, a failure, and a caller after it.
use fisk.Base.{ℕ, ◌+◌, ◌≤◌, ◌≡◌, refl, none, some, List, [], ◌∷◌, String_discrete}
use fisk.OrderedMap.{get, set, delete}
use fisk.Daemon.CompilerInfoCache.{
  computes, resolved, rejected, Event, asked, computed, start, get_info, answers, remember,
  on_computed, step, run,
}
use fisk.Daemon.CompilerInfoCache.Callers.{times_asked, times_settled, times_waiting, run-settles}
use fisk.Daemon.CompilerInfoCache.Computes.{times_computed, times_failed, run-computes_once}

abbrev events : List (Event ℕ)
events =
    asked 1 (some "gcc:1")
    ∷ asked 2 (some "gcc:1")
    ∷ asked 3 none
    ∷ computed "gcc:1" none
    ∷ asked 4 (some "gcc:1")
    ∷ computed "gcc:1" (some 7)
    ∷ asked 5 (some "gcc:1")
    ∷ []

shared :
    (run start events).1
    ≡ computes "gcc:1"
      ∷ rejected 3
      ∷ rejected 1
      ∷ rejected 2
      ∷ computes "gcc:1"
      ∷ resolved 4 7
      ∷ resolved 5 7
      ∷ []
unfolding run step get_info on_computed answers remember get set delete String_discrete
shared = refl

run-settles_example :
    times_settled 2 (run start events).1 + times_waiting 2 (run start events).0
    ≡ times_asked 2 events
run-settles_example = run-settles 2 events

run-computes_once_example :
    times_computed "gcc:1" (run start events).1 ≤ 1 + times_failed "gcc:1" events
run-computes_once_example = run-computes_once "gcc:1" events
