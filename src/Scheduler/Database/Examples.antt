-- ===== src/Scheduler/Database/Examples.antt =====
-- A set and a get behind it.
use fisk.Base.{ℕ, ◌≡◌, refl, some, List, [], ◌∷◌, ◌++◌, String_discrete}
use fisk.OrderedMap.{get, set}
use fisk.Scheduler.Database.{
  succeeded, get_record, set_record, resolved_get, resolved_set, Event, called, ended, create, call,
  perform, step, run, effect, finished_operation,
}
use fisk.Scheduler.Database.Order.{operations, waiting, calls, IsSettledInTurn, run-in_order}

abbrev events : List (Event ℕ)
events =
    called (set_record "links" 3)
    ∷ called (get_record "links")
    ∷ ended succeeded
    ∷ ended succeeded
    ∷ []

read_back :
    (run (create []) events).1
    ≡ record { operation = set_record "links" 3; answer = succeeded; settled = resolved_set }
      ∷ record {
        operation = get_record "links";
        answer = succeeded;
        settled = resolved_get (some 3);
      }
      ∷ []
unfolding run create call perform step effect finished_operation get set String_discrete
read_back = refl

run-in_order_example :
    (operations (run (create []) events).1 ++ waiting (run (create []) events).0 ≡ calls events)
    × IsSettledInTurn (λ key. get String_discrete key []) (run (create []) events).1
run-in_order_example = run-in_order [] events
