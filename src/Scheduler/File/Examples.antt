-- ===== src/Scheduler/File/Examples.antt =====
-- Three writes of a file; a write that fails; and a close during a write.
use fisk.Base.{ℕ, ◌≡◌, refl, true, false, List, [], ◌∷◌, ◌++◌, map}
use fisk.Scheduler.File.{
  pushed, resolved, rejected, forgotten, Event, saved, answered, ticked, closed, create, entries,
  write, save, catch_error, on_written, on_failed, on_answer, close, caught, step, run,
}
use fisk.Scheduler.File.Order.{pushed_of, resolved_of, ended_of, waiting, run-in_turn}
use fisk.Scheduler.File.Drain.{answers, busy_file, idle_file, run-answers}

abbrev events : List (Event ℕ)
events = saved 1 ∷ saved 2 ∷ saved 3 ∷ answered true ∷ ticked ∷ answered false ∷ saved 4 ∷ []

-- The second write fails: its promise and the one behind it are rejected, and save throws from then on.
failed_write :
    (run (create 5) events).1
    ≡ pushed 1 ∷ pushed 2 ∷ pushed 3 ∷ resolved 1 ∷ rejected 2 ∷ rejected 3 ∷ []
unfolding run create save write step on_answer on_written on_failed catch_error entries caught
failed_write = refl

-- When the file is closed during a write that fails then, nothing settles the promise.
never_settled :
    (run {D = ℕ} (create 5) (saved 1 ∷ closed ∷ answered false ∷ [])).1
    ≡ pushed 1 ∷ forgotten 1 ∷ []
unfolding run create save write step on_answer on_failed catch_error entries caught close
never_settled = refl

run-in_turn_example :
    (pushed_of (run (create 5) events).1
      ≡ ended_of (run (create 5) events).1 ++ waiting (run (create 5) events).0)
    × ((run (create 5) events).0.contents ≡ resolved_of (run (create 5) events).1)
run-in_turn_example = run-in_turn 5 events

run-answers_example :
    run {D = ℕ} (busy_file 5 true (1 ∷ []) 2 (3 ∷ 4 ∷ [])) (answers (3 ∷ 4 ∷ []))
    ≡ (idle_file 5 true (1 ∷ 2 ∷ 3 ∷ 4 ∷ []), map resolved (2 ∷ 3 ∷ 4 ∷ []))
run-answers_example = run-answers 5 true (1 ∷ []) 2 (3 ∷ 4 ∷ [])
