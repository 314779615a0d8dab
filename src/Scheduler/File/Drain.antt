-- ===== src/Scheduler/File/Drain.antt =====
-- The writes of an upload come to an end.
use fisk.Base.{ℕ, ◌≡◌, refl, Bool, true, false, none, some, List, [], ◌∷◌, ◌++◌, map, append_assoc}
use fisk.Scheduler.File.{
  resolved, File, Event, answered, ticked, write, on_written, on_answer, step, run,
}

module _ {D : Type 0} where
  -- The next write is fulfilled, and the tick after it comes, for as many data as wait behind it.
  abbrev pub answers : List D → List (Event D)
  answers [] = answered true ∷ []
  answers (p ∷ ps) = answered true ∷ ticked ∷ answers ps

  -- An open file that writes d, with these data behind it.
  abbrev pub busy_file : ℕ → Bool → List D → D → List D → File D
  busy_file n linked c d ps = record {
    fd = some n;
    linked = linked;
    pending = some ps;
    writing = true;
    ticks = false;
    in_flight = some d;
    contents = c;
  }

  -- An open file with these contents that writes nothing.
  abbrev pub idle_file : ℕ → Bool → List D → File D
  idle_file n linked c = record {
    fd = some n;
    linked = linked;
    pending = some [];
    writing = false;
    ticks = false;
    in_flight = none;
    contents = c;
  }

  -- When an open file is writing, each of its writes is fulfilled in turn, with the tick between them,
  -- and nothing else happens: after as many answers as there are data left the file writes no more,
  -- nothing waits, the promises are resolved in the order of the data, and these stand behind the
  -- contents in that order.
  pub run-answers :
      (n : ℕ) (linked : Bool) (c : List D) (d : D) (ps : List D)
      → run (busy_file n linked c d ps) (answers ps)
        ≡ (idle_file n linked (c ++ d ∷ ps), map resolved (d ∷ ps))
  unfolding run step write on_answer on_written
  run-answers n linked c d [] = refl
  run-answers n linked c d (p ∷ ps) =
      rw (run-answers n linked (c ++ d ∷ []) p ps, append_assoc c (d ∷ []) (p ∷ ps)) refl
