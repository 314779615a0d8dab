-- ===== src/Builder/JobQueue/Examples.antt =====
-- A builder with one slot, and the theorems on it.
use fisk.Base.{ℕ, ◌≡◌, refl, Bool, true, false, [], ◌∷◌, arith, ℕ_discrete, ltb}
use fisk.Builder.JobQueue.{
  JobState, Builder, priority_at, position, splice_out, find, scan_wait, on_headers, start,
  start_pending, new_job, on_job, leave, cancel, aborted_message, on_close,
}
use fisk.Builder.JobQueue.Order.{IsOrdered, on_headers_lem}
use fisk.Builder.JobQueue.Running.{count_running}
use fisk.Builder.JobQueue.Capacity.{Fits, on_job-Fits}
use fisk.Builder.JobQueue.Cancel.{any_cancelled, on_close_never_cancels}

abbrev no_hit : ℕ → Bool
no_hit id = false

-- Job 1 runs; jobs 2 and 3 wait.
abbrev running : JobState
running = record (new_job 1 5 false) { started = true; op = true }

abbrev busy : Builder
busy = record { slots = 1; job_queue = running ∷ new_job 2 3 true ∷ new_job 3 3 true ∷ [] }

busy-Fits : Fits busy
unfolding count_running
busy-Fits = ((refl, (refl, (refl, tt))), omega arith)

on_job-Fits_example : Fits (on_job no_hit busy (new_job 4 4 false)).0
on_job-Fits_example = on_job-Fits no_hit busy 4 4 false busy-Fits

-- Job 1 is sent from the cache instead.
abbrev served : JobState
served = record (new_job 1 5 false) { object_cache = true }

abbrev serving : Builder
serving = record busy { job_queue = served ∷ new_job 2 3 true ∷ [] }

serving-Fits : Fits serving
unfolding count_running
serving-Fits = ((refl, (refl, tt)), omega arith)

two_run : count_running (on_close no_hit busy 3).0.job_queue ≡ 2
unfolding count_running on_close leave find splice_out start_pending start cancel aborted_message
    ℕ_discrete
two_run = refl

on_close_never_cancels_example : any_cancelled (on_close no_hit busy 1).1 ≡ false
on_close_never_cancels_example = on_close_never_cancels no_hit busy 1

-- Two jobs of priority 3 wait already.
on_headers_lem_example : on_headers busy false 3 ≡ ltb 1 (position busy.job_queue 3 3)
on_headers_lem_example = on_headers_lem busy 3

told_to_wait : on_headers busy false 3 ≡ true
unfolding on_headers scan_wait priority_at
told_to_wait = refl

not_told_to_wait : on_headers busy false 4 ≡ false
unfolding on_headers scan_wait priority_at
not_told_to_wait = refl

busy-IsOrdered : IsOrdered busy.job_queue
busy-IsOrdered = ((omega arith, (omega arith, tt)), ((omega arith, tt), (tt, tt)))
