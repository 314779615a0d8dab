-- ===== src/Scheduler/Peak/Calls.antt =====
-- Calls of a peak's methods (src/scheduler/Peak.ts) in their order, and what they record.
use fisk.Base.{ℕ, ◌≤◌, List, [], ◌∷◌}
use fisk.Scheduler.Peak
use fisk.Scheduler.Peak.{Samples, record_sample, to_object}

-- A call, with its time and what it records.
pub data Call : Type 0 where
  record_call : ℕ → ℕ → ℕ → Call
  to_object_call : ℕ → Call

abbrev pub time : Call → ℕ
time (record_call now active_jobs utilization) = now
time (to_object_call now) = now

unfoldable pub call : Peak.Peak → Call → Peak.Peak
call p (record_call now active_jobs utilization) = (record_sample p now active_jobs utilization).0
call p (to_object_call now) = (to_object p now).0

unfoldable pub run : Peak.Peak → List Call → Peak.Peak
run p [] = p
run p (c ∷ cs) = run (call p c) cs

-- What was recorded of the active jobs, and of the utilization.
abbrev pub jobs_recorded : List Call → Samples
jobs_recorded [] = []
jobs_recorded (record_call now active_jobs utilization ∷ cs) = (now, active_jobs) ∷ jobs_recorded cs
jobs_recorded (to_object_call now ∷ cs) = jobs_recorded cs

abbrev pub utilization_recorded : List Call → Samples
utilization_recorded [] = []
utilization_recorded (record_call now active_jobs utilization ∷ cs) =
    (now, utilization) ∷ utilization_recorded cs
utilization_recorded (to_object_call now ∷ cs) = utilization_recorded cs

-- The clock does not go back: the calls' times do not descend, from the first to the last.
abbrev pub InTime : ℕ → List Call → ℕ → Type 0
InTime first [] last = first ≤ last
InTime first (c ∷ cs) last = (first ≤ time c) × InTime (time c) cs last
