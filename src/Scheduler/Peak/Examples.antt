-- ===== src/Scheduler/Peak/Examples.antt =====
-- A peak over 10 milliseconds.
use fisk.Base.{ℕ, ◌≡◌, refl, List, [], ◌∷◌, arith}
use fisk.Scheduler.Peak
use fisk.Scheduler.Peak.{from_larger, scan, record_ever, record_within, record_sample, to_object}
use fisk.Scheduler.Peak.Calls.{
  Call, record_call, to_object_call, call, run, jobs_recorded, utilization_recorded,
}
use fisk.Scheduler.Peak.History.{Within, to_object-Within}

abbrev calls : List Call
calls = record_call 101 5 50 ∷ record_call 103 2 20 ∷ to_object_call 104 ∷ record_call 107 3 30 ∷ []

abbrev after : ℕ → Peak.Peak
after interval = run (Peak.create interval 100) calls

-- At 112 the first sample is too old.
shown : (to_object (after 10) 112).1.active_jobs ≡ 3
unfolding to_object run call record_sample record_within record_ever from_larger scan Peak.create
shown = refl

to_object-Within_example :
    Within 10 112 (jobs_recorded calls) (to_object (after 10) 112).1.active_jobs
    × Within 10 112 (utilization_recorded calls) (to_object (after 10) 112).1.utilization
to_object-Within_example =
    to_object-Within 10 100 112 calls (omega arith)
      (omega arith, (omega arith, (omega arith, (omega arith, omega arith))))
