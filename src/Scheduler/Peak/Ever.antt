-- ===== src/Scheduler/Peak/Ever.antt =====
-- A peak without an interval after any calls, against all the samples that were recorded.
use fisk.Base.{ℕ, max, ◌≡◌, refl, List, [], ◌∷◌, arith}
use fisk.Scheduler.Peak
use fisk.Scheduler.Peak.{Samples, record_ever, record_sample, to_object}
use fisk.Scheduler.Peak.Calls.{
  Call, record_call, to_object_call, call, run, jobs_recorded, utilization_recorded,
}

-- The largest value of the samples.
unfoldable pub largest : Samples → ℕ
largest [] = 0
largest ((t, n) ∷ rest) = max n (largest rest)

to_object_ever : (p : Peak.Peak) (now : ℕ) → p.interval ≡ 0 → (to_object p now).0 ≡ p
unfolding to_object
to_object_ever p now ever = ground (arith, ever)

record_sample_ever :
    (p : Peak.Peak) (now a u : ℕ)
    → p.interval ≡ 0
    → ((record_sample p now a u).0.interval ≡ 0)
      × ((record_sample p now a u).0.peak_active_jobs ≡ max p.peak_active_jobs a)
      × ((record_sample p now a u).0.peak_utilization ≡ max p.peak_utilization u)
unfolding record_sample record_ever
record_sample_ever p now a u ever = ground (arith, ever)

record_ever_run :
    (p : Peak.Peak) (cs : List Call)
    → p.interval ≡ 0
    → ((run p cs).interval ≡ 0)
      × ((run p cs).peak_active_jobs ≡ max p.peak_active_jobs (largest (jobs_recorded cs)))
      × ((run p cs).peak_utilization ≡ max p.peak_utilization (largest (utilization_recorded cs)))
unfolding run call largest
record_ever_run p [] ever = (ever, omega arith, omega arith)
record_ever_run p (to_object_call now ∷ cs) ever =
    let same : (to_object p now).0 ≡ p = to_object_ever p now ever in
    rw (same, run, call) (record_ever_run p cs ever)
record_ever_run p (record_call now a u ∷ cs) ever =
    let h = record_sample_ever p now a u ever in
    let rest = record_ever_run (record_sample p now a u).0 cs h.0 in
    (rest.0, omega (arith, rest.1, h.1), omega (arith, rest.2, h.2))

-- Without an interval, what `toObject` shows is the largest sample that was ever recorded.
pub to_object_for_ever :
    (started now : ℕ) (cs : List Call)
    → ((to_object (run (Peak.create 0 started) cs) now).1.active_jobs ≡ largest (jobs_recorded cs))
      × ((to_object (run (Peak.create 0 started) cs) now).1.utilization
          ≡ largest (utilization_recorded cs))
unfolding to_object Peak.create
to_object_for_ever started now cs = ground (arith, record_ever_run (Peak.create 0 started) cs refl)
