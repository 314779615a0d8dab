-- ===== src/Scheduler/Peak/History.antt =====
-- A peak over an interval after any calls, against all the samples that were recorded.
use fisk.Base.{
  ℕ, ◌≤◌, ◌<◌, ◌≡◌, refl, sym, subst, List, [], ◌∷◌, ◌++◌, append-nil, append_assoc, arith, drop,
}
use fisk.Scheduler.Peak
use fisk.Scheduler.Peak.{Samples, from_larger, scan, record_within, record_sample, to_object}
use fisk.Scheduler.Peak.Window.{younger, not_older, younger-le-not_older, scan-peak}
use fisk.Scheduler.Peak.Calls.{
  Call, record_call, to_object_call, call, run, jobs_recorded, utilization_recorded, InTime,
}
use fisk.Scheduler.Peak.Stands.{Stands, Stands-record, Stands-drop, Stands-later}

-- A peak over an interval, and what was recorded until a time.
record Tracks (i now : ℕ) (jobs used : Samples) (p : Peak.Peak) : Type 0 where
  over : p.interval ≡ i
  jobs_stand : Stands i now jobs p.actives
  used_stand : Stands i now used p.utilizations

record_within-Tracks :
    (i last now a u : ℕ) (jobs used : Samples) (p : Peak.Peak)
    → last ≤ now
    → Tracks i last jobs used p
    → Tracks i now (jobs ++ (now, a) ∷ []) (used ++ (now, u) ∷ []) (record_within p now a u).0
unfolding record_within
record_within-Tracks i last now a u jobs used p le h = record {
  over = h.over;
  jobs_stand =
      subst
        (λ j. Stands i now (jobs ++ (now, a) ∷ []) (from_larger j now a p.actives ++ (now, a) ∷ []))
        (sym h.over) (Stands-record i last now a jobs p.actives le h.jobs_stand);
  used_stand =
      subst
        (λ j.
          Stands i now (used ++ (now, u) ∷ [])
            (from_larger j now u p.utilizations ++ (now, u) ∷ []))
        (sym h.over) (Stands-record i last now u used p.utilizations le h.used_stand);
}

record_sample-Tracks :
    (i last now a u : ℕ) (jobs used : Samples) (p : Peak.Peak)
    → 0 < i
    → last ≤ now
    → Tracks i last jobs used p
    → Tracks i now (jobs ++ (now, a) ∷ []) (used ++ (now, u) ∷ []) (record_sample p now a u).0
unfolding record_sample
record_sample-Tracks i last now a u jobs used p some_interval le h =
    ground (arith, h.over, record_within-Tracks i last now a u jobs used p le h)

to_object-Tracks :
    (i last now : ℕ) (jobs used : Samples) (p : Peak.Peak)
    → 0 < i
    → last ≤ now
    → Tracks i last jobs used p
    → Tracks i now jobs used (to_object p now).0
unfolding to_object
to_object-Tracks i last now jobs used p some_interval le h =
    let p' = record p {
      actives = drop (scan p.interval now 0 0 0 p.actives).1 p.actives;
      utilizations = drop (scan p.interval now 0 0 0 p.utilizations).1 p.utilizations;
    } in
    let h' : Tracks i now jobs used p' = record {
      over = h.over;
      jobs_stand =
          subst (λ j. Stands i now jobs (drop (scan j now 0 0 0 p.actives).1 p.actives))
            (sym h.over) (Stands-drop i last now jobs p.actives le h.jobs_stand);
      used_stand =
          subst (λ j. Stands i now used (drop (scan j now 0 0 0 p.utilizations).1 p.utilizations))
            (sym h.over) (Stands-drop i last now used p.utilizations le h.used_stand);
    } in
    ground (arith, h.over, h')

run-Tracks :
    (i first last : ℕ) (jobs used : Samples) (p : Peak.Peak) (cs : List Call)
    → 0 < i
    → InTime first cs last
    → Tracks i first jobs used p
    → Tracks i last (jobs ++ jobs_recorded cs) (used ++ utilization_recorded cs) (run p cs)
unfolding run call
run-Tracks i first last jobs used p [] some_interval ordered h =
    rw (append-nil jobs, append-nil used)
      (record {
        over = h.over;
        jobs_stand = Stands-later i first last jobs p.actives ordered h.jobs_stand;
        used_stand = Stands-later i first last used p.utilizations ordered h.used_stand;
      })
run-Tracks i first last jobs used p (to_object_call now ∷ cs) some_interval ordered h =
    run-Tracks i now last jobs used (to_object p now).0 cs some_interval ordered.1
      (to_object-Tracks i first now jobs used p some_interval ordered.0 h)
run-Tracks i first last jobs used p (record_call now a u ∷ cs) some_interval ordered h =
    let rest =
      run-Tracks i now last (jobs ++ (now, a) ∷ []) (used ++ (now, u) ∷ [])
        (record_sample p now a u).0 cs some_interval ordered.1
        (record_sample-Tracks i first now a u jobs used p some_interval ordered.0 h) in
    rw
      (
        ← append_assoc jobs ((now, a) ∷ []) (jobs_recorded cs),
        ← append_assoc used ((now, u) ∷ []) (utilization_recorded cs),
      )
      rest

abbrev pub Within : ℕ → ℕ → Samples → ℕ → Type 0
Within i now all peak = (younger i now all ≤ peak) × (peak ≤ not_older i now all)

-- Over an interval, what `toObject` shows after any calls in the order of their times is no less than
-- any sample that is younger than the interval, and no more than the largest sample that is not older
-- than it, for the active jobs and the utilization: no sample that `record` or `toObject` dropped is
-- missed.
pub to_object-Within :
    (i started now : ℕ) (cs : List Call)
    → 0 < i
    → InTime started cs now
    → Within i now (jobs_recorded cs) (to_object (run (Peak.create i started) cs) now).1.active_jobs
      × Within i now
          (utilization_recorded cs)
          (to_object (run (Peak.create i started) cs) now).1.utilization
unfolding to_object Peak.create
to_object-Within i started now cs some_interval ordered =
    let nothing : Stands i started [] [] = record {
      holds = record { timed = tt; until = tt };
      at_least = λ T later. omega arith;
      at_most = λ T. omega arith;
    } in
    let p = run (Peak.create i started) cs in
    let h =
      run-Tracks i started now [] [] (Peak.create i started) cs some_interval ordered
        (record { over = refl; jobs_stand = nothing; used_stand = nothing }) in
    let jobs : Within i now (jobs_recorded cs) (scan i now 0 0 0 p.actives).0 = (
      omega (
        arith,
        scan-peak i now 0 0 0 p.actives,
        younger-le-not_older i now p.actives,
        h.jobs_stand.at_least now (omega arith),
      ),
      omega (arith, scan-peak i now 0 0 0 p.actives, h.jobs_stand.at_most now),
    ) in
    let used : Within i now (utilization_recorded cs) (scan i now 0 0 0 p.utilizations).0 = (
      omega (
        arith,
        scan-peak i now 0 0 0 p.utilizations,
        younger-le-not_older i now p.utilizations,
        h.used_stand.at_least now (omega arith),
      ),
      omega (arith, scan-peak i now 0 0 0 p.utilizations, h.used_stand.at_most now),
    ) in
    ground (arith, h.over, jobs, used)
