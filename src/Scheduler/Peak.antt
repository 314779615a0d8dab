-- ===== src/Scheduler/Peak.antt =====
-- src/scheduler/Peak.ts: the peak of the active jobs and of the utilization, for ever or over an
-- interval. Times are Date.now(), and a utilization counts in a fixed unit; the code only compares
-- both. `t > now - interval` is written `now < t + interval`. An interval of 0 is the code's falsy one.
pub mod Window
pub mod Calls
pub mod Stands
pub mod History
pub mod Ever
mod Examples
use fisk.Base.{
  ℕ, ◌+◌, max, Bool, ◌&&◌, ◌||◌, List, [], ◌∷◌, ◌++◌, ltb, ◌==◌, if◌then◌else◌, drop, is_empty,
}

-- The times and values that an array holds.
abbrev pub Samples : Type 0
Samples = List (ℕ × ℕ)

pub record Peak : Type 0 where
  pub interval : ℕ
  pub peak_active_jobs : ℕ
  pub peak_active_jobs_time : ℕ
  pub peak_utilization : ℕ
  pub peak_utilization_time : ℕ
  pub actives : Samples
  pub utilizations : Samples

unfoldable pub create : ℕ → ℕ → Peak
create interval now = record {
  interval = interval;
  peak_active_jobs = 0;
  peak_active_jobs_time = now;
  peak_utilization = 0;
  peak_utilization_time = now;
  actives = [];
  utilizations = [];
}

-- The array from the index where the loop of `record` stops.
unfoldable pub from_larger : ℕ → ℕ → ℕ → Samples → Samples
from_larger interval now value [] = []
from_larger interval now value ((t, n) ∷ rest) =
    if ltb now (t + interval) && ltb value n
    then (t, n) ∷ rest
    else from_larger interval now value rest

-- `record` without an interval.
unfoldable pub record_ever : Peak → ℕ → ℕ → ℕ → Peak × Bool
record_ever p now active_jobs utilization =
    let more_jobs = ltb p.peak_active_jobs active_jobs in
    let more_used = ltb p.peak_utilization utilization in
    (
      record p {
        peak_active_jobs = if more_jobs then active_jobs else p.peak_active_jobs;
        peak_active_jobs_time = if more_jobs then now else p.peak_active_jobs_time;
        peak_utilization = if more_used then utilization else p.peak_utilization;
        peak_utilization_time = if more_used then now else p.peak_utilization_time;
      },
      more_jobs || more_used,
    )

-- `record` with an interval: a loop that reaches the end of its array has found a new peak.
unfoldable pub record_within : Peak → ℕ → ℕ → ℕ → Peak × Bool
record_within p now active_jobs utilization =
    let jobs = from_larger p.interval now active_jobs p.actives in
    let used = from_larger p.interval now utilization p.utilizations in
    (
      record p {
        peak_active_jobs = if is_empty jobs then active_jobs else p.peak_active_jobs;
        peak_active_jobs_time = if is_empty jobs then now else p.peak_active_jobs_time;
        peak_utilization = if is_empty used then utilization else p.peak_utilization;
        peak_utilization_time = if is_empty used then now else p.peak_utilization_time;
        actives = jobs ++ (now, active_jobs) ∷ [];
        utilizations = used ++ (now, utilization) ∷ [];
      },
      is_empty jobs || is_empty used,
    )

unfoldable pub record_sample : Peak → ℕ → ℕ → ℕ → Peak × Bool
unfolding record_ever record_within
record_sample p now active_jobs utilization =
    if p.interval == 0
    then record_ever p now active_jobs utilization
    else record_within p now active_jobs utilization

-- The loop of `toObject` over an array from the index `idx`: the peak, and `splice`.
unfoldable pub scan : ℕ → ℕ → ℕ → ℕ → ℕ → Samples → ℕ × ℕ
scan interval now idx peak splice [] = (peak, splice)
scan interval now idx peak splice ((t, n) ∷ rest) =
    let old = scan interval now (idx + 1) peak (idx + 1) rest in
    let young = scan interval now (idx + 1) (max peak n) splice rest in
    if ltb (t + interval) now then old else young

pub record PeakData : Type 0 where
  pub active_jobs : ℕ
  pub utilization : ℕ

unfoldable pub to_object : Peak → ℕ → Peak × PeakData
unfolding scan
to_object p now =
    let (active_jobs, splice) = scan p.interval now 0 0 0 p.actives in
    let (utilization, splice') = scan p.interval now 0 0 0 p.utilizations in
    if p.interval == 0
    then (p, record { active_jobs = p.peak_active_jobs; utilization = p.peak_utilization })
    else (
      record p { actives = drop splice p.actives; utilizations = drop splice' p.utilizations },
      record { active_jobs = active_jobs; utilization = utilization },
    )
