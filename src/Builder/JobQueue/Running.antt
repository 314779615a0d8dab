-- ===== src/Builder/JobQueue/Running.antt =====
-- How many jobs run: a job runs when its compile was started or it is sent from the cache.
use fisk.Base.{
  ℕ, ◌+◌, ◌≤◌, ◌≡◌, Bool, true, false, not, ◌||◌, some, List, [], ◌∷◌, arith, ℕ_discrete,
  if◌then◌else◌, length,
}
use fisk.Builder.JobQueue.{JobState, Builder, Sent, start, start_pending, find, splice_out, leave}

abbrev pub runs : JobState → Bool
runs j = j.op || j.object_cache

unfoldable pub count_running : List JobState → ℕ
count_running [] = 0
count_running (j ∷ js) = (if runs j then 1 else 0) + count_running js

abbrev pub NoneAborted : List JobState → Type 0
NoneAborted [] = Unit {0}
NoneAborted (j ∷ js) = (j.aborted ≡ false) × NoneAborted js

pub count_running-le : (q : List JobState) → count_running q ≤ length q
unfolding count_running
count_running-le [] = omega arith
count_running-le (j ∷ js) = ground (arith, count_running-le js)

start-runs : (hit : Bool) (j : JobState) → j.aborted ≡ false → runs (start hit j).0 ≡ true
unfolding start
start-runs hit j live = ground (arith, live)

-- Whether a job waits to be started.
unfoldable pub some_waits : List JobState → Bool
some_waits [] = false
some_waits (j ∷ js) = not (runs j) || some_waits js

-- startPending starts one job if one waits.
pub count-start_pending :
    (hit : ℕ → Bool) (q : List JobState)
    → NoneAborted q
    → count_running (start_pending hit q).0 ≡ count_running q + (if some_waits q then 1 else 0)
unfolding start_pending count_running some_waits
count-start_pending hit [] h = omega arith
count-start_pending hit (j ∷ js) h =
    ground (arith, start-runs (hit j.id) j h.0, count-start_pending hit js h.1)

pub count-splice_out :
    (id : ℕ) (q : List JobState) (j : JobState)
    → find id q ≡ some j
    → count_running (splice_out id q) + (if runs j then 1 else 0) ≡ count_running q
unfolding find splice_out count_running
count-splice_out id [] j h = cc
count-splice_out id (k ∷ ks) j h = elim (ℕ_discrete k.id id) [
  | yes here ↦ ground arith
  | no there ↦ ground (arith, count-splice_out id ks j)
]

pub NoneAborted-splice_out :
    (id : ℕ) (q : List JobState) → NoneAborted q → NoneAborted (splice_out id q)
unfolding splice_out
NoneAborted-splice_out id [] h = tt
NoneAborted-splice_out id (k ∷ ks) h = ground (arith, NoneAborted-splice_out id ks h.1)

-- When a job leaves the queue, the number of those that run falls by one if it ran, and grows by one
-- if another waits.
pub count-leave :
    (hit : ℕ → Bool) (b : Builder) (id : ℕ) (j : JobState) (said : List Sent)
    → NoneAborted b.job_queue
    → find id b.job_queue ≡ some j
    → count_running (leave hit b id said).0.job_queue + (if runs j then 1 else 0)
      ≡ count_running b.job_queue + (if some_waits (splice_out id b.job_queue) then 1 else 0)
unfolding leave
count-leave hit b id j said live known = omega (
  arith,
  count-start_pending hit (splice_out id b.job_queue) (NoneAborted-splice_out id b.job_queue live),
  count-splice_out id b.job_queue j known,
)
