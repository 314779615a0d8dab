-- ===== src/Builder/JobQueue.antt =====
-- The job queue of src/builder/fisk-builder.ts: the "headers" and "job" handlers of the server, the
-- handlers of a job, and startPending. A job's variable `j` is a `JobState`, told from others by
-- `id`. What the object cache answers when a job starts is the argument `hit`; its callback comes
-- later, as `cache_done`. What a compile reads and writes, and the messages' other fields, are left
-- out.
pub mod Order
pub mod Running
pub mod Capacity
pub mod Cancel
mod Examples
use fisk.Base.{
  ℕ, zero, suc, ◌+◌, ◌-◌, ite, Bool, true, false, not, ◌&&◌, Option, none, some, List, [], ◌∷◌,
  ◌++◌, ℕ_discrete, leb, if◌then◌else◌, length, take, drop,
}

pub record JobState : Type 0 where
  pub id : ℕ
  pub priority : ℕ
  pub wait : Bool
  pub op : Bool
  pub object_cache : Bool
  pub started : Bool
  pub done : Bool
  pub aborted : Bool
  pub buffer : Option ℕ

pub record Builder : Type 0 where
  pub slots : ℕ
  pub job_queue : List JobState

pub data Sent : Type 0 where
  job_started compile_started resume job_finished job_aborted cache_hit closed cancelled : ℕ → Sent
  fed : ℕ → ℕ → Sent

abbrev pub new_job : ℕ → ℕ → Bool → JobState
new_job id priority wait = record {
  id = id;
  priority = priority;
  wait = wait;
  op = false;
  object_cache = false;
  started = false;
  done = false;
  aborted = false;
  buffer = none;
}

-- jobQueue[idx].job.priority; both loops read it within the queue.
unfoldable pub priority_at : List JobState → ℕ → ℕ
priority_at [] i = 0
priority_at (j ∷ js) zero = j.priority
priority_at (j ∷ js) (suc i) = priority_at js i

-- The loop of the "headers" handler at `idx = slots + k - 1`: whether it stops at a job.
unfoldable pub scan_wait : List JobState → ℕ → ℕ → ℕ → Bool
scan_wait q priority slots zero = false
scan_wait q priority slots (suc k) =
    let rest = scan_wait q priority slots k in
    if leb priority (priority_at q (slots + k)) then true else rest

-- x-fisk-wait
unfoldable pub on_headers : Builder → Bool → ℕ → Bool
unfolding scan_wait
on_headers b cached priority =
    if cached
    then true
    else if leb b.slots (length b.job_queue)
    then scan_wait b.job_queue priority b.slots (length b.job_queue - b.slots)
    else false

-- Where a job of this priority goes: the loop from the end of the queue.
unfoldable pub position : List JobState → ℕ → ℕ → ℕ
position q priority zero = 0
position q priority (suc i) =
    let rest = position q priority i in if leb priority (priority_at q i) then suc i else rest

unfoldable pub splice_in : JobState → List JobState → List JobState
splice_in j q = let idx = position q j.priority (length q) in take idx q ++ j ∷ drop idx q

unfoldable pub feed_buffer : ℕ → Option ℕ → List Sent
feed_buffer id none = []
feed_buffer id (some n) = fed id n ∷ []

unfoldable pub resume_waiting : ℕ → Bool → List Sent
resume_waiting id false = []
resume_waiting id true = resume id ∷ []

-- j.start()
unfoldable pub start : Bool → JobState → JobState × List Sent
unfolding feed_buffer resume_waiting
start hit j =
    if j.aborted then (j, []) else if hit then (record j { object_cache = true }, []) else (
      record j { started = true; op = true; buffer = none },
      job_started j.id ∷ compile_started j.id ∷ feed_buffer j.id j.buffer
          ++ resume_waiting j.id j.wait,
    )

unfoldable pub start_pending : (ℕ → Bool) → List JobState → List JobState × List Sent
start_pending hit [] = ([], [])
start_pending hit (j ∷ js) =
    let (j', out) = start (hit j.id) j in
    let (js', out') = start_pending hit js in
    if not j.op && not j.object_cache then (j' ∷ js, out) else (j ∷ js', out')

-- The job with this id, in the queue.
unfoldable pub find : ℕ → List JobState → Option JobState
find id [] = none
find id (j ∷ js) = ite (ℕ_discrete j.id id) (some j) (find id js)

-- jobQueue.splice(jobQueue.indexOf(j), 1)
unfoldable pub splice_out : ℕ → List JobState → List JobState
splice_out id [] = []
splice_out id (j ∷ js) = ite (ℕ_discrete j.id id) js (j ∷ splice_out id js)

unfoldable pub replace : JobState → List JobState → List JobState
replace j [] = []
replace j (k ∷ ks) = ite (ℕ_discrete k.id j.id) (j ∷ ks) (k ∷ replace j ks)

-- The "job" handler, for an environment that is known: the job enters the queue, and starts if the queue is no longer than the slots.
unfoldable pub on_job : (ℕ → Bool) → Builder → JobState → Builder × List Sent
on_job hit b j =
    let q = splice_in j b.job_queue in
    if leb (length q) b.slots
    then (let (j', out) = start (hit j.id) j in (record b { job_queue = replace j' q }, out))
    else (record b { job_queue = q }, [])

-- A job leaves the queue and the next one is started.
unfoldable pub leave : (ℕ → Bool) → Builder → ℕ → List Sent → Builder × List Sent
leave hit b id said =
    let (q, out) = start_pending hit (splice_out id b.job_queue) in
    (record b { job_queue = q }, said ++ out)

-- The compile of a job has finished. A job that is no longer queued was aborted.
unfoldable pub on_finished : (ℕ → Bool) → Builder → ℕ → Bool → Builder × List Sent
on_finished hit b id success = elim (find id b.job_queue) [
  | none ↦ (b, [])
  | some j ↦ leave hit b id ((if success then job_finished id else job_aborted id) ∷ [])
]

-- The callback of getFromCache: `failed` when it was given an error.
unfoldable pub on_cache_done : (ℕ → Bool) → Builder → ℕ → Bool → Builder × List Sent
on_cache_done hit b id failed = elim (find id b.job_queue) [
  | none ↦ (b, [])
  | some j ↦ leave hit b id ((if failed then closed id else cache_hit id) ∷ [])
]

-- j.cancel()
unfoldable pub cancel : JobState → List Sent
cancel j = if not j.done && j.op then cancelled j.id ∷ [] else []

unfoldable pub aborted_message : JobState → List Sent
aborted_message j = if j.started then job_aborted j.id ∷ [] else []

-- The job's "close" handler; `done` is set before anything else.
unfoldable pub on_close : (ℕ → Bool) → Builder → ℕ → Builder × List Sent
unfolding aborted_message
on_close hit b id = elim (find id b.job_queue) [
  | none ↦ (b, [])
  | some j ↦
      let j' = record j { done = true; aborted = true } in
      leave hit b id (cancel j' ++ aborted_message j')
]

-- The job's "error" handler, while the job is queued.
unfoldable pub on_error : Builder → ℕ → Builder
on_error b id = elim (find id b.job_queue) [
  | none ↦ b
  | some j ↦ record b { job_queue = replace (record j { done = true }) b.job_queue }
]

-- The job's "data" handler, while the job is queued.
unfoldable pub on_data : Builder → ℕ → ℕ → Builder × List Sent
on_data b id size = elim (find id b.job_queue) [
  | none ↦ (b, [])
  | some j ↦
      if j.op
      then (b, fed id size ∷ [])
      else (record b { job_queue = replace (record j { buffer = some size }) b.job_queue }, [])
]
