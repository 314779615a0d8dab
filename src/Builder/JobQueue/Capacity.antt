-- ===== src/Builder/JobQueue/Capacity.antt =====
-- How many jobs run, against the builder's slots, after each handler of a job.
use fisk.Base.{
  ℕ, zero, suc, ◌+◌, ◌≤◌, ◌≡◌, refl, ap, Bool, true, false, some, List, [], ◌∷◌, ◌++◌, arith,
  dec_le, if◌then◌else◌, length, take, drop, append-take-drop,
}
use fisk.Builder.JobQueue.{
  JobState, Builder, Sent, new_job, job_finished, job_aborted, cache_hit, closed, start,
  start_pending, find, splice_out, splice_in, replace, position, on_job, leave, on_finished,
  on_cache_done, on_close,
}
use fisk.Builder.JobQueue.Running.{
  runs, count_running, NoneAborted, count_running-le, some_waits, NoneAborted-splice_out,
  count-leave,
}

-- The length of the queue after a job enters, and what runs.
count-append :
    (xs ys : List JobState) → count_running (xs ++ ys) ≡ count_running xs + count_running ys
unfolding count_running
count-append [] ys = omega arith
count-append (x ∷ xs) ys = omega (arith, count-append xs ys)

count-splice_in :
    (j : JobState) (q : List JobState)
    → count_running (splice_in j q) ≡ count_running q + (if runs j then 1 else 0)
unfolding splice_in count_running
count-splice_in j q = omega (
  arith,
  count-append (take (position q j.priority (length q)) q)
      (j ∷ drop (position q j.priority (length q)) q),
  count-append (take (position q j.priority (length q)) q)
      (drop (position q j.priority (length q)) q),
  ap count_running (append-take-drop (position q j.priority (length q)) q),
)

length-replace : (j : JobState) (q : List JobState) → length (replace j q) ≡ length q
unfolding replace
length-replace j [] = omega arith
length-replace j (k ∷ ks) = ground (arith, length-replace j ks)

-- The builder runs no more jobs than it has slots, and no job of its queue was aborted.
abbrev pub Fits : Builder → Type 0
Fits b = NoneAborted b.job_queue × (count_running b.job_queue ≤ b.slots)

NoneAborted-append :
    (xs ys : List JobState) → NoneAborted xs → NoneAborted ys → NoneAborted (xs ++ ys)
NoneAborted-append [] ys h k = k
NoneAborted-append (x ∷ xs) ys h k = (h.0, NoneAborted-append xs ys h.1 k)

NoneAborted-take : (n : ℕ) (q : List JobState) → NoneAborted q → NoneAborted (take n q)
NoneAborted-take zero q h = tt
NoneAborted-take (suc n) [] h = tt
NoneAborted-take (suc n) (x ∷ xs) h = (h.0, NoneAborted-take n xs h.1)

NoneAborted-drop : (n : ℕ) (q : List JobState) → NoneAborted q → NoneAborted (drop n q)
NoneAborted-drop zero q h = h
NoneAborted-drop (suc n) [] h = tt
NoneAborted-drop (suc n) (x ∷ xs) h = NoneAborted-drop n xs h.1

NoneAborted-splice_in :
    (j : JobState) (q : List JobState)
    → j.aborted ≡ false
    → NoneAborted q
    → NoneAborted (splice_in j q)
unfolding splice_in
NoneAborted-splice_in j q live h =
    NoneAborted-append (take (position q j.priority (length q)) q)
      (j ∷ drop (position q j.priority (length q)) q)
      (NoneAborted-take (position q j.priority (length q)) q h)
      (live, NoneAborted-drop (position q j.priority (length q)) q h)

NoneAborted-replace :
    (j : JobState) (q : List JobState)
    → j.aborted ≡ false
    → NoneAborted q
    → NoneAborted (replace j q)
unfolding replace
NoneAborted-replace j [] live h = tt
NoneAborted-replace j (k ∷ ks) live h = ground (arith, NoneAborted-replace j ks live h.1)

start-live : (hit : Bool) (j : JobState) → j.aborted ≡ false → (start hit j).0.aborted ≡ false
unfolding start
start-live hit j live = ground (arith, live)

NoneAborted-start_pending :
    (hit : ℕ → Bool) (q : List JobState) → NoneAborted q → NoneAborted (start_pending hit q).0
unfolding start_pending
NoneAborted-start_pending hit [] h = tt
NoneAborted-start_pending hit (j ∷ js) h =
    ground (arith, start-live (hit j.id) j h.0, NoneAborted-start_pending hit js h.1)

-- A builder that runs no more jobs than it has slots, none of its queue aborted, keeps to that when
-- a job arrives.
pub on_job-Fits :
    (hit : ℕ → Bool) (b : Builder) (id p : ℕ) (wait : Bool)
    → Fits b
    → Fits (on_job hit b (new_job id p wait)).0
unfolding on_job
on_job-Fits hit b id p wait h =
    let q = splice_in (new_job id p wait) b.job_queue in
    let j = (start (hit id) (new_job id p wait)).0 in
    let live = NoneAborted-splice_in (new_job id p wait) b.job_queue refl h.0 in
    elim (dec_le (length q) b.slots) [
      | yes room ↦ ground (
        arith,
        NoneAborted-replace j q (start-live (hit id) (new_job id p wait) refl) live,
        count_running-le (replace j q),
        length-replace j q,
      )
      | no full ↦ ground (arith, live, count-splice_in (new_job id p wait) b.job_queue)
    ]

leave-Fits :
    (hit : ℕ → Bool) (b : Builder) (id : ℕ) (j : JobState) (said : List Sent)
    → Fits b
    → find id b.job_queue ≡ some j
    → runs j ≡ true
    → Fits (leave hit b id said).0
unfolding leave
leave-Fits hit b id j said h known running = (
  NoneAborted-start_pending hit (splice_out id b.job_queue)
      (NoneAborted-splice_out id b.job_queue h.0),
  ground (arith, count-leave hit b id j said h.0 known, running, h.1),
)

-- A builder that runs no more jobs than it has slots, none of its queue aborted, keeps to that when
-- the compile of a queued job that runs finishes.
pub on_finished-Fits :
    (hit : ℕ → Bool) (b : Builder) (id : ℕ) (success : Bool) (j : JobState)
    → Fits b
    → find id b.job_queue ≡ some j
    → runs j ≡ true
    → Fits (on_finished hit b id success).0
unfolding on_finished
on_finished-Fits hit b id success j h known running =
    rw (known, on_finished)
      (leave-Fits hit b id j ((if success then job_finished id else job_aborted id) ∷ []) h known
        running)

-- A builder that runs no more jobs than it has slots, none of its queue aborted, keeps to that when
-- the cache has answered, or failed to, for a queued job that runs.
pub on_cache_done-Fits :
    (hit : ℕ → Bool) (b : Builder) (id : ℕ) (failed : Bool) (j : JobState)
    → Fits b
    → find id b.job_queue ≡ some j
    → runs j ≡ true
    → Fits (on_cache_done hit b id failed).0
unfolding on_cache_done
on_cache_done-Fits hit b id failed j h known running =
    rw (known, on_cache_done)
      (leave-Fits hit b id j ((if failed then closed id else cache_hit id) ∷ []) h known running)

-- When the connection of a queued job closes and no queued job was aborted, the number of jobs that
-- run falls by one if that job ran, and grows by one if another waits.
pub on_close_counts :
    (hit : ℕ → Bool) (b : Builder) (id : ℕ) (j : JobState)
    → NoneAborted b.job_queue
    → find id b.job_queue ≡ some j
    → count_running (on_close hit b id).0.job_queue + (if runs j then 1 else 0)
      ≡ count_running b.job_queue + (if some_waits (splice_out id b.job_queue) then 1 else 0)
unfolding on_close
on_close_counts hit b id j h known = rw (known, on_close) (count-leave hit b id j _ h known)
