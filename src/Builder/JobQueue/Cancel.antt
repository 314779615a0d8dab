-- ===== src/Builder/JobQueue/Cancel.antt =====
-- What the "close" handler of a job tells the compile.
use fisk.Base.{
  ℕ, ◌≡◌, refl, ◌∙◌, inl, inr, Bool, true, false, Option, none, some, List, [], ◌∷◌, ◌++◌, arith,
  Option-cases,
}
use fisk.Builder.JobQueue.{
  JobState, Builder, Sent, cancelled, feed_buffer, resume_waiting, start, start_pending, find,
  splice_out, leave, cancel, aborted_message, on_close,
}

unfoldable pub any_cancelled : List Sent → Bool
any_cancelled [] = false
any_cancelled (cancelled n ∷ out) = true
any_cancelled (s ∷ out) = any_cancelled out

any_cancelled-buffer :
    (id : ℕ) (o : Option ℕ) (w : Bool)
    → any_cancelled (feed_buffer id o ++ resume_waiting id w) ≡ false
unfolding any_cancelled feed_buffer resume_waiting
any_cancelled-buffer id none true = refl
any_cancelled-buffer id none false = refl
any_cancelled-buffer id (some n) true = refl
any_cancelled-buffer id (some n) false = refl

any_cancelled-start : (hit : Bool) (j : JobState) → any_cancelled (start hit j).1 ≡ false
unfolding start any_cancelled
any_cancelled-start hit j = ground (arith, any_cancelled-buffer j.id j.buffer j.wait)

any_cancelled-start_pending :
    (hit : ℕ → Bool) (q : List JobState) → any_cancelled (start_pending hit q).1 ≡ false
unfolding start_pending any_cancelled
any_cancelled-start_pending hit [] = refl
any_cancelled-start_pending hit (j ∷ js) =
    ground (arith, any_cancelled-start (hit j.id) j, any_cancelled-start_pending hit js)

any_cancelled-aborted_message :
    (j : JobState) (out : List Sent) → any_cancelled (aborted_message j ++ out) ≡ any_cancelled out
unfolding aborted_message any_cancelled
any_cancelled-aborted_message j out = ground arith

-- No compile is ever cancelled when a client's connection closes.
pub on_close_never_cancels :
    (hit : ℕ → Bool) (b : Builder) (id : ℕ) → any_cancelled (on_close hit b id).1 ≡ false
unfolding on_close leave cancel aborted_message any_cancelled
on_close_never_cancels hit b id = elim (Option-cases (find id b.job_queue)) [
  | inl missing ↦ ground (arith, missing)
  | inr (j, known) ↦
      rw (known, on_close)
        (any_cancelled-aborted_message j _
          ∙ any_cancelled-start_pending hit (splice_out id b.job_queue))
]
