-- ===== src/Builder/JobQueue/Order.antt =====
-- The order of the job queue, and what the "headers" handler tells a client about its place in it.
use fisk.Base.{
  ℕ, zero, suc, ◌+◌, ◌-◌, ◌≤◌, ◌<◌, ◌≡◌, refl, ap, ◌∙◌, false, ◌||◌, List, [], ◌∷◌, ◌++◌, arith,
  dec_le, ltb, leb, if◌then◌else◌, length, take, drop,
}
use fisk.Builder.JobQueue.{
  JobState, Builder, priority_at, position, splice_in, scan_wait, on_headers,
}

-- Every job of the list has at most this priority.
abbrev pub AllAtMost : ℕ → List JobState → Type 0
AllAtMost p [] = Unit {0}
AllAtMost p (j ∷ js) = (j.priority ≤ p) × AllAtMost p js

-- The queue descends in priority.
abbrev pub IsOrdered : List JobState → Type 0
IsOrdered [] = Unit {0}
IsOrdered (j ∷ js) = AllAtMost j.priority js × IsOrdered js

position-le : (q : List JobState) (p n : ℕ) → position q p n ≤ n
unfolding position
position-le q p zero = omega arith
position-le q p (suc n) = ground (arith, position-le q p n)

scan_wait-step :
    (q : List JobState) (p s k : ℕ)
    → scan_wait q p s k ≡ ltb s (position q p (s + k))
    → scan_wait q p s (suc k) ≡ ltb s (position q p (suc (s + k)))
unfolding scan_wait position
scan_wait-step q p s k h = ground (arith, h)

scan_wait-eq-position :
    (q : List JobState) (p s k : ℕ) → scan_wait q p s k ≡ ltb s (position q p (s + k))
unfolding scan_wait position
scan_wait-eq-position q p s zero = ground (arith, position-le q p s)
scan_wait-eq-position q p s (suc k) =
    scan_wait-step q p s k (scan_wait-eq-position q p s k)
    ∙ ap (λ n. ltb s (position q p n)) {x = suc (s + k)} {y = s + suc k} (omega arith)

-- Without a cached object, the client is told to wait exactly when the place of its job in the queue
-- would be further back than the number of slots.
pub on_headers_lem :
    (b : Builder) (p : ℕ)
    → on_headers b false p ≡ ltb b.slots (position b.job_queue p (length b.job_queue))
unfolding on_headers
on_headers_lem b p = elim (dec_le b.slots (length b.job_queue)) [
  | yes full ↦ ground (
    arith,
    scan_wait-eq-position b.job_queue p b.slots (length b.job_queue - b.slots),
    ap (position b.job_queue p) {x = b.slots + (length b.job_queue - b.slots)}
        {y = length b.job_queue} (omega arith),
  )
  | no room ↦ ground (arith, position-le b.job_queue p (length b.job_queue))
]

AllAtMost-weaken : (p r : ℕ) (q : List JobState) → p ≤ r → AllAtMost p q → AllAtMost r q
AllAtMost-weaken p r [] le h = tt
AllAtMost-weaken p r (j ∷ js) le h = (omega (arith, h.0), AllAtMost-weaken p r js le h.1)

-- Insertion by the front: the same place.
unfoldable insert : JobState → List JobState → List JobState
insert j [] = j ∷ []
insert j (k ∷ ks) = if leb j.priority k.priority then k ∷ insert j ks else j ∷ k ∷ ks

position-cons :
    (k : JobState) (q : List JobState) (p n : ℕ)
    → position (k ∷ q) p (suc n)
      ≡ (if leb p k.priority || ltb 0 (position q p n) then suc (position q p n) else 0)
unfolding position priority_at
position-cons k q p zero = ground arith
position-cons k q p (suc n) = ground (arith, position-cons k q p n)

-- In a list below the priority the job goes to the front.
priority_at-below : (q : List JobState) (r i : ℕ) → AllAtMost r q → priority_at q i ≤ r
unfolding priority_at
priority_at-below [] r i h = omega arith
priority_at-below (k ∷ ks) r zero h = h.0
priority_at-below (k ∷ ks) r (suc i) h = priority_at-below ks r i h.1

position-below : (q : List JobState) (p r n : ℕ) → r < p → AllAtMost r q → position q p n ≡ 0
unfolding position
position-below q p r zero lt h = omega arith
position-below q p r (suc n) lt h =
    ground (arith, position-below q p r n lt h, priority_at-below q r n h)

splice_in-cons-below :
    (j k : JobState) (q : List JobState)
    → k.priority < j.priority
    → AllAtMost k.priority q
    → splice_in j (k ∷ q) ≡ j ∷ k ∷ q
unfolding splice_in
splice_in-cons-below j k q lt h =
    ap (λ n. take n (k ∷ q) ++ j ∷ drop n (k ∷ q))
      (position-below (k ∷ q) j.priority k.priority (suc (length q)) lt (omega arith, h))

splice_in-cons-above :
    (j k : JobState) (q : List JobState)
    → j.priority ≤ k.priority
    → splice_in j (k ∷ q) ≡ k ∷ splice_in j q
unfolding splice_in
splice_in-cons-above j k q le =
    ap (λ n. take n (k ∷ q) ++ j ∷ drop n (k ∷ q))
      {x = position (k ∷ q) j.priority (suc (length q))}
      {y = suc (position q j.priority (length q))}
      (ground (arith, position-cons k q j.priority (length q)))

splice_in-eq-insert : (j : JobState) (q : List JobState) → IsOrdered q → splice_in j q ≡ insert j q
unfolding insert splice_in position
splice_in-eq-insert j [] h = refl
splice_in-eq-insert j (k ∷ ks) h = elim (dec_le j.priority k.priority) [
  | yes le ↦
      splice_in-cons-above j k ks le ∙ ground (arith, ap (◌∷◌ k) (splice_in-eq-insert j ks h.1))
  | no gt ↦ splice_in-cons-below j k ks (omega arith) h.0 ∙ ground arith
]

AllAtMost-insert :
    (p : ℕ) (j : JobState) (q : List JobState)
    → j.priority ≤ p
    → AllAtMost p q
    → AllAtMost p (insert j q)
unfolding insert
AllAtMost-insert p j [] le h = (le, tt)
AllAtMost-insert p j (k ∷ ks) le h = ground (arith, AllAtMost-insert p j ks le h.1)

IsOrdered-insert : (j : JobState) (q : List JobState) → IsOrdered q → IsOrdered (insert j q)
unfolding insert
IsOrdered-insert j [] h = (tt, tt)
IsOrdered-insert j (k ∷ ks) h = ground (
  arith,
  AllAtMost-insert k.priority j ks,
  AllAtMost-weaken k.priority j.priority ks,
  IsOrdered-insert j ks h.1,
)

-- A queue in descending priority is so still with a new job in it.
pub splice_in-IsOrdered :
    (j : JobState) (q : List JobState) → IsOrdered q → IsOrdered (splice_in j q)
splice_in-IsOrdered j q h = rw (splice_in-eq-insert j q h) (IsOrdered-insert j q h)
