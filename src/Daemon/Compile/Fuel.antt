-- ===== src/Daemon/Compile/Fuel.antt =====
-- The protocol of a client's socket: the loop needs no more rounds than there are bytes.
use fisk.Base.{
  ℕ, zero, suc, ◌+◌, ◌≤◌, ◌<◌, ◌≡◌, refl, ap, ◌∙◌, ◌≢◌, ◌⊎◌, inl, inr, true, ◌||◌, Option, List,
  ◌∷◌, arith, ltb, ◌==◌, Bool-cases, Option-cases, length, take, drop, length-drop, [],
}
use fisk.Daemon.Constants
use fisk.Daemon.Compile.{slot, message, is_slot, read_uint32_be}
use fisk.Daemon.Compile.Frames.{Left, emitting, parsed, body, frame, frames}

module _ {J : Type 0} (parse : List ℕ → Option J) where
  -- Two loops that do the same on fewer bytes.
  abbrev SameBelow : ℕ → (ℕ → List ℕ → Left J) → (ℕ → List ℕ → Left J) → Type 0
  SameBelow k f g = (n : ℕ) (ys : List ℕ) → length ys < k → f n ys ≡ g n ys

  body_same :
      (k : ℕ) (f g : ℕ → List ℕ → Left J) (n : ℕ) (xs : List ℕ)
      → SameBelow k f g
      → length xs ≤ k
      → (0 < length xs) ⊎ (length xs < k)
      → body parse f n xs ≡ body parse g n xs
  unfolding body parsed
  body_same k f g n xs same few some_or = elim (Bool-cases (n == 0 || ltb (length xs) n)) [
    | inl stop ↦ rw (stop) refl
    | inr go ↦ elim (Option-cases (parse (take n xs))) [
      | inl bad ↦ rw (go, bad) refl
      | inr (m, good) ↦
          rw (go, good)
            (ap (emitting (message m)) (same 0 (drop n xs) (ground (arith, go, length-drop n xs))))
    ]
  ]

  frame_same :
      (k : ℕ) (f g : ℕ → List ℕ → Left J) (x : ℕ) (xs : List ℕ)
      → SameBelow k f g
      → length xs < k
      → frame parse f x xs ≡ frame parse g x xs
  unfolding frame
  frame_same k f g x xs same few = elim (Bool-cases (is_slot x)) [
    | inl s ↦ rw (s) (ap (emitting (slot x)) (same 0 xs few))
    | inr s ↦ elim (Bool-cases (x == Constants.json)) [
      | inr other ↦ rw (s, other) refl
      | inl json ↦ elim (Bool-cases (ltb (length xs) 4)) [
        | inl short ↦ rw (s, json, short) refl
        | inr long ↦
            rw (s, json, long)
              (body_same k f g (read_uint32_be (take 4 xs)) (drop 4 xs) same
                (omega (arith, length-drop 4 xs)) (inr (omega (arith, length-drop 4 xs))))
      ]
    ]
  ]

  -- With a round for each byte and one more the result is the same.
  pub frames_enough :
      (f g n : ℕ) (xs : List ℕ)
      → length xs < f
      → length xs < g
      → frames parse f n xs ≡ frames parse g n xs
  unfolding frames
  frames_enough zero g n xs h k = absurd (omega arith)
  frames_enough (suc f) zero n xs h k = absurd (omega arith)
  frames_enough (suc f) (suc g) n [] h k = refl
  frames_enough (suc f) (suc g) zero (x ∷ xs) h k =
      frame_same (length (x ∷ xs)) (frames parse f) (frames parse g) x xs
        (λ n ys few. frames_enough f g n ys (omega arith) (omega arith)) (omega arith)
  frames_enough (suc f) (suc g) (suc n) (x ∷ xs) h k =
      body_same (length (x ∷ xs)) (frames parse f) (frames parse g) (suc n) (x ∷ xs)
        (λ m ys few. frames_enough f g m ys (omega arith) (omega arith)) (omega arith)
        (inl (omega arith))

  -- What the bytes lead to.
  abbrev pub decode : ℕ → List ℕ → Left J
  decode n xs = frames parse (length xs + 1) n xs

  pub decode-frame : (x : ℕ) (xs : List ℕ) → decode 0 (x ∷ xs) ≡ frame parse decode x xs
  unfolding frames
  decode-frame x xs =
      frames_enough (length (x ∷ xs) + 1) (suc (length xs + 1)) 0 (x ∷ xs) (omega arith)
        (omega arith)
      ∙ frame_same (length xs + 1) (frames parse (length xs + 1)) decode x xs
          (λ n ys few. frames_enough (length xs + 1) (length ys + 1) n ys few (omega arith))
          (omega arith)

  pub decode-body : (n : ℕ) (xs : List ℕ) → n ≢ 0 → decode n xs ≡ body parse decode n xs
  unfolding frames body
  decode-body zero xs h = absurd (h refl)
  decode-body (suc n) [] h =
      let short : suc n == 0 || ltb 0 (suc n) ≡ true = ground arith in rw (short) refl
  decode-body (suc n) (x ∷ xs) h =
      frames_enough (length (x ∷ xs) + 1) (suc (length (x ∷ xs))) (suc n) (x ∷ xs) (omega arith)
        (omega arith)
      ∙ body_same (length (x ∷ xs)) (frames parse (length (x ∷ xs))) decode (suc n) (x ∷ xs)
          (λ m ys few. frames_enough (length (x ∷ xs)) (length ys + 1) m ys few (omega arith))
          (omega arith) (inl (omega arith))
