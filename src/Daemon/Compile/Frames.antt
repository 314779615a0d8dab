-- ===== src/Daemon/Compile/Frames.antt =====
-- The protocol of a client's socket, apart from how the bytes are stored: what the bytes that have
-- arrived lead to, and how messages are written.
use fisk.Base.{
  ℕ, zero, suc, ◌||◌, Option, none, some, List, ◌∷◌, ltb, ◌==◌, if◌then◌else◌, length, take, drop,
  [],
}
use fisk.Daemon.Constants
use fisk.Daemon.Compile.{
  Emitted, slot, message, destroyed, thrown, unexpected_type, is_slot, read_uint32_be,
}

-- What is left: the length of the message that has begun, the bytes, and what was emitted.
pub record Left (J : Type 0) : Type 0 where
  pub message_length : ℕ
  pub bytes : List ℕ
  pub emitted : List (Emitted J)

abbrev pub emitting : {J : Type 0} → Emitted J → Left J → Left J
emitting e l = record l { emitted = e ∷ l.emitted }

abbrev pub left : {J : Type 0} → ℕ → List ℕ → List (Emitted J) → Left J
left n xs out = record { message_length = n; bytes = xs; emitted = out }

module _ {J : Type 0} (parse : List ℕ → Option J) where
  unfoldable pub parsed : (ℕ → List ℕ → Left J) → Option J → List ℕ → Left J
  parsed again none rest = left 0 rest (destroyed ∷ [])
  parsed again (some m) rest = emitting (message m) (again 0 rest)

  unfoldable pub body : (ℕ → List ℕ → Left J) → ℕ → List ℕ → Left J
  unfolding parsed
  body again n xs =
      if n == 0 || ltb (length xs) n
      then left n xs []
      else parsed again (parse (take n xs)) (drop n xs)

  unfoldable pub frame : (ℕ → List ℕ → Left J) → ℕ → List ℕ → Left J
  unfolding body is_slot read_uint32_be
  frame again code xs =
      if is_slot code
      then emitting (slot code) (again 0 xs)
      else if code == Constants.json
      then (if ltb (length xs) 4
          then left 0 (code ∷ xs) []
          else body again (read_uint32_be (take 4 xs)) (drop 4 xs))
      else left 0 (code ∷ xs) (thrown (unexpected_type code) ∷ [])

  unfoldable pub frames : ℕ → ℕ → List ℕ → Left J
  unfolding body frame
  frames zero n xs = left n xs []
  frames (suc fuel) n [] = left n [] []
  frames (suc fuel) zero (x ∷ xs) = frame (frames fuel) x xs
  frames (suc fuel) (suc n) (x ∷ xs) = body (frames fuel) (suc n) (x ∷ xs)
