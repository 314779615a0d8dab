-- ===== src/Daemon/ClientBuffer/Contents.antt =====
-- src/daemon/ClientBuffer.ts: the bytes of a buffer that are still to be read, which a write
-- appends to and a peek shows the first of.
use fisk.Base.{
  ℕ, zero, suc, ◌+◌, ◌≤◌, ◌<◌, ◌≡◌, refl, sym, List, [], ◌∷◌, ◌++◌, append-nil, append_assoc, arith,
  ℕ_discrete, length, drop, length-append, Result, ok, err, length-drop, drop-append_of_le,
}
use fisk.Daemon.ClientBuffer.{
  ClientBuffer, Error, no_data_available, total_length, available, write, byte_at, first_byte, peek,
}

abbrev pub flatten : List (List ℕ) → List ℕ
flatten [] = []
flatten (buf ∷ bufs) = buf ++ flatten bufs

-- The bytes that are still to be read.
abbrev pub contents : ClientBuffer → List ℕ
contents b = drop b.offset (flatten b.buffers)

abbrev pub AllFilled : List (List ℕ) → Type 0
AllFilled [] = Unit {0}
AllFilled (buf ∷ bufs) = (0 < length buf) × AllFilled bufs

abbrev pub StartsWithin : ℕ → List (List ℕ) → Type 0
StartsWithin offset [] = offset ≡ 0
StartsWithin offset (buf ∷ bufs) = (offset < length buf) × AllFilled bufs

-- No chunk is empty, and the offset is a place in the first one.
abbrev pub IsValid : ClientBuffer → Type 0
IsValid b = StartsWithin b.offset b.buffers

total_length-flatten :
    (n : ℕ) (bufs : List (List ℕ)) → total_length n bufs ≡ n + length (flatten bufs)
unfolding total_length
total_length-flatten n [] = omega arith
total_length-flatten n (buf ∷ bufs) =
    omega (arith, total_length-flatten (n + length buf) bufs, length-append buf (flatten bufs))

-- `available` counts the bytes that are still to be read.
pub available-eq-length : (b : ClientBuffer) → available b ≡ length (contents b)
unfolding available
available-eq-length b =
    omega (arith, total_length-flatten 0 b.buffers, length-drop b.offset (flatten b.buffers))

flatten-append : (xs ys : List (List ℕ)) → flatten (xs ++ ys) ≡ flatten xs ++ flatten ys
flatten-append [] ys = refl
flatten-append (x ∷ xs) ys =
    rw (flatten-append xs ys) (sym (append_assoc x (flatten xs) (flatten ys)))

AllFilled-append :
    (bufs : List (List ℕ)) (chunk : List ℕ)
    → AllFilled bufs
    → 0 < length chunk
    → AllFilled (bufs ++ chunk ∷ [])
AllFilled-append [] chunk h n = (n, tt)
AllFilled-append (buf ∷ bufs) chunk h n = (h.0, AllFilled-append bufs chunk h.1 n)

write-IsValid :
    (offset : ℕ) (bufs : List (List ℕ)) (chunk : List ℕ)
    → StartsWithin offset bufs
    → 0 < length chunk
    → StartsWithin offset (bufs ++ chunk ∷ [])
write-IsValid offset [] chunk h n = (omega arith, tt)
write-IsValid offset (buf ∷ bufs) chunk h n = (h.0, AllFilled-append bufs chunk h.1 n)

pub offset-le :
    (offset : ℕ) (bufs : List (List ℕ)) → StartsWithin offset bufs → offset ≤ length (flatten bufs)
offset-le offset [] h = omega arith
offset-le offset (buf ∷ bufs) h = omega (arith, length-append buf (flatten bufs))

-- In a valid buffer a chunk with bytes that arrives goes to the end of the stream, and the buffer
-- stays valid.
pub contents-write :
    (b : ClientBuffer) (chunk : List ℕ)
    → IsValid b
    → 0 < length chunk
    → (contents (write b chunk) ≡ contents b ++ chunk) × IsValid (write b chunk)
unfolding write
contents-write b chunk v n = (
  rw (flatten-append b.buffers (chunk ∷ []), append-nil chunk)
      (drop-append_of_le b.offset (flatten b.buffers) chunk (offset-le b.offset b.buffers v)),
  write-IsValid b.offset b.buffers chunk v n,
)

abbrev pub front : List ℕ → Result Error ℕ
front [] = err no_data_available
front (x ∷ xs) = ok x

byte_at-eq-front :
    (xs ys : List ℕ) (i : ℕ) → i < length xs → byte_at xs i ≡ front (drop i (xs ++ ys))
byte_at-eq-front [] ys i h = absurd (omega arith)
byte_at-eq-front (x ∷ xs) ys zero h = refl
byte_at-eq-front (x ∷ xs) ys (suc i) h = byte_at-eq-front xs ys i (omega arith)

first_byte-eq-front :
    (offset : ℕ) (bufs : List (List ℕ))
    → StartsWithin offset bufs
    → 0 < length (drop offset (flatten bufs))
    → first_byte bufs offset ≡ front (drop offset (flatten bufs))
first_byte-eq-front offset [] v n = absurd (omega (arith, length-drop {A = ℕ} offset []))
first_byte-eq-front offset (buf ∷ bufs) v n = byte_at-eq-front buf (flatten bufs) offset v.0

front_empty : (xs : List ℕ) → length xs ≡ 0 → front xs ≡ err no_data_available
front_empty [] h = refl
front_empty (x ∷ xs) h = absurd (omega arith)

-- In a valid buffer a peek shows the first byte of the stream, and throws when there is none.
pub peek-eq-front : (b : ClientBuffer) → IsValid b → peek b ≡ front (contents b)
unfolding peek
peek-eq-front b v =
    let size = available-eq-length b in
    elim (ℕ_discrete (available b) 0) [
      | yes none_left ↦ ground (arith, front_empty (contents b) (omega (arith, size)))
      | no some_left ↦
          ground (arith, first_byte-eq-front b.offset b.buffers v (omega (arith, size)))
    ]
