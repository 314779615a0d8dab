-- ===== src/Daemon/ClientBuffer.antt =====
-- src/daemon/ClientBuffer.ts: the chunks that arrived on a socket, read from `offset` in the first
-- one. A chunk is the list of its bytes; `allocUnsafe` and `copy` build the result by appending.
pub mod Contents
pub mod Stream
mod Examples
use fisk.Base.{
  ℕ, zero, suc, ◌+◌, ◌-◌, List, [], ◌∷◌, ◌++◌, ltb, leb, ◌==◌, if◌then◌else◌, length, take, drop,
  Result, ok, err,
}

pub record ClientBuffer : Type 0 where
  pub buffers : List (List ℕ)
  pub offset : ℕ

-- The errors that `peek` and `read` throw. The last one is the TypeError of a loop that runs out of
-- chunks.
pub data Error : Type 0 where
  no_data_available zero_length not_that_many type_error : Error

unfoldable pub create : ClientBuffer
create = record { buffers = []; offset = 0 }

-- buffers.reduce((total, buf) => total + buf.length, 0)
unfoldable pub total_length : ℕ → List (List ℕ) → ℕ
total_length total [] = total
total_length total (buf ∷ bufs) = total_length (total + length buf) bufs

unfoldable pub available : ClientBuffer → ℕ
available b = total_length 0 b.buffers - b.offset

unfoldable pub write : ClientBuffer → List ℕ → ClientBuffer
write b buffer = record b { buffers = b.buffers ++ buffer ∷ [] }

abbrev pub byte_at : List ℕ → ℕ → Result Error ℕ
byte_at [] i = err type_error
byte_at (x ∷ xs) zero = ok x
byte_at (x ∷ xs) (suc i) = byte_at xs i

abbrev pub first_byte : List (List ℕ) → ℕ → Result Error ℕ
first_byte [] i = err type_error
first_byte (buf ∷ bufs) i = byte_at buf i

unfoldable pub peek : ClientBuffer → Result Error ℕ
peek b = if available b == 0 then err no_data_available else first_byte b.buffers b.offset

-- What the while loop returns: the bytes, the chunks that are left, and the new offset.
abbrev pub Filled : Type 0
Filled = Result Error (List ℕ × ClientBuffer)

abbrev pub put_before : List ℕ → Filled → Filled
put_before xs (ok (ys, b)) = ok (xs ++ ys, b)
put_before xs (err e) = err e

-- The loop of `read` after the first chunk: `needed` bytes are missing.
unfoldable pub fill : List (List ℕ) → ℕ → Filled
fill [] needed =
    if needed == 0 then ok ([], record { buffers = []; offset = 0 }) else err type_error
fill (buf ∷ bufs) needed =
    let rest = put_before buf (fill bufs (needed - length buf)) in
    if needed == 0
    then ok ([], record { buffers = buf ∷ bufs; offset = 0 })
    else if leb (length buf) needed
    then rest
    else ok (take needed buf, record { buffers = buf ∷ bufs; offset = needed })

unfoldable pub read_from : ℕ → List (List ℕ) → ℕ → Filled
read_from offset [] len = err type_error
read_from offset (buf ∷ bufs) len =
    if leb len (length buf - offset)
    then (if length buf - offset == len
        then ok (drop offset buf, record { buffers = bufs; offset = 0 })
        else ok
            (take len (drop offset buf), record { buffers = buf ∷ bufs; offset = offset + len }))
    else put_before (drop offset buf) (fill bufs (len - (length buf - offset)))

unfoldable pub read : ClientBuffer → ℕ → Filled
unfolding read_from fill
read b len =
    if len == 0
    then err zero_length
    else if ltb (available b) len
    then err not_that_many
    else read_from b.offset b.buffers len
