-- ===== src/Daemon/ClientBuffer/Examples.antt =====
-- A buffer of three chunks, and the theorems on it.
use fisk.Base.{◌≤◌, ◌≡◌, refl, [], ◌∷◌, arith, ok}
use fisk.Daemon.ClientBuffer.{ClientBuffer, available, total_length, read}
use fisk.Daemon.ClientBuffer.Contents.{IsValid}
use fisk.Daemon.ClientBuffer.Stream.{Takes, read-Takes}

abbrev three : ClientBuffer
three = record { buffers = (1 ∷ 2 ∷ 3 ∷ []) ∷ (4 ∷ []) ∷ (5 ∷ 6 ∷ []) ∷ []; offset = 1 }

three-IsValid : IsValid three
three-IsValid = (omega arith, (omega arith, (omega arith, tt)))

-- A read over the end of two chunks.
read_across :
    read three 4 ≡ ok (2 ∷ 3 ∷ 4 ∷ 5 ∷ [], record { buffers = (5 ∷ 6 ∷ []) ∷ []; offset = 1 })
unfolding read available total_length
read_across = refl

enough : 4 ≤ available three
unfolding available total_length
enough = omega arith

read-Takes_example : Takes 4 (2 ∷ 3 ∷ 4 ∷ 5 ∷ 6 ∷ []) (read three 4)
read-Takes_example = read-Takes three 4 three-IsValid (omega arith) enough
