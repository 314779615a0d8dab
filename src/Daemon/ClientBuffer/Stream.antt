-- ===== src/Daemon/ClientBuffer/Stream.antt =====
-- src/daemon/ClientBuffer.ts: reading takes bytes from the front of the stream, and the chunks in
-- which they arrived cannot be told.
use fisk.Base.{
  ℕ, zero, suc, ◌+◌, ◌-◌, ◌≤◌, ◌<◌, ◌≡◌, refl, sym, ap, ◌∙◌, List, [], ◌∷◌, ◌++◌, append-nil, arith,
  dec_lt, dec_le, ℕ_discrete, length, take, drop, length-append, ok, err, length-drop, drop-drop,
  take-append_of_le, drop-append_of_le, take-append_of_ge, drop-append_of_ge,
}
use fisk.Daemon.ClientBuffer.{
  ClientBuffer, zero_length, not_that_many, Filled, put_before, available, fill, read_from, read,
}
use fisk.Daemon.ClientBuffer.Contents.{
  flatten, contents, AllFilled, StartsWithin, IsValid, available-eq-length,
}

-- A read that takes `n` bytes from the stream `xs`.
abbrev pub Takes : ℕ → List ℕ → Filled → Type 0
Takes n xs r = (b : ClientBuffer) × (r ≡ ok (take n xs, b)) × (contents b ≡ drop n xs) × IsValid b

AllFilled-StartsWithin : (bufs : List (List ℕ)) → AllFilled bufs → StartsWithin 0 bufs
AllFilled-StartsWithin [] h = refl
AllFilled-StartsWithin (buf ∷ bufs) h = h

-- A read that begins with all of `xs` goes on with what follows.
Takes-append :
    (xs ys : List ℕ) (n : ℕ) (r : Filled)
    → length xs ≤ n
    → Takes (n - length xs) ys r
    → Takes n (xs ++ ys) (put_before xs r)
Takes-append xs ys n r h (b, e, c, v) =
    (b, rw (e, take-append_of_ge n xs ys h), c ∙ sym (drop-append_of_ge n xs ys h), v)

fill_whole :
    (buf : List ℕ) (bufs : List (List ℕ)) (n : ℕ)
    → 0 < n
    → length buf ≤ n
    → fill (buf ∷ bufs) n ≡ put_before buf (fill bufs (n - length buf))
unfolding fill
fill_whole buf bufs n p h = ground arith

fill_part :
    (buf : List ℕ) (bufs : List (List ℕ)) (n : ℕ)
    → 0 < n
    → n < length buf
    → fill (buf ∷ bufs) n ≡ ok (take n buf, record { buffers = buf ∷ bufs; offset = n })
unfolding fill
fill_part buf bufs n p h = ground arith

fill-Takes :
    (bufs : List (List ℕ)) (needed : ℕ)
    → AllFilled bufs
    → needed ≤ length (flatten bufs)
    → Takes needed (flatten bufs) (fill bufs needed)
unfolding fill
fill-Takes [] zero h n = (record { buffers = []; offset = 0 }, refl, refl, refl)
fill-Takes [] (suc k) h n = absurd (omega arith)
fill-Takes (buf ∷ bufs) zero h n = (record { buffers = buf ∷ bufs; offset = 0 }, refl, refl, h)
fill-Takes (buf ∷ bufs) (suc k) h n = elim (dec_le (length buf) (suc k)) [
  | yes small ↦ rw (fill_whole buf bufs (suc k) (omega arith) small) (
      Takes-append buf (flatten bufs) (suc k) _ small (
        fill-Takes bufs (suc k - length buf) h.1 (omega (arith, length-append buf (flatten bufs)))))
  | no large ↦
      let part : suc k < length buf = omega arith in
      (
        record { buffers = buf ∷ bufs; offset = suc k },
        fill_part buf bufs (suc k) (omega arith) part
            ∙ ap (λ xs. ok (xs, record { buffers = buf ∷ bufs; offset = suc k }))
                (sym (take-append_of_le (suc k) buf (flatten bufs) (omega arith))),
        refl,
        (part, h.1),
      )
]

-- The three ways out of `read` with enough bytes: the rest of the first chunk, a part of it, or more.
read_from_rest :
    (offset : ℕ) (buf : List ℕ) (bufs : List (List ℕ)) (len : ℕ)
    → length buf - offset ≡ len
    → read_from offset (buf ∷ bufs) len
      ≡ ok (drop offset buf, record { buffers = bufs; offset = 0 })
unfolding read_from
read_from_rest offset buf bufs len h = ground arith

read_from_part :
    (offset : ℕ) (buf : List ℕ) (bufs : List (List ℕ)) (len : ℕ)
    → len < length buf - offset
    → read_from offset (buf ∷ bufs) len
      ≡ ok (take len (drop offset buf), record { buffers = buf ∷ bufs; offset = offset + len })
unfolding read_from
read_from_part offset buf bufs len h = ground arith

read_from_more :
    (offset : ℕ) (buf : List ℕ) (bufs : List (List ℕ)) (len : ℕ)
    → length buf - offset < len
    → read_from offset (buf ∷ bufs) len
      ≡ put_before (drop offset buf) (fill bufs (len - (length buf - offset)))
unfolding read_from
read_from_more offset buf bufs len h = ground arith

read_from-Takes :
    (offset : ℕ) (buf : List ℕ) (bufs : List (List ℕ)) (len : ℕ)
    → StartsWithin offset (buf ∷ bufs)
    → 0 < len
    → len ≤ length (drop offset buf ++ flatten bufs)
    → Takes len (drop offset buf ++ flatten bufs) (read_from offset (buf ∷ bufs) len)
read_from-Takes offset buf bufs len v p n =
    let whole = drop-append_of_le offset buf (flatten bufs) (omega arith) in
    let size = length-drop offset buf in
    elim (dec_lt len (length buf - offset)) [
      | yes part ↦
          let inside : len ≤ length (drop offset buf) = omega (arith, length-drop offset buf) in
          (
            record { buffers = buf ∷ bufs; offset = offset + len },
            read_from_part offset buf bufs len part
                ∙ ap (λ xs. ok (xs, record { buffers = buf ∷ bufs; offset = offset + len }))
                    (sym (take-append_of_le len (drop offset buf) (flatten bufs) inside)),
            rw (← whole) (sym (drop-drop len offset (buf ++ flatten bufs))),
            (omega arith, v.1),
          )
      | no past ↦ elim (ℕ_discrete (length buf - offset) len) [
        | yes all ↦
            let end : len - length (drop offset buf) ≡ 0 = omega (arith, size) in
            let after : ClientBuffer = record { buffers = bufs; offset = 0 } in
            rw (read_from_rest offset buf bufs len all) (
              rw (append-nil (drop offset buf)) at (
                Takes-append (drop offset buf) (flatten bufs) len (ok ([], after))
                  (omega (arith, size))
                  (rw end (after, refl, refl, AllFilled-StartsWithin bufs v.1))))
        | no beyond ↦
            rw (read_from_more offset buf bufs len (omega arith), ← size)
              (Takes-append (drop offset buf) (flatten bufs) len _ (omega (arith, size)) (
                fill-Takes bufs (len - length (drop offset buf)) v.1
                  (omega (arith, size, length-append (drop offset buf) (flatten bufs)))))
      ]
    ]

read-eq :
    (b : ClientBuffer) (len : ℕ)
    → 0 < len
    → len ≤ available b
    → read b len ≡ read_from b.offset b.buffers len
unfolding read
read-eq b len p n = ground arith

nonempty_read :
    (offset : ℕ) (bufs : List (List ℕ)) (len : ℕ)
    → StartsWithin offset bufs
    → 0 < len
    → len ≤ length (drop offset (flatten bufs))
    → Takes len (drop offset (flatten bufs)) (read_from offset bufs len)
nonempty_read offset [] len v p n = absurd (omega (arith, length-drop {A = ℕ} offset []))
nonempty_read offset (buf ∷ bufs) len v p n =
    let whole = drop-append_of_le offset buf (flatten bufs) (omega arith) in
    rw whole (read_from-Takes offset buf bufs len v p (rw whole at n))

-- In a valid buffer a read of some bytes, no more than there are, returns the next ones of the
-- stream in their order, leaves the others, and keeps the buffer valid.
pub read-Takes :
    (b : ClientBuffer) (len : ℕ)
    → IsValid b
    → 0 < len
    → len ≤ available b
    → Takes len (contents b) (read b len)
read-Takes b len v p n =
    rw (read-eq b len p n)
      (nonempty_read b.offset b.buffers len v p (omega (arith, available-eq-length b)))

-- A read of no bytes throws, and so does one of more than there are.
pub read_errors :
    (b : ClientBuffer) (len : ℕ)
    → (read b 0 ≡ err zero_length) × (available b < len → read b len ≡ err not_that_many)
unfolding read
read_errors b len = (refl, λ h. ground arith)
