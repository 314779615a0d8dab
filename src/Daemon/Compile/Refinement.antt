-- ===== src/Daemon/Compile/Refinement.antt =====
-- `_onData` of src/daemon/Compile.ts does with its chunks what the protocol says of their bytes.
use fisk.Base.{
  ℕ, zero, suc, ◌+◌, ◌-◌, ◌≤◌, ◌<◌, ◌≡◌, refl, sym, ap, subst, ◌∙◌, ◌≢◌, true, false, Option, List,
  ◌∷◌, ◌++◌, arith, ℕ_discrete, ltb, ◌==◌, length, take, drop, ok, length-drop, [],
}
use fisk.Daemon.ClientBuffer.{write, available, peek}
use fisk.Daemon.ClientBuffer.Contents.{
  contents, IsValid, available-eq-length, contents-write, peek-eq-front, front,
}
use fisk.Daemon.ClientBuffer.Stream.{read-Takes}
use fisk.Daemon.Compile.{Compile, read_uint32_be, take_message, on_code, on_peek, loop, on_data}
use fisk.Daemon.Compile.Frames.{Left, left, body, frames}
use fisk.Daemon.Compile.Messages.{
  Matches, if_true, if_false, Agree, Agree-after, Matches-stopped, take_message-Matches,
  frame-Matches,
}

module _ {J : Type 0} (parse : List ℕ → Option J) where
  loop_frame :
      (fuel : ℕ) (c : Compile) (n code : ℕ)
      → c.message_length ≡ 0
      → peek c.buffer ≡ ok code
      → loop parse (suc fuel) (suc n) c ≡ on_code parse (loop parse fuel) (suc n) c code
  unfolding loop on_peek
  loop_frame fuel c n code z p =
      if_false (suc n == 0) _ _ (ground arith)
      ∙ if_true (c.message_length == 0) _ _ (ground (arith, z))
      ∙ ap (on_peek parse (loop parse fuel) (suc n) c) p

  loop_body :
      (fuel : ℕ) (c : Compile) (n : ℕ)
      → c.message_length ≢ 0
      → loop parse (suc fuel) (suc n) c ≡ take_message parse (loop parse fuel) (suc n) c
  unfolding loop
  loop_body fuel c n h =
      if_false (suc n == 0) _ _ (ground arith)
      ∙ if_false (c.message_length == 0) _ _ (ground (arith, h))

  frames-body :
      (fuel n : ℕ) (x : ℕ) (xs : List ℕ)
      → n ≢ 0
      → frames parse (suc fuel) n (x ∷ xs) ≡ body parse (frames parse fuel) n (x ∷ xs)
  unfolding frames
  frames-body fuel zero x xs h = absurd (h refl)
  frames-body fuel (suc n) x xs h = refl

  loop_on :
      (fuel : ℕ) (c : Compile)
      → Agree parse (loop parse fuel) (frames parse fuel)
      → IsValid c.buffer
      → (xs : List ℕ) → contents c.buffer ≡ xs
      → Matches c.pid
          (loop parse (suc fuel) (length xs) c)
          (frames parse (suc fuel) c.message_length xs)
  unfolding loop frames
  loop_on fuel c agree v [] e = Matches-stopped parse _ _ _ _ _ refl refl e v
  loop_on fuel c agree v (x ∷ xs) e = elim (ℕ_discrete c.message_length 0) [
    | yes z ↦ rw (loop_frame fuel c (length xs) x z (peek-eq-front c.buffer v ∙ ap front e)) (
        subst
          (λ k.
            Matches c.pid (on_code parse (loop parse fuel) (suc (length xs)) c x)
              (frames parse (suc fuel) k (x ∷ xs)))
          (sym z) (frame-Matches parse (loop parse fuel) (frames parse fuel) agree c x xs v e z))
    | no n ↦
        rw (loop_body fuel c (length xs) n, frames-body fuel c.message_length x xs n)
          (Agree-after parse (take_message parse (loop parse fuel)) (body parse (frames parse fuel))
            (take_message-Matches parse (loop parse fuel) (frames parse fuel) agree) c
            (suc (length xs)) (x ∷ xs) v e refl)
  ]

  -- The loop of `_onData` goes through the bytes as the protocol does.
  loop-Matches : (fuel : ℕ) → Agree parse (loop parse fuel) (frames parse fuel)
  unfolding loop frames
  loop-Matches zero c v = Matches-stopped parse _ _ _ _ _ refl refl refl v
  loop-Matches (suc fuel) c v = loop_on fuel c (loop-Matches fuel) v (contents c.buffer) refl

  -- What `_onData` does in a decoder that knows the pid, by the protocol: the chunk goes behind the
  -- bytes that are left.
  abbrev pub by_protocol : Compile → List ℕ → Left J
  by_protocol c bytes =
      let xs = contents c.buffer ++ bytes in frames parse (length xs + 1) c.message_length xs

  -- When a chunk with bytes arrives and the pid is known, `_onData` emits what the protocol says of the
  -- bytes that are left and the chunk, throws only when it says so, and leaves the bytes that it leaves.
  pub on_data-Matches :
      (c : Compile) (bytes : List ℕ)
      → IsValid c.buffer
      → 0 < length bytes
      → c.pid ≢ 0
      → Matches c.pid (on_data parse c bytes) (by_protocol c bytes)
  unfolding on_data
  on_data-Matches c bytes v p known =
      let (e, w) = contents-write c.buffer bytes v p in
      let xs = contents c.buffer ++ bytes in
      let b = write c.buffer bytes in
      let has_pid : c.pid == 0 ≡ false = ground (arith, known) in
      let size : available b ≡ length xs = available-eq-length b ∙ ap length e in
      rw (has_pid, size)
        (Agree-after parse (loop parse (length xs + 1)) (frames parse (length xs + 1))
          (loop-Matches (length xs + 1)) (record c { buffer = b }) (length xs) xs w e refl)

  -- When fewer than four bytes are there and the pid is not known, they are kept; with four or more,
  -- they are the pid, and the rest goes on by the protocol.
  pub on_data-Matches_first :
      (c : Compile) (bytes : List ℕ)
      → IsValid c.buffer
      → 0 < length bytes
      → c.pid ≡ 0
      → let xs = contents c.buffer ++ bytes in
        (length xs < 4 → Matches 0 (on_data parse c bytes) (left c.message_length xs []))
        × (4 ≤ length xs
            → Matches
                (read_uint32_be (take 4 xs))
                (on_data parse c bytes)
                (frames parse (length xs + 1) c.message_length (drop 4 xs)))
  unfolding on_data
  on_data-Matches_first c bytes v p unknown =
      let (e, w) = contents-write c.buffer bytes v p in
      let xs = contents c.buffer ++ bytes in
      let b = write c.buffer bytes in
      let has_pid : c.pid == 0 ≡ true = ground (arith, unknown) in
      let size : available b ≡ length xs = available-eq-length b ∙ ap length e in
      (
        (λ few.
            let short : ltb (available b) 4 ≡ true = ground (arith, size, few) in
            rw (has_pid, short) (Matches-stopped parse _ _ _ _ _ unknown refl e w)),
        (λ enough.
            let long : ltb (available b) 4 ≡ false = ground (arith, size, enough) in
            let (b', r, rest, w') = read-Takes b 4 w (omega arith) (omega (arith, size)) in
            let c' = record c { pid = read_uint32_be (take 4 (contents b)); buffer = b' } in
            rw (has_pid, long, r)
              (subst
                (λ ys.
                  Matches (read_uint32_be (take 4 ys))
                    (loop parse (available b + 1) (available b - 4) c')
                    (frames parse (length xs + 1) c.message_length (drop 4 xs)))
                e
                (subst
                  (λ k.
                    Matches (read_uint32_be (take 4 (contents b)))
                      (loop parse (available b + 1) (available b - 4) c')
                      (frames parse (k + 1) c.message_length (drop 4 xs)))
                  size
                  (Agree-after parse (loop parse (available b + 1)) (frames parse (available b + 1))
                    (loop-Matches (available b + 1)) c' (available b - 4) (drop 4 xs) w'
                    (rest ∙ ap (drop 4) e) (omega (arith, size, length-drop 4 xs)))))),
      )
