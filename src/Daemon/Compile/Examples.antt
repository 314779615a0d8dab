-- ===== src/Daemon/Compile/Examples.antt =====
-- A client that acquires a slot, sends JSON and releases the slot, in chunks that cut the pid and the
-- JSON; and JSON of no bytes, after which the decoder waits although a message is there.
use fisk.Base.{ℕ, ◌≡◌, refl, Option, some, List, ◌∷◌, map, arith, []}
use fisk.Daemon.ClientBuffer
use fisk.Daemon.ClientBuffer.{write, available, peek, read, read_from, fill, total_length}
use fisk.Daemon.Compile.{
  Compile, create, on_data, loop, on_peek, on_code, on_json, take_message, is_slot, read_uint32_be,
}
use fisk.Daemon.Compile.Encoding.{ClientMessage, code, json, encode, framed, uint32_be, expected}
use fisk.Daemon.Compile.RoundTrip.{encode_all}
use fisk.Daemon.Compile.Delivery.{on_all, on_all-encode_all}
use fisk.Daemon.Compile.Messages.{Matches}
use fisk.Daemon.Compile.Refinement.{by_protocol, on_data-Matches}

-- JSON.parse, of texts that do not begin with a brace that is not closed: here, anything parses.
abbrev parse : List ℕ → Option (List ℕ)
parse xs = some xs

abbrev said : List ClientMessage
said = code 1 ∷ json (123 ∷ 125 ∷ []) ∷ code 3 ∷ []

abbrev chunks : List (List ℕ)
chunks = (0 ∷ 0 ∷ []) ∷ (4 ∷ 210 ∷ 1 ∷ 5 ∷ 0 ∷ []) ∷ (0 ∷ 0 ∷ 2 ∷ 123 ∷ []) ∷ (125 ∷ 3 ∷ []) ∷ []

on_all-encode_all_example : (on_all parse create chunks).1 ≡ map (expected parse) said
unfolding encode_all encode framed uint32_be read_uint32_be is_slot
on_all-encode_all_example =
    on_all-encode_all parse chunks said (0 ∷ 0 ∷ 4 ∷ 210 ∷ [])
      (omega arith, (omega arith, (omega arith, (omega arith, tt))))
      (refl, ((omega arith, (omega arith, (123 ∷ 125 ∷ [], refl))), (refl, tt))) refl
      (λ e. omega arith) refl

abbrev known : Compile
known = record create { pid = 1234 }

on_data-Matches_example :
    Matches 1234 (on_data parse known (1 ∷ 3 ∷ [])) (by_protocol parse known (1 ∷ 3 ∷ []))
unfolding create ClientBuffer.create
on_data-Matches_example =
    on_data-Matches parse known (1 ∷ 3 ∷ []) refl (omega arith) (λ e. omega arith)

-- The release that follows empty JSON in the same chunk is not emitted.
stalled : (on_data parse known (5 ∷ 0 ∷ 0 ∷ 0 ∷ 0 ∷ 3 ∷ [])).1 ≡ []
unfolding on_data loop on_peek on_code on_json take_message is_slot read_uint32_be create
    ClientBuffer.create write available total_length peek read read_from fill
stalled = refl
