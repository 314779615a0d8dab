-- ===== src/Daemon/Compile.antt =====
-- src/daemon/Compile.ts: the messages of a client's socket. JSON.parse and the access of
-- the type of what it returns are the parameter `parse`, none when either throws, as the access does
-- for null; a pid of 0 is one that is not known yet. What the handlers of an emitted event do is left to Handlers: that
-- one of them throws is left out here. What `_onData` throws ends it.
pub mod Frames
pub mod Delivery
pub mod Encoding
pub mod Fuel
pub mod Messages
pub mod Refinement
pub mod RoundTrip
mod Examples
use fisk.Base.{
  ℕ, zero, suc, ◌+◌, ◌-◌, ◌*◌, Bool, ◌||◌, Option, none, some, List, ◌∷◌, ltb, ◌==◌, if◌then◌else◌,
  Result, ok, err, [],
}
use fisk.Daemon.Constants
use fisk.Daemon.ClientBuffer.{ClientBuffer, write, available, peek, read}
use fisk.Daemon.ClientBuffer

pub record Compile : Type 0 where
  pub pid : ℕ
  pub message_length : ℕ
  pub buffer : ClientBuffer

pub data Error : Type 0 where
  buffer_error : ClientBuffer.Error → Error
  unexpected_type : ℕ → Error

-- What a chunk of data leads to: the events of slots by their codes, the JSON messages, the end of a
-- connection that sent bad JSON, and an exception.
pub data Emitted (J : Type 0) : Type 0 where
  slot : ℕ → Emitted J
  message : J → Emitted J
  destroyed : Emitted J
  thrown : Error → Emitted J

abbrev pub Done : Type 0 → Type 0
Done J = Compile × List (Emitted J)

unfoldable pub create : Compile
create = record { pid = 0; message_length = 0; buffer = ClientBuffer.create }

-- readUInt32BE
unfoldable pub read_uint32_be : List ℕ → ℕ
read_uint32_be (a ∷ b ∷ c ∷ d ∷ xs) = a * 16777216 + (b * 65536 + (c * 256 + d))
read_uint32_be xs = 0

-- The codes that stand for themselves.
unfoldable pub is_slot : ℕ → Bool
is_slot code =
    code == Constants.acquire_cpp_slot
    || code == Constants.acquire_compile_slot
    || code == Constants.release_cpp_slot
    || code == Constants.release_compile_slot
    || code == Constants.acquire_slot
    || code == Constants.release_local_slot

abbrev pub then_emit : {J : Type 0} → Emitted J → Done J → Done J
then_emit e (c, out) = (c, e ∷ out)

module _ {J : Type 0} (parse : List ℕ → Option J) where
  -- The end of the loop's body: the message, if all of it is there. `again` is the loop.
  unfoldable pub take_message : (ℕ → Compile → Done J) → ℕ → Compile → Done J
  take_message again avail c =
      if c.message_length == 0 || ltb avail c.message_length
      then (c, [])
      else elim (read c.buffer c.message_length) [
        | err e ↦ (c, thrown (buffer_error e) ∷ [])
        | ok (raw, b) ↦ elim (parse raw) [
          | none ↦ (record c { message_length = 0; buffer = b }, destroyed ∷ [])
          | some m ↦
              then_emit (message m)
                (again (avail - c.message_length) (record c { message_length = 0; buffer = b }))
        ]
      ]

  -- case Constants.JSON
  unfoldable pub on_json : (ℕ → Compile → Done J) → ℕ → Compile → Done J
  unfolding take_message read_uint32_be
  on_json again avail c =
      if ltb avail 5 then take_message again avail c else elim (read c.buffer 1) [
        | err e ↦ (c, thrown (buffer_error e) ∷ [])
        | ok (code, b) ↦ elim (read b 4) [
          | err e ↦ (record c { buffer = b }, thrown (buffer_error e) ∷ [])
          | ok (bytes, b') ↦
              take_message again (avail - 5)
                (record c { message_length = read_uint32_be bytes; buffer = b' })
        ]
      ]

  -- The switch; `emit` discards the code.
  unfoldable pub on_code : (ℕ → Compile → Done J) → ℕ → Compile → ℕ → Done J
  unfolding is_slot on_json
  on_code again avail c code =
      if is_slot code
      then elim (read c.buffer 1) [
        | err e ↦ (c, thrown (buffer_error e) ∷ [])
        | ok (discarded, b) ↦ then_emit (slot code) (again (avail - 1) (record c { buffer = b }))
      ]
      else if code == Constants.json
      then on_json again avail c
      else (c, thrown (unexpected_type code) ∷ [])

  -- The loop's body when no message has begun, with what `peek` shows.
  unfoldable pub on_peek :
      (ℕ → Compile → Done J) → ℕ → Compile → Result ClientBuffer.Error ℕ → Done J
  unfolding on_code
  on_peek again avail c (err e) = (c, thrown (buffer_error e) ∷ [])
  on_peek again avail c (ok code) = on_code again avail c code

  -- while (available)
  unfoldable pub loop : ℕ → ℕ → Compile → Done J
  unfolding take_message on_peek
  loop zero avail c = (c, [])
  loop (suc fuel) avail c =
      if avail == 0
      then (c, [])
      else if c.message_length == 0
      then on_peek (loop fuel) avail c (peek c.buffer)
      else take_message (loop fuel) avail c

  -- _onData(data)
  unfoldable pub on_data : Compile → List ℕ → Done J
  unfolding loop read_uint32_be
  on_data c bytes =
      let b = write c.buffer bytes in
      let avail = available b in
      if c.pid == 0
      then (if ltb avail 4 then (record c { buffer = b }, []) else elim (read b 4) [
        | err e ↦ (record c { buffer = b }, thrown (buffer_error e) ∷ [])
        | ok (pid_buffer, b') ↦
            loop (avail + 1) (avail - 4) (record c { pid = read_uint32_be pid_buffer; buffer = b' })
      ])
      else loop (avail + 1) avail (record c { buffer = b })
