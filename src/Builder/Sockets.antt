-- ===== src/Builder/Sockets.antt =====
-- The messages that a builder gets: those of a client with a job (src/builder/Server.ts) and those of
-- the scheduler (src/builder/Client.ts). JSON may announce bytes, which come as one binary message.
-- JSON.parse and zlib.gunzip are parameters; a job's id is not modelled, a job is its JSON.
pub mod Announced
mod Examples
use fisk.Base.{
  ℕ, String, ite, Bool, true, false, not, Option, none, some, List, [], ◌∷◌, ◌++◌, ◌==◌,
  if◌then◌else◌, String_discrete, length, is_empty,
}

-- What JSON.parse gives, as far as the sockets look at it. A `bytes` that is not there is 0, and so is
-- a `type` that is not there "".
pub record Json : Type 0 where
  pub type : String
  pub bytes : ℕ
  pub compressed : Bool
  pub content : String

pub data Message : Type 0 where
  json_text : String → Message
  binary : List ℕ → Message
  other_object : Message

-- The calls of `error`.
pub data Complaint : Type 0 where
  json_in_binary not_json no_type no_data not_announced wrong_length not_gzip unexpected_object :
      Complaint

pub data Emitted : Type 0 where
  job : Json → Emitted
  typed : Json → Emitted
  data_of : List ℕ → Emitted
  error : Complaint → Emitted
  close : Emitted

-- The variables of a job's connection.
pub record Connection : Type 0 where
  pub bytes : ℕ
  pub compressed : Bool
  pub client_emitted : Bool

module _ (parse : String → Option Json) (gunzip : List ℕ → Option (List ℕ)) where
  -- The emission of the data; inflating ends later, with the data or an error.
  unfoldable pub emit_data : Bool → List ℕ → List Emitted
  emit_data false msg = data_of msg ∷ []
  emit_data true msg = elim (gunzip msg) [ none ↦ error not_gzip ∷ [] | some xs ↦ data_of xs ∷ [] ]

  -- ws.on("message") of Server.ts
  unfoldable pub on_job_message : Connection → Message → Connection × List Emitted
  unfolding emit_data
  on_job_message c (json_text msg) =
      if not (c.bytes == 0) then (c, error json_in_binary ∷ []) else elim (parse msg) [
        | none ↦ (c, error not_json ∷ [])
        | some json ↦ (
          record { bytes = json.bytes; compressed = json.compressed; client_emitted = true },
          job json ∷ [],
        )
      ]
  on_job_message c (binary msg) =
      if is_empty msg
      then (c, error no_data ∷ [])
      else if c.bytes == 0
      then (c, error not_announced ∷ [])
      else if not (length msg == c.bytes)
      then (c, error wrong_length ∷ [])
      else (record c { bytes = 0 }, emit_data c.compressed msg)
  on_job_message c other_object = (c, [])

  -- ws.on("close") of Server.ts
  unfoldable pub on_job_close : Connection → List Emitted
  on_job_close c = if c.client_emitted then close ∷ [] else []

  unfoldable pub on_job_messages : Connection → List Message → List Emitted
  unfolding on_job_message
  on_job_messages c [] = []
  on_job_messages c (m ∷ ms) = let (c1, out) = on_job_message c m in out ++ on_job_messages c1 ms

module _ (parse : String → Option Json) where
  -- ws.on("message") of Client.ts, with `remaining`.
  unfoldable pub on_scheduler_message : ℕ → Message → ℕ × List Emitted
  on_scheduler_message remaining (json_text msg) =
      if not (remaining == 0) then (remaining, error json_in_binary ∷ []) else elim (parse msg) [
        | none ↦ (remaining, error not_json ∷ [])
        | some json ↦
            if ite (String_discrete json.type "") true false
            then (remaining, error no_type ∷ [])
            else (if json.bytes == 0 then remaining else json.bytes, typed json ∷ [])
      ]
  on_scheduler_message remaining (binary msg) =
      if is_empty msg
      then (remaining, error no_data ∷ [])
      else if remaining == 0
      then (remaining, error not_announced ∷ [])
      else if not (length msg == remaining)
      then (remaining, error wrong_length ∷ [])
      else (0, data_of msg ∷ [])
  on_scheduler_message remaining other_object = (remaining, error unexpected_object ∷ [])

  unfoldable pub on_scheduler_messages : ℕ → List Message → List Emitted
  unfolding on_scheduler_message
  on_scheduler_messages remaining [] = []
  on_scheduler_messages remaining (m ∷ ms) =
      let (left, out) = on_scheduler_message remaining m in out ++ on_scheduler_messages left ms
