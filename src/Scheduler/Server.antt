-- ===== src/Scheduler/Server.antt =====
-- src/scheduler/Server.ts with Client.ts: what the headers of a compile's and a builder's connection
-- must say, and the messages of a compile's connection, which uploads an environment as JSON that
-- announces bytes and then the bytes. JSON.parse is the parameter `parse`; parseInt and the splitting
-- of headers by regular expressions are the parameter `Reading`.
pub mod Upload
mod Examples
use fisk.Base.{
  ℕ, ◌-◌, String, ite, Bool, true, false, not, ◌&&◌, Option, none, some, List, [], ◌∷◌, ◌++◌, ltb,
  ◌==◌, if◌then◌else◌, String_discrete, length, is_empty, Result, ok, err,
}
use fisk.OrderedMap.{is_some}
use fisk.Scheduler.Builder.{Headers}
use fisk.Scheduler.Choice.{Compile}
use Prim.Native.String.{len, slice}

-- req.headers[name], of the function `header`.
abbrev pub Request : Type 0
Request = String → Option String

-- parseInt, with none for NaN; labels.split(/ +/).filter(x => x); and the environments without white
-- space, split at ";", those that are not empty.
pub record Reading : Type 0 where
  pub parse_int : String → Option ℕ
  pub words : String → List String
  pub environments : String → List String

-- Why a connection is refused.
pub data Refused : Type 0 where
  no_environments_header bad_config_version no_environment no_source_path bad_sha1 no_port_header
        no_slots_header :
      Refused

-- A header that is missing counts as empty.
abbrev pub text_of : Option String → String
text_of none = ""
text_of (some s) = s

abbrev pub is_text : String → String → Bool
is_text s t = ite (String_discrete s t) true false

-- An empty header counts as not given.
abbrev pub given : Option String → Option String
given none = none
given (some s) = if is_text s "" then none else some s

abbrev pub is_number : Option ℕ → ℕ → Bool
is_number none n = false
is_number (some m) n = m == n

module _ (r : Reading) (config_version : ℕ) where
  -- _handleCompile, up to emit("compile").
  unfoldable pub handle_compile : Request → Result Refused Compile
  handle_compile req =
      if not (is_some (req "x-fisk-environments"))
      then err no_environments_header
      else if not (is_number (r.parse_int (text_of (req "x-fisk-config-version"))) config_version)
      then err bad_config_version
      else if not (is_some (given (req "x-fisk-environments")))
      then err no_environment
      else if not (is_some (given (req "x-fisk-sourcefile")))
      then err no_source_path
      else if is_some (given (req "x-fisk-sha1")) && not (len (text_of (req "x-fisk-sha1")) == 40)
      then err bad_sha1
      else ok (record {
        environment = text_of (req "x-fisk-environments");
        sha1 = given (req "x-fisk-sha1");
        builder = given (req "x-fisk-builder");
        labels = elim (given (req "x-fisk-builder-labels")) [
          | none ↦ none
          | some s ↦ some (r.words s)
        ];
        npm_version = text_of (req "x-fisk-npm-version");
      })

  abbrev pub number_of : Option ℕ → ℕ
  number_of none = 0
  number_of (some n) = n

  -- _handleBuilder, up to emit("builder"); a port that is no number is kept as the text it was.
  unfoldable pub handle_builder : String → Request → Result Refused Headers
  handle_builder ip req =
      if not (is_some (req "x-fisk-port"))
      then err no_port_header
      else if not (is_some (req "x-fisk-environments"))
      then err no_environments_header
      else if number_of (r.parse_int (text_of (req "x-fisk-slots"))) == 0
      then err no_slots_header
      else if not (is_number (r.parse_int (text_of (req "x-fisk-config-version"))) config_version)
      then err bad_config_version
      else ok (record {
        ip = ip;
        port = text_of (req "x-fisk-port");
        name = text_of (req "x-fisk-builder-name");
        hostname = text_of (req "x-fisk-builder-hostname");
        labels = elim (given (req "x-fisk-builder-labels")) [
          | none ↦ none
          | some s ↦ some (r.words s)
        ];
        npm_version = text_of (req "x-fisk-npm-version");
        system = text_of (req "x-fisk-system");
        slots = number_of (r.parse_int (text_of (req "x-fisk-slots")));
        environments = r.environments (text_of (req "x-fisk-environments"));
      })

-- _handleConnection: the address without ::ffff:, and which handler takes the path.
pub data Handler : Type 0 where
  compile builder monitor client_verify : String → Handler

unfoldable pub plain_ip : String → String
plain_ip ip = if is_text (slice ip 0 7) "::ffff:" then slice ip 7 (len ip) else ip

unfoldable pub handle_connection : Option String → String → Option Handler
unfolding plain_ip
handle_connection none pathname = none
handle_connection (some ip) pathname =
    if is_text ip ""
    then none
    else if is_text pathname "/compile"
    then some (compile (plain_ip ip))
    else if is_text pathname "/builder"
    then some (builder (plain_ip ip))
    else if is_text pathname "/monitor"
    then some (monitor (plain_ip ip))
    else if is_text pathname "/client_verify"
    then some (client_verify (plain_ip ip))
    else none

-- What JSON.parse gives for a compile's message: `type`, whether `hash` is there, and `bytes`, if it is
-- a number.
pub record Json : Type 0 where
  pub type : Option String
  pub has_hash : Bool
  pub bytes : Option ℕ

pub data Message : Type 0 where
  json_text : String → Message
  binary : List ℕ → Message

-- The messages of client.error.
pub data Complaint : Type 0 where
  json_in_upload not_json wrong_type no_hash no_bytes no_data not_announced too_long : Complaint

-- What the connection emits; `refused` is client.error, which sends, closes and emits "error".
pub data Emitted : Type 0 where
  log : Json → Emitted
  upload_environment : Json → Emitted
  upload_data : List ℕ → Bool → Emitted
  refused : Complaint → Emitted
  error_at_close closed : Emitted

module _ (parse : String → Option Json) where
  -- A JSON message, when no bytes are missing: the new value of remaining.bytes. The code takes any number
  -- for the bytes; here it is natural.
  unfoldable pub on_json : ℕ → Json → ℕ × List Emitted
  on_json remaining json =
      if is_text (text_of json.type) "log"
      then (remaining, log json ∷ [])
      else if not (is_text (text_of json.type) "uploadEnvironment")
      then (remaining, refused wrong_type ∷ [])
      else if not json.has_hash
      then (remaining, refused no_hash ∷ [])
      else elim json.bytes [
        | none ↦ (remaining, refused no_bytes ∷ [])
        | some n ↦ (n, upload_environment json ∷ [])
      ]

  -- client.ws.on("message"), with remaining.bytes.
  unfoldable pub on_message : ℕ → Message → ℕ × List Emitted
  unfolding on_json
  on_message remaining (json_text msg) =
      if not (remaining == 0) then (remaining, refused json_in_upload ∷ []) else elim (parse msg) [
        | none ↦ (remaining, refused not_json ∷ [])
        | some json ↦ on_json remaining json
      ]
  on_message remaining (binary msg) =
      if is_empty msg
      then (remaining, refused no_data ∷ [])
      else if remaining == 0
      then (remaining, refused not_announced ∷ [])
      else if ltb remaining (length msg)
      then (remaining, refused too_long ∷ [])
      else (remaining - length msg, upload_data msg (remaining - length msg == 0) ∷ [])

  -- client.ws.on("close")
  unfoldable pub on_close : ℕ → List Emitted
  on_close remaining = if remaining == 0 then closed ∷ [] else error_at_close ∷ closed ∷ []

  unfoldable pub on_messages : ℕ → List Message → ℕ × List Emitted
  unfolding on_message
  on_messages remaining [] = (remaining, [])
  on_messages remaining (m ∷ ms) =
      let (left, out) = on_message remaining m in
      let (left', out') = on_messages left ms in (left', out ++ out')
