-- ===== src/Scheduler/Server/Examples.antt =====
-- An upload of three bytes in two parts, with a JSON message between them that is refused.
use fisk.Base.{◌+◌, String, ◌≡◌, refl, true, false, Option, some, List, [], ◌∷◌, String_discrete}
use fisk.Scheduler.Server.{
  Json, Message, json_text, binary, upload_environment, upload_data, refused, json_in_upload,
  on_json, on_message, on_messages,
}
use fisk.Scheduler.Server.Upload.{announced, received, IsMarked, on_messages-IsMarked}

abbrev upload : Json
upload = record { type = some "uploadEnvironment"; has_hash = true; bytes = some 3 }

abbrev parse : String → Option Json
parse s = some upload

abbrev messages : List Message
messages = json_text "{}" ∷ binary (7 ∷ []) ∷ json_text "{}" ∷ binary (8 ∷ 9 ∷ []) ∷ []

uploaded : on_messages parse 0 messages ≡ (
  0,
  upload_environment upload
      ∷ upload_data (7 ∷ []) false
      ∷ refused json_in_upload
      ∷ upload_data (8 ∷ 9 ∷ []) true
      ∷ [],
)
unfolding on_messages on_message on_json String_discrete
uploaded = refl

on_messages-IsMarked_example :
    (0 + announced (on_messages parse 0 messages).1
      ≡ received (on_messages parse 0 messages).1 + (on_messages parse 0 messages).0)
    × IsMarked 0 (on_messages parse 0 messages).1
on_messages-IsMarked_example = on_messages-IsMarked parse 0 messages
