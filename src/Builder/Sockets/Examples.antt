-- ===== src/Builder/Sockets/Examples.antt =====
-- An environment of two bytes from the scheduler.
use fisk.Base.{String, false, Option, some, List, [], ◌∷◌}
use fisk.Builder.Sockets.{Json, Message, json_text, binary, on_scheduler_messages}
use fisk.Builder.Sockets.Announced.{IsAnnounced, on_scheduler_messages-IsAnnounced}

abbrev json : Json
json = record { type = "getEnvironments"; bytes = 2; compressed = false; content = "" }

abbrev parse : String → Option Json
parse s = some json

abbrev messages : List Message
messages = json_text "{}" ∷ binary (1 ∷ []) ∷ binary (1 ∷ 2 ∷ []) ∷ []

on_scheduler_messages-IsAnnounced_example : IsAnnounced 0 (on_scheduler_messages parse 0 messages)
on_scheduler_messages-IsAnnounced_example = on_scheduler_messages-IsAnnounced parse 0 messages
