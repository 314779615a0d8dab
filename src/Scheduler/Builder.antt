-- ===== src/Scheduler/Builder.antt =====
-- src/scheduler/Builder.ts, with the fields that it has from Client.ts: a builder's connection as the
-- scheduler sees it. A load is in hundredths, as the builder's load.ts measures it. The speeds count
-- in a fixed unit.
use fisk.Base.{ℕ, Option, List, ◌∷◌, Bool, true, String, String_discrete, []}
use Prim.Native.String.{◌++◌}
use fisk.OrderedMap.{OrderedMap, set}

pub record Builder : Type 0 where
  pub ip : String
  pub port : String
  pub name : String
  pub hostname : String
  pub labels : Option (List String)
  pub npm_version : String
  pub system : String
  pub slots : ℕ
  pub load : ℕ
  pub last_job : ℕ
  pub active_clients : ℕ
  pub jobs_scheduled : ℕ
  pub jobs_performed : ℕ
  pub total_compile_speed : ℕ
  pub total_upload_speed : ℕ
  -- The environments; `false` is the mark -1 of syncEnvironments.
  pub environments : OrderedMap String Bool

-- What the headers of a builder's connection say.
pub record Headers : Type 0 where
  pub ip : String
  pub port : String
  pub name : String
  pub hostname : String
  pub labels : Option (List String)
  pub npm_version : String
  pub system : String
  pub slots : ℕ
  pub environments : List String

unfoldable pub named : OrderedMap String Bool → List String → OrderedMap String Bool
named m [] = m
named m (e ∷ es) = named (set String_discrete e true m) es

unfoldable pub create : Headers → Builder
create h = record {
  ip = h.ip;
  port = h.port;
  name = h.name;
  hostname = h.hostname;
  labels = h.labels;
  npm_version = h.npm_version;
  system = h.system;
  slots = h.slots;
  load = 0;
  last_job = 0;
  active_clients = 0;
  jobs_scheduled = 0;
  jobs_performed = 0;
  total_compile_speed = 0;
  total_upload_speed = 0;
  environments = named [] h.environments;
}

-- ip + " " + port
unfoldable pub builder_key : Builder → String
builder_key b = b.ip ++ (" " ++ b.port)

-- ip + ":" + port
unfoldable pub address : Builder → String
address b = b.ip ++ (":" ++ b.port)
