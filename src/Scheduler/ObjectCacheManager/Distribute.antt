-- ===== src/Scheduler/ObjectCacheManager/Distribute.antt =====
-- `distribute`, `insert` and `hit` of src/scheduler/ObjectCacheManager.ts, and the manager's events.
use fisk.Base.{
  ℕ, zero, suc, ◌+◌, ◌-◌, ◌%◌, min, String, ite, Bool, true, false, not, ◌&&◌, Option, none, some,
  List, [], ◌∷◌, ◌++◌, ℕ_discrete, ltb, leb, ◌==◌, if◌then◌else◌, String_discrete, length, is_empty,
  holds,
}
use fisk.OrderedMap.{OrderedMap, get, set, keys}
use fisk.Scheduler.ObjectCacheManager.{
  Sha1Data, NodeData, ObjectCacheManager, pending_count_for, has_pending, add_pending,
}

-- The query, read: a redundancy or a max that is no positive number is 1, or none.
pub record Query : Type 0 where
  pub dry : Bool
  pub redundancy : ℕ
  pub max : Option ℕ
  pub sha1 : Option String
  pub node : Option String

-- What a node is told to fetch: sources and sha1s. `available` is `max_size - used`, which may be
-- below 0.
pub record CommandType : Type 0 where
  pub max_size : ℕ
  pub used : ℕ
  pub objects : List (String × String)

-- The variables of `distribute` that its loops change.
pub record Round : Type 0 where
  pub node_idx : ℕ
  pub commands : OrderedMap ℕ CommandType
  pub max : Option ℕ
  pub round_robin_index : ℕ

-- An index is always within the list.
unfoldable pub at : List ℕ → ℕ → ℕ
at [] i = 0
at (x ∷ xs) zero = x
at (x ∷ xs) (suc i) = at xs i

unfoldable pub next_idx : ℕ → ℕ → ℕ
next_idx node_idx count = if node_idx + 1 == count then 0 else node_idx + 1

-- The node's command, or a new one from its data.
unfoldable pub command_of : Option CommandType → Option NodeData → CommandType
command_of (some c) d = c
command_of none none = record { max_size = 0; used = 0; objects = [] }
command_of none (some d) = record { max_size = d.max_size; used = d.size; objects = [] }

unfoldable pub may_fetch :
    (ℕ → String) → ObjectCacheManager → Query → String → Sha1Data → ℕ → CommandType → Bool
unfolding has_pending
may_fetch address m q sha value node c =
    not (holds ℕ_discrete node value.nodes)
    && not (has_pending sha (address node) m.pending_transfers)
    && elim q.node [
      | none ↦ true
      | some only ↦ ite (String_discrete (address node) only) true false
    ]
    && leb (c.used + value.file_size) c.max_size

abbrev pub one_less : Option ℕ → Option ℕ
one_less none = none
one_less (some n) = some (n - 1)

abbrev pub is_zero : Option ℕ → Bool
is_zero none = false
is_zero (some n) = n == 0

-- The source of the object, by turns.
unfoldable pub source_of : Sha1Data → ℕ → ℕ
unfolding at
source_of value i = elim (length value.nodes) [ zero ↦ 0 | suc n ↦ at value.nodes (i % suc n) ]

unfoldable pub give : (ℕ → String) → String → Sha1Data → ℕ → CommandType → Round → Round
unfolding source_of
give address sha value node c r =
    let src = address (source_of value r.round_robin_index) in
    let c' : CommandType = record c {
      used = c.used + value.file_size;
      objects = c.objects ++ (src, sha) ∷ [];
    } in
    record r {
      commands = set ℕ_discrete node c' r.commands;
      max = one_less r.max;
      round_robin_index = r.round_robin_index + 1;
    }

-- The while loop: `left` nodes are not visited, `needed` copies are not found. When all were visited
-- it comes back to the first one and stops.
unfoldable pub visit :
    (ℕ → String) → ObjectCacheManager → Query → String → Sha1Data → List ℕ → ℕ → ℕ → Round → Round
unfolding next_idx at command_of may_fetch give
visit address m q sha value nodes zero needed r =
    if needed == 0 then r else record r { node_idx = next_idx r.node_idx (length nodes) }
visit address m q sha value nodes (suc left) needed r =
    let r1 = record r { node_idx = next_idx r.node_idx (length nodes) } in
    let node = at nodes r1.node_idx in
    let c = command_of (get ℕ_discrete node r.commands) (get ℕ_discrete node m.by_node) in
    let gives = may_fetch address m q sha value node c in
    let r2 = if gives then give address sha value node c r1 else r1 in
    let rest = visit address m q sha value nodes left (if gives then needed - 1 else needed) r2 in
    if needed == 0 then r else if gives && is_zero r2.max then r2 else rest

-- `processObject`
unfoldable pub process_object :
    (ℕ → String) → ObjectCacheManager → Query → String → Sha1Data → Round → Round
unfolding visit pending_count_for
process_object address m q sha value r =
    let copies = length value.nodes + pending_count_for sha m.pending_transfers in
    let needed = min (q.redundancy + 1 - copies) (length m.by_node - 1) in
    if is_zero r.max
    then r
    else visit address m q sha value (keys m.by_node) (length m.by_node) needed r

unfoldable pub process_all :
    (ℕ → String) → ObjectCacheManager → Query → OrderedMap String Sha1Data → Round → Round
unfolding process_object
process_all address m q [] r = r
process_all address m q ((sha, value) ∷ rest) r =
    process_all address m q rest (process_object address m q sha value r)

-- Without a sha1 there is a command for each node from the start.
unfoldable pub all_commands : OrderedMap ℕ NodeData → OrderedMap ℕ CommandType
all_commands [] = []
all_commands ((node, d) ∷ rest) =
    (node, record { max_size = d.max_size; used = d.size; objects = [] }) ∷ all_commands rest

unfoldable pub first_round : ObjectCacheManager → Query → Round
unfolding all_commands
first_round m q = record {
  node_idx = 0;
  commands = elim q.sha1 [ none ↦ all_commands m.by_node | some s ↦ [] ];
  max = q.max;
  round_robin_index = 0;
}

unfoldable pub planned : (ℕ → String) → ObjectCacheManager → Query → Round
unfolding first_round process_all process_object
planned address m q = if ltb (length m.by_node) 2 then first_round m q else elim q.sha1 [
  | none ↦ process_all address m q m.by_sha1 (first_round m q)
  | some sha ↦ elim (get String_discrete sha m.by_sha1) [
    | none ↦ first_round m q
    | some value ↦ process_object address m q sha value (first_round m q)
  ]
]

unfoldable pub add_objects :
    String → List (String × String) → List (String × String) → List (String × String)
unfolding add_pending
add_objects addr [] pending = pending
add_objects addr ((src, sha) ∷ rest) pending = add_objects addr rest (add_pending sha addr pending)

-- The transfers that the commands begin.
unfoldable pub begun :
    (ℕ → String) → OrderedMap ℕ CommandType → List (String × String) → List (String × String)
unfolding add_objects
begun address [] pending = pending
begun address ((node, c) ∷ rest) pending =
    begun address rest (add_objects (address node) c.objects pending)

-- `fetch_cache_objects` messages: the commands with an object.
unfoldable pub messages : OrderedMap ℕ CommandType → List (ℕ × List (String × String))
messages [] = []
messages ((node, c) ∷ rest) =
    if is_empty c.objects then messages rest else (node, c.objects) ∷ messages rest

unfoldable pub distribute :
    (ℕ → String)
    → ObjectCacheManager
    → Query
    → ObjectCacheManager × List (ℕ × List (String × String))
unfolding planned begun messages
distribute address m q =
    let r = planned address m q in
    if q.dry then (m, []) else (
      record m { pending_transfers = begun address r.commands m.pending_transfers },
      messages r.commands,
    )

abbrev pub query_for : ObjectCacheManager → String → Query
query_for m sha1 = record {
  dry = false;
  redundancy = m.redundancy;
  max = none;
  sha1 = some sha1;
  node = none;
}
