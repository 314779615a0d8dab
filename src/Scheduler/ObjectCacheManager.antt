-- ===== src/Scheduler/ObjectCacheManager.antt =====
-- src/scheduler/ObjectCacheManager.ts with SHA1Data.ts and NodeData.ts: which builder (node) has which
-- object in its cache, and which builders are told to fetch one. A node is the builder's identity;
-- `address` is its "ip:port". A pending transfer's key is the pair of the sha1, which has no colon,
-- and the address; its timer is the call of `transfer_timeout` that comes later.
pub mod Maps
pub mod Consistency
pub mod Distribute
pub mod Events
pub mod Nodes
mod Examples
use fisk.Base.{
  ℕ, ◌+◌, max, String, ite, Bool, true, false, Option, none, some, List, [], ◌∷◌, ◌++◌, map,
  ℕ_discrete, if◌then◌else◌, String_discrete, is_empty, holds, take_out, push_new,
}
use fisk.OrderedMap.{OrderedMap, get, set, delete, has}

pub record Sha1Data : Type 0 where
  pub file_size : ℕ
  pub nodes : List ℕ

pub record NodeData : Type 0 where
  pub size : ℕ
  pub max_size : ℕ
  pub sha1s : List String

pub record ObjectCacheManager : Type 0 where
  pub by_sha1 : OrderedMap String Sha1Data
  pub by_node : OrderedMap ℕ NodeData
  pub pending_transfers : List (String × String)
  pub distribute_on_insertion : Bool
  pub distribute_on_cache_hit : Bool
  pub redundancy : ℕ
  pub hits : ℕ

-- The options; a redundancy of 0 counts as 1.
unfoldable pub create : Bool → Bool → ℕ → ObjectCacheManager
create on_insertion on_cache_hit redundancy = record {
  by_sha1 = [];
  by_node = [];
  pending_transfers = [];
  distribute_on_insertion = on_insertion;
  distribute_on_cache_hit = on_cache_hit;
  redundancy = max 1 redundancy;
  hits = 0;
}

abbrev pub added_to : Option Sha1Data → ℕ → ℕ → Sha1Data
added_to none file_size node = record { file_size = file_size; nodes = node ∷ [] }
added_to (some data_of) file_size node = record data_of {
  nodes = push_new ℕ_discrete node data_of.nodes;
}

-- The count that it returns is `length` of the new entry's nodes.
unfoldable pub add_to_sha1_map :
    OrderedMap String Sha1Data → String → ℕ → ℕ → OrderedMap String Sha1Data
add_to_sha1_map m sha1 file_size node =
    set String_discrete sha1 (added_to (get String_discrete sha1 m) file_size node) m

abbrev pub removed_from :
    OrderedMap String Sha1Data → String → Option Sha1Data → ℕ → OrderedMap String Sha1Data
removed_from m sha1 none node = m
removed_from m sha1 (some data_of) node =
    let left = take_out ℕ_discrete node data_of.nodes in
    if holds ℕ_discrete node data_of.nodes
    then (if is_empty left
        then delete String_discrete sha1 m
        else set String_discrete sha1 (record data_of { nodes = left }) m)
    else m

unfoldable pub remove_from_sha1_map :
    OrderedMap String Sha1Data → String → ℕ → OrderedMap String Sha1Data
remove_from_sha1_map m sha1 node = removed_from m sha1 (get String_discrete sha1 m) node

-- data.sha1s.forEach in `addNode`
unfoldable pub add_all :
    OrderedMap String Sha1Data → List (String × ℕ) → ℕ → OrderedMap String Sha1Data
add_all m [] node = m
add_all m ((sha1, file_size) ∷ rest) node =
    add_all (add_to_sha1_map m sha1 file_size node) rest node

-- nodeData.sha1s.forEach in `removeNode`
unfoldable pub remove_all :
    OrderedMap String Sha1Data → List String → ℕ → OrderedMap String Sha1Data
remove_all m [] node = m
remove_all m (sha1 ∷ rest) node = remove_all (remove_from_sha1_map m sha1 node) rest node

-- `clear`, which forgets the hits and the pending transfers.
unfoldable pub clear : ObjectCacheManager → ObjectCacheManager
clear m = record m { hits = 0; pending_transfers = [] }

unfoldable pub pending_count_for : String → List (String × String) → ℕ
pending_count_for sha1 [] = 0
pending_count_for sha1 ((s, a) ∷ rest) =
    ite (String_discrete s sha1) 1 0 + pending_count_for sha1 rest

unfoldable pub has_pending : String → String → List (String × String) → Bool
has_pending sha1 addr [] = false
has_pending sha1 addr ((s, a) ∷ rest) =
    ite (String_discrete s sha1) (ite (String_discrete a addr) true (has_pending sha1 addr rest))
      (has_pending sha1 addr rest)

unfoldable pub clear_pending : String → String → List (String × String) → List (String × String)
clear_pending sha1 addr [] = []
clear_pending sha1 addr ((s, a) ∷ rest) =
    let left = clear_pending sha1 addr rest in
    ite (String_discrete s sha1) (ite (String_discrete a addr) left ((s, a) ∷ left)) ((s, a) ∷ left)

unfoldable pub clear_all_pending : String → List (String × String) → List (String × String)
clear_all_pending addr [] = []
clear_all_pending addr ((s, a) ∷ rest) =
    ite (String_discrete a addr) (clear_all_pending addr rest)
      ((s, a) ∷ clear_all_pending addr rest)

-- A set: a key that is there stays once.
unfoldable pub add_pending : String → String → List (String × String) → List (String × String)
unfolding has_pending
add_pending sha1 addr pending =
    if has_pending sha1 addr pending then pending else pending ++ (sha1, addr) ∷ []

-- What a message about an object of a node says.
pub record Message : Type 0 where
  pub sha1 : String
  pub file_size : ℕ
  pub cache_size : ℕ

-- `addNode`
unfoldable pub add_node : ObjectCacheManager → ℕ → ℕ → ℕ → List (String × ℕ) → ObjectCacheManager
add_node m node cache_size max_size sha1s =
    let n : NodeData = record {
      size = cache_size;
      max_size = max_size;
      sha1s = map (λ e. e.0) sha1s;
    } in
    if has ℕ_discrete node m.by_node then m else record m {
      by_node = set ℕ_discrete node n m.by_node;
      by_sha1 = add_all m.by_sha1 sha1s node;
    }

-- `removeNode`
unfoldable pub remove_node : (ℕ → String) → ObjectCacheManager → ℕ → ObjectCacheManager
remove_node address m node = elim (get ℕ_discrete node m.by_node) [
  | none ↦ m
  | some n ↦ record m {
    by_node = delete ℕ_discrete node m.by_node;
    pending_transfers = clear_all_pending (address node) m.pending_transfers;
    by_sha1 = remove_all m.by_sha1 n.sha1s node;
  }
]

-- `remove`
unfoldable pub remove : ObjectCacheManager → Message → ℕ → ObjectCacheManager
remove m msg node = elim (get ℕ_discrete node m.by_node) [
  | none ↦ m
  | some n ↦
      let n' : NodeData = record n {
        sha1s = take_out String_discrete msg.sha1 n.sha1s;
        size = msg.cache_size;
      } in
      record m {
        by_node = set ℕ_discrete node n' m.by_node;
        by_sha1 = remove_from_sha1_map m.by_sha1 msg.sha1 node;
      }
]

-- `insert`, before it distributes.
unfoldable pub insert_object :
    (ℕ → String) → ObjectCacheManager → Message → ℕ → NodeData → ObjectCacheManager
insert_object address m msg node n =
    let n' : NodeData = record n {
      sha1s = push_new String_discrete msg.sha1 n.sha1s;
      size = msg.cache_size;
    } in
    record m {
      by_node = set ℕ_discrete node n' m.by_node;
      by_sha1 = add_to_sha1_map m.by_sha1 msg.sha1 msg.file_size node;
      pending_transfers = clear_pending msg.sha1 (address node) m.pending_transfers;
    }
