-- ===== src/Scheduler/ObjectCacheManager/Examples.antt =====
-- Two nodes, one of which has an object.
use fisk.Base.{
  ℕ, zero, suc, String, ◌≡◌, refl, true, false, List, [], ◌∷◌, ℕ_discrete, String_discrete,
}
use fisk.OrderedMap.{get, set}
use fisk.Scheduler.ObjectCacheManager.{
  ObjectCacheManager, Message, create, add_node, add_all, add_to_sha1_map, pending_count_for,
  has_pending, add_pending,
}
use fisk.Scheduler.ObjectCacheManager.Consistency.{IsConsistent, create-IsConsistent}
use fisk.Scheduler.ObjectCacheManager.Distribute.{
  distribute, query_for, planned, first_round, all_commands, process_all, process_object, visit,
  next_idx, at, command_of, may_fetch, give, source_of, begun, add_objects, messages,
}
use fisk.Scheduler.ObjectCacheManager.Events.{
  Event, node_added, node_removed, inserted, removed, cache_hit, run, run-IsConsistent,
}

abbrev address : ℕ → String
address zero = "10.0.0.1:8096"
address (suc n) = "10.0.0.2:8096"

abbrev report : String → Message
report sha1 = record { sha1 = sha1; file_size = 30; cache_size = 130 }

abbrev events : List Event
events =
    node_added 0 100 500 (("a", 60) ∷ ("b", 40) ∷ [])
    ∷ node_added 1 0 500 []
    ∷ inserted (report "c") 1
    ∷ removed (report "a") 0
    ∷ cache_hit "b"
    ∷ node_removed 0
    ∷ []

run-IsConsistent_example : IsConsistent (run address (create true true 1) events)
unfolding String_discrete
run-IsConsistent_example =
    run-IsConsistent address (create true true 1) events ((refl, (refl, tt)), (tt, tt))
      (create-IsConsistent true true 1)

-- The second node is told to fetch the object from the first.
abbrev two : ObjectCacheManager
two = add_node (add_node (create false false 1) 0 60 500 (("a", 60) ∷ [])) 1 0 500 []

told : (distribute address two (query_for two "a")).1 ≡ (1, ("10.0.0.1:8096", "a") ∷ []) ∷ []
unfolding distribute planned first_round all_commands process_all process_object visit next_idx at
    command_of may_fetch give source_of begun add_objects messages create add_node add_all
    add_to_sha1_map pending_count_for has_pending add_pending get set String_discrete ℕ_discrete
told = refl
