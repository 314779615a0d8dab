-- ===== src/Scheduler/Program/Assignment.antt =====
-- src/scheduler/fisk-scheduler.ts: a compile is never given a builder that has gone.
use fisk.Base.{
  ℕ, ◌≡◌, refl, subst, inl, inr, true, none, some, List, ◌∷◌, arith, ℕ_discrete, Bool-cases,
  Option-cases, String_discrete, is_empty, holds, [],
}
use fisk.OrderedMap.{OrderedMap, get}
use fisk.OrderedMap.Laws.{get-set_self}
use fisk.Scheduler.Builder
use fisk.Scheduler.Choice.{Compile, Choice}
use fisk.Scheduler.Choice.Best.{choose-IsOneOf}
use fisk.Scheduler.Choice.Search.{IsOneOf}
use fisk.Scheduler.Environments.{Environments, compatible_environments, has_environment}
use fisk.Scheduler.ObjectCacheManager.{clear, create}
use fisk.Scheduler.ObjectCacheManager.Consistency.{create-IsConsistent, sha1s_for}
use fisk.Scheduler.ObjectCacheManager.Events.{same_maps}
use fisk.Scheduler.Peak.{Peak}
use fisk.Scheduler.Program.{
  Versions, Scheduler, start, with_cache, on_uploaded, values, look_up, listed_if,
}
use fisk.Scheduler.Program.Compiles.{
  on_compile, on_compile_error, on_compile_close, schedule, find_builder, choice_for, cached_nodes,
  let_go, request_environment,
}
use fisk.Scheduler.Program.Events.{
  Event, step, run, on_cleared, enable_object_cache, builder_arrived, from_builder, compile_arrived,
  compile_failed, compile_closed, uploaded, object_cache_enabled, object_cache_disabled,
  object_cache_cleared,
}
use fisk.Scheduler.Program.Counts.{IsCounted}
use fisk.Scheduler.Program.Steps.{step-IsCounted, run-IsCounted}
use fisk.Scheduler.Program.Listed.{CacheListed, IfOn, IsListed, values-get, cached-connected}
use fisk.Scheduler.Program.Handlers.{
  IsSane, on_builder-IsListed, on_builder_event-IsListed, on_compile-IsListed, let_go-IsListed,
  give_up-IsListed, sync_all-IsListed,
}

abbrev pub IsSaneEvent : Event → Type 0
IsSaneEvent (from_builder id e) = IsSane e
IsSaneEvent e = Unit {0}

abbrev pub AllSane : List Event → Type 0
AllSane [] = Unit {0}
AllSane (e ∷ es) = IsSaneEvent e × AllSane es

step-IsListed :
    (v : Versions) (s : Scheduler) (e : Event)
    → IsSaneEvent e
    → IsCounted s
    → IsListed s
    → IsListed (step v s e).0
unfolding step on_compile_error on_compile_close on_uploaded on_cleared enable_object_cache
    with_cache create sha1s_for clear get
step-IsListed v s (builder_arrived id h) u c w =
    elim (Option-cases (get ℕ_discrete id s.connections)) [
      | inl e ↦ rw (e) (on_builder-IsListed v s id h e w)
      | inr (b, e) ↦ rw (e) w
    ]
step-IsListed v s (from_builder id event) u c w =
    elim (Bool-cases (holds ℕ_discrete id s.connected)) [
      | inr f ↦ rw (f) w
      | inl f ↦ rw (f) (elim (Option-cases (get ℕ_discrete id s.connections)) [
        | inl e ↦ rw (e) w
        | inr (b, e) ↦ rw (e) (on_builder_event-IsListed s id b event e f u c w)
      ])
    ]
step-IsListed v s (compile_arrived cid now x) u c w =
    elim (Option-cases (get ℕ_discrete cid s.assigned)) [
      | inl e ↦ rw (e) (on_compile-IsListed v s now cid x w)
      | inr (b, e) ↦ rw (e) w
    ]
step-IsListed v s (compile_failed cid) u c w =
    give_up-IsListed (let_go s cid) cid (let_go-IsListed s cid w)
step-IsListed v s (compile_closed cid) u c w =
    give_up-IsListed (let_go s cid) cid (let_go-IsListed s cid w)
step-IsListed v s (uploaded env) u c w = sync_all-IsListed _ (values s.builders) w
step-IsListed v s (object_cache_enabled x y n) u c w = elim (Option-cases s.object_cache) [
  | inl e ↦ rw (e) (w.0, record { consistent = create-IsConsistent x y n; gone = λ i h. refl })
  | inr (m, e) ↦ rw (e) (w.0, subst (IfOn s.connected) e w.1)
]
step-IsListed v s object_cache_disabled u c w = (w.0, tt)
step-IsListed v s object_cache_cleared u c w = elim (Option-cases s.object_cache) [
  | inl e ↦ rw (e) (w.0, tt)
  | inr (m, e) ↦
      let l : CacheListed s.connected m = subst (IfOn s.connected) e w.1 in
      rw (e)
        (w.0, record { consistent = same_maps m (clear m) refl refl l.consistent; gone = l.gone })
]

run-IsListed :
    (v : Versions) (s : Scheduler) (es : List Event)
    → AllSane es
    → IsCounted s
    → IsListed s
    → IsListed (run v s es)
unfolding run
run-IsListed v s [] u c w = w
run-IsListed v s (e ∷ es) u c w =
    run-IsListed v (step v s e).0 es u.1 (step-IsCounted v s e c) (step-IsListed v s e u.0 c w)

-- What is looked up is of the list.
look_up-holds :
    (m : OrderedMap ℕ Builder.Builder) (ids : List ℕ) (k : Choice)
    → IsOneOf k (look_up m ids)
    → holds ℕ_discrete k.id ids ≡ true
unfolding look_up
look_up-holds m [] k h = elim h [ ]
look_up-holds m (id ∷ ids) k h = elim (Option-cases (get ℕ_discrete id m)) [
  | inl e ↦
      let later =
        look_up-holds m ids k (subst (λ o. IsOneOf k (listed_if id o (look_up m ids))) e h) in
      ground (arith, later)
  | inr (b, e) ↦ elim (subst (λ o. IsOneOf k (listed_if id o (look_up m ids))) e h) [
    | inl (p, q) ↦ ground (arith, p)
    | inr one ↦ let later = look_up-holds m ids k one in ground (arith, later)
  ]
]

cached_nodes-connected :
    (s : Scheduler) (c : Compile) (n : ℕ)
    → IsListed s
    → holds ℕ_discrete n (cached_nodes s c) ≡ true
    → holds ℕ_discrete n s.connected ≡ true
unfolding cached_nodes
cached_nodes-connected s c n w h = elim (Option-cases s.object_cache) [
  | inl e ↦ (let g = rw (e, cached_nodes) at h in cc)
  | inr (m, e) ↦ elim (Option-cases c.sha1) [
    | inl f ↦ (let g = rw (e, f, cached_nodes) at h in cc)
    | inr (sha1, f) ↦
        cached-connected s.connected m sha1 n (subst (IfOn s.connected) e w.1)
          (rw (e, f, cached_nodes) at h)
  ]
]

choice_for-connected :
    (s : Scheduler) (c : Compile) (k : Choice)
    → IsListed s
    → choice_for s c ≡ some k
    → holds ℕ_discrete k.id s.connected ≡ true
unfolding choice_for
choice_for-connected s c k w h =
    elim (choose-IsOneOf c (compatible_environments s.environments c.environment)
      (look_up s.connections (cached_nodes s c)) (look_up s.connections (values s.builders)) k h) [
        | inl one ↦
            cached_nodes-connected s c k.id w (look_up-holds s.connections (cached_nodes s c) k one)
        | inr one ↦
            let (key, g) =
              values-get s.builders k.id w.0.once
                (look_up-holds s.connections (values s.builders) k one) in
            (w.0.entries key k.id g).live
      ]

-- After the search the compile has no builder, or one that is connected.
find_builder-connected :
    (s : Scheduler) (now cid : ℕ) (c : Compile) (id : ℕ)
    → IsListed s
    → get ℕ_discrete cid s.assigned ≡ none
    → get ℕ_discrete cid (find_builder s now cid c).0.assigned ≡ some id
    → holds ℕ_discrete id s.connected ≡ true
unfolding find_builder schedule
find_builder-connected s now cid c id w fresh h =
    elim (Bool-cases (is_empty (compatible_environments s.environments c.environment))) [
      | inl e ↦ (let g = rw (e, find_builder) at h in cc)
      | inr e ↦ elim (Option-cases (choice_for s c)) [
        | inl o ↦ (let g = rw (e, o, find_builder) at h in cc)
        | inr (k, o) ↦
            let live = choice_for-connected s c k w o in
            let g =
              rw (e, o, find_builder, schedule, get-set_self ℕ_discrete cid k.id s.assigned) at h in
            ground (arith, live, g)
      ]
    ]

on_compile-connected :
    (v : Versions) (s : Scheduler) (now cid : ℕ) (c : Compile) (id : ℕ)
    → IsListed s
    → get ℕ_discrete cid s.assigned ≡ none
    → get ℕ_discrete cid (on_compile v s now cid c).0.assigned ≡ some id
    → holds ℕ_discrete id s.connected ≡ true
unfolding on_compile request_environment
on_compile-connected v s now cid c id w fresh h =
    elim (Bool-cases (v.older v.client_minimum c.npm_version)) [
      | inl e ↦ absurd (let g = rw (e, on_compile) at h in cc)
      | inr e ↦ elim (Bool-cases (has_environment s.environments c.environment)) [
        | inl f ↦ find_builder-connected s now cid c id w fresh (rw (e, f, on_compile) at h)
        | inr f ↦ elim (Bool-cases (holds String_discrete c.environment s.pending_environments)) [
          | inl g ↦
              find_builder-connected s now cid c id w fresh
                (rw (e, f, g, on_compile, request_environment) at h)
          | inr g ↦ absurd (let x = rw (e, f, g, on_compile, request_environment) at h in cc)
        ]
      ]
    ]

-- Whatever reached the scheduler from its start on, if each report of an object cache names an object
-- once: when a compile that has no builder arrives and is given one, that builder is connected.
pub on_compile-run-connected :
    (v : Versions) (known : Environments) (peaks : List Peak) (es : List Event) (now cid : ℕ)
    (c : Compile) (id : ℕ)
    → AllSane es
    → get ℕ_discrete cid (run v (start known peaks) es).assigned ≡ none
    → get ℕ_discrete cid (on_compile v (run v (start known peaks) es) now cid c).0.assigned
      ≡ some id
    → holds ℕ_discrete id (run v (start known peaks) es).connected ≡ true
unfolding start get run
on_compile-run-connected v known peaks es now cid c id sane fresh h =
    let first = start known peaks in
    on_compile-connected v (run v first es) now cid c id
      (run-IsListed v first es sane (run-IsCounted v known peaks [])
        (record { entries = λ key i g. cc; once = tt }, tt))
      fresh h
