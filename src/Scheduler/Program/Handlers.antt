-- ===== src/Scheduler/Program/Handlers.antt =====
-- src/scheduler/fisk-scheduler.ts: each handler keeps what Listed says.
use fisk.Base.{
  ℕ, String, ◌≡◌, refl, sym, ap, subst, ◌∙◌, inl, inr, true, Option, none, some, List, ◌∷◌, arith,
  ℕ_discrete, Bool-cases, Option-cases, String_discrete, is_empty, holds, take_out, push_new,
  IsUnrepeated, holds-take_out, holds-push_new, [],
}
use fisk.OrderedMap.{get}
use fisk.Scheduler.Builder
use fisk.Scheduler.Builder.{Headers, named, builder_key}
use fisk.Scheduler.Choice.{Compile, Choice}
use fisk.Scheduler.Environments.{compatible_environments, has_environment}
use fisk.Scheduler.ObjectCacheManager.{ObjectCacheManager, remove_node}
use fisk.Scheduler.ObjectCacheManager.Consistency.{
  IsConsistent, sha1s_for, sha1s_in, remove-IsConsistent, remove_node-IsConsistent,
  add_node-IsConsistent,
}
use fisk.Scheduler.ObjectCacheManager.Events.{insert-IsConsistent, hit-IsConsistent}
use fisk.Scheduler.ObjectCacheManager.Nodes.{
  OnlyAt, add_node-OnlyAt, remove-OnlyAt, insert-OnlyAt, hit-by_node, sha1s_for-remove_node,
}
use fisk.Scheduler.Sync.{sync_environments}
use fisk.Scheduler.Program.{
  Versions, Scheduler, put_builder, address_of, with_cache, on_builder, on_builder_close,
  on_environments, on_job_finished, sync_one, sync_all, insert_builder, remove_builder,
}
use fisk.Scheduler.Program.Compiles.{
  on_compile, schedule, find_builder, choice_for, let_go, give_up, request_environment,
}
use fisk.Scheduler.Program.Events.{
  BuilderEvent, closed, environments, load, job_started, job_finished, cache_hit, object_cache,
  object_cache_added, object_cache_removed, on_builder_event,
}
use fisk.Scheduler.Program.Counts.{IsCounted}
use fisk.Scheduler.Program.Steps.{choice_for-known}
use fisk.Scheduler.Program.Listed.{
  CacheListed, IfOn, IsListed, put-Listed, insert-Listed, remove-Listed,
}

-- A change of the cache that concerns a connected builder's entry only.
change-CacheListed :
    (connected : List ℕ) (m m' : ObjectCacheManager) (id : ℕ)
    → holds ℕ_discrete id connected ≡ true
    → IsConsistent m'
    → OnlyAt id m m'
    → CacheListed connected m
    → CacheListed connected m'
change-CacheListed connected m m' id live c only w = record {
  consistent = c;
  gone = λ n h. only n (λ e. ground (arith, live, h, e)) ∙ w.gone n h;
}

-- More builders are connected.
widen-IfOn :
    (id : ℕ) (connected : List ℕ) (o : Option ObjectCacheManager)
    → IfOn connected o
    → IfOn (push_new ℕ_discrete id connected) o
widen-IfOn id connected none w = tt
widen-IfOn id connected (some m) w = record {
  consistent = w.consistent;
  gone = λ n h. w.gone n (ground (arith, h, holds-push_new ℕ_discrete id n connected));
}

pub with_cache-IsListed :
    (f : ObjectCacheManager → ObjectCacheManager) (s : Scheduler)
    → ((m : ObjectCacheManager) → CacheListed s.connected m → CacheListed s.connected (f m))
    → IsListed s
    → IsListed (with_cache f s)
unfolding with_cache
with_cache-IsListed f s keep w = elim (Option-cases s.object_cache) [
  | inl e ↦ rw (e, with_cache) w
  | inr (m, e) ↦ rw (e, with_cache) (w.0, keep m (subst (IfOn s.connected) e w.1))
]

remove_builder-IsListed :
    (address : ℕ → String) (s : Scheduler) (id : ℕ) (b : Builder.Builder)
    → get ℕ_discrete id s.connections ≡ some b
    → IsCounted s
    → IsListed s
    → IsListed (with_cache (λ m. remove_node address m id) (remove_builder id b s))
unfolding with_cache remove_builder
remove_builder-IsListed address s id b here c w = elim (Option-cases s.object_cache) [
  | inl e ↦
      rw (e, with_cache)
        (
          remove-Listed id b here c.unrepeated w.0,
          subst (IfOn (take_out ℕ_discrete id s.connected)) (sym e) tt,
        )
  | inr (m, e) ↦
      let l : CacheListed s.connected m = subst (IfOn s.connected) e w.1 in
      rw (e, with_cache)
        (
          remove-Listed id b here c.unrepeated w.0,
          record {
            consistent = remove_node-IsConsistent address m id l.consistent;
            gone = λ n h. ground (
              arith,
              h,
              l.gone n,
              sha1s_for-remove_node address m id n,
              holds-take_out ℕ_discrete id n s.connected c.unrepeated,
            );
          },
        )
]

sync_one-IsListed : (s : Scheduler) (id : ℕ) → IsListed s → IsListed (sync_one s id).0
unfolding sync_one sync_environments builder_key
sync_one-IsListed s id w = elim (Option-cases (get ℕ_discrete id s.connections)) [
  | inl e ↦ rw (e, sync_one) w
  | inr (b, e) ↦ rw (e, sync_one) (put-Listed id b _ e refl w.0, w.1)
]

pub sync_all-IsListed : (s : Scheduler) (ids : List ℕ) → IsListed s → IsListed (sync_all s ids).0
unfolding sync_all
sync_all-IsListed s [] w = w
sync_all-IsListed s (id ∷ ids) w =
    sync_all-IsListed (sync_one s id).0 ids (sync_one-IsListed s id w)

pub on_builder-IsListed :
    (v : Versions) (s : Scheduler) (id : ℕ) (h : Headers)
    → get ℕ_discrete id s.connections ≡ none
    → IsListed s
    → IsListed (on_builder v s id h).0
unfolding on_builder insert_builder
on_builder-IsListed v s id h fresh w = elim (Bool-cases (v.older v.scheduler h.npm_version)) [
  | inl e ↦ rw (e) w
  | inr e ↦ rw (e) (
      sync_one-IsListed (insert_builder id (Builder.create h) s) id (
        insert-Listed id (Builder.create h) fresh w.0,
        widen-IfOn id s.connected s.object_cache w.1,
      ))
]

-- An object cache names each of its objects once, as the keys of an object do.
abbrev pub IsSane : BuilderEvent → Type 0
IsSane (object_cache cache_size max_size sha1s) = IsUnrepeated String_discrete (sha1s_in sha1s)
IsSane e = Unit {0}

pub on_builder_event-IsListed :
    (s : Scheduler) (id : ℕ) (b : Builder.Builder) (e : BuilderEvent)
    → get ℕ_discrete id s.connections ≡ some b
    → holds ℕ_discrete id s.connected ≡ true
    → IsSane e
    → IsCounted s
    → IsListed s
    → IsListed (on_builder_event s id b e).0
unfolding on_builder_event on_builder_close on_environments on_job_finished builder_key
on_builder_event-IsListed s id b closed here live u c w =
    remove_builder-IsListed (address_of s) s id b here c w
on_builder_event-IsListed s id b (environments hashes) here live u c w =
    sync_one-IsListed (put_builder id (record b { environments = named [] hashes }) s) id
      (put-Listed id b _ here refl w.0, w.1)
on_builder_event-IsListed s id b (load measure) here live u c w =
    (put-Listed id b _ here refl w.0, w.1)
on_builder_event-IsListed s id b job_started here live u c w = w
on_builder_event-IsListed s id b (job_finished x y) here live u c w =
    (put-Listed id b _ here refl w.0, w.1)
on_builder_event-IsListed s id b (cache_hit sha1) here live u c w =
    with_cache-IsListed _ s
      (λ m l. record {
        consistent = hit-IsConsistent (address_of s) m sha1 l.consistent;
        gone = λ n h. ap (λ k. sha1s_for k n) (hit-by_node (address_of s) m sha1) ∙ l.gone n h;
      })
      w
on_builder_event-IsListed s id b (object_cache x y xs) here live u c w =
    with_cache-IsListed _ s
      (λ m l.
        change-CacheListed s.connected m _ id live
          (add_node-IsConsistent m id x y xs u l.consistent) (add_node-OnlyAt m id x y xs) l)
      w
on_builder_event-IsListed s id b (object_cache_added msg) here live u c w =
    with_cache-IsListed _ s
      (λ m l.
        change-CacheListed s.connected m _ id live
          (insert-IsConsistent (address_of s) m msg id l.consistent)
          (insert-OnlyAt (address_of s) m msg id) l)
      w
on_builder_event-IsListed s id b (object_cache_removed msg) here live u c w =
    with_cache-IsListed _ s
      (λ m l.
        change-CacheListed s.connected m _ id live (remove-IsConsistent m msg id l.consistent)
          (remove-OnlyAt m msg id) l)
      w

schedule-IsListed :
    (s : Scheduler) (now cid : ℕ) (c : Compile) (k : Choice)
    → get ℕ_discrete k.id s.connections ≡ some k.builder
    → IsListed s
    → IsListed (schedule s now cid c k).0
unfolding schedule builder_key
schedule-IsListed s now cid c k here w = (put-Listed k.id k.builder _ here refl w.0, w.1)

find_builder-IsListed :
    (s : Scheduler) (now cid : ℕ) (c : Compile) → IsListed s → IsListed (find_builder s now cid c).0
unfolding find_builder
find_builder-IsListed s now cid c w =
    elim (Bool-cases (is_empty (compatible_environments s.environments c.environment))) [
      | inl e ↦ rw (e) w
      | inr e ↦ rw (e) (elim (Option-cases (choice_for s c)) [
        | inl o ↦ rw (o) w
        | inr (k, o) ↦ rw (o) (schedule-IsListed s now cid c k (choice_for-known s c k o) w)
      ])
    ]

pub on_compile-IsListed :
    (v : Versions) (s : Scheduler) (now cid : ℕ) (c : Compile)
    → IsListed s
    → IsListed (on_compile v s now cid c).0
unfolding on_compile request_environment
on_compile-IsListed v s now cid c w = elim (Bool-cases (v.older v.client_minimum c.npm_version)) [
  | inl e ↦ rw (e) w
  | inr e ↦ rw (e) (elim (Bool-cases (has_environment s.environments c.environment)) [
    | inl f ↦ rw (f) (find_builder-IsListed s now cid c w)
    | inr f ↦
        rw (f) (elim (Bool-cases (holds String_discrete c.environment s.pending_environments)) [
          | inl g ↦ rw (g) (find_builder-IsListed s now cid c w)
          | inr g ↦ rw (g) w
        ])
  ])
]

pub let_go-IsListed : (s : Scheduler) (cid : ℕ) → IsListed s → IsListed (let_go s cid)
unfolding let_go builder_key
let_go-IsListed s cid w = elim (Option-cases (get ℕ_discrete cid s.assigned)) [
  | inl e ↦ rw (e, let_go) w
  | inr (id, e) ↦
      rw (e, let_go)
        (elim (Option-cases (get ℕ_discrete id s.connections)) [
          | inl f ↦ rw (f, let_go) w
          | inr (b, f) ↦ rw (f, let_go) (put-Listed id b _ f refl w.0, w.1)
        ])
]

pub give_up-IsListed : (s : Scheduler) (cid : ℕ) → IsListed s → IsListed (give_up s cid)
unfolding give_up
give_up-IsListed s cid w = elim (Option-cases (get ℕ_discrete cid s.uploads)) [
  | inl e ↦ rw (e, give_up) w
  | inr (env, e) ↦ rw (e, give_up) w
]
