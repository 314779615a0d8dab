-- ===== src/Daemon/Handlers/Steps.antt =====
-- Every handler keeps the invariant of the daemon.
use fisk.Base.{
  ℕ, String, ◌≡◌, refl, ap, subst, ◌∙◌, ◌⊎◌, inl, inr, if_pos, if_neg, true, false, Option, none,
  some, List, [], arith, ℕ_discrete, Bool-cases, Option-cases, String_discrete,
}
use fisk.OrderedMap.{get}
use fisk.Daemon.Slots
use fisk.Daemon.Slots.{Slots, Event}
use fisk.Daemon.Slots.Invariant.{IsFree, acquire-IsValid, try_acquire-IsValid, release-IsValid}
use fisk.Daemon.Handlers.Pools.{acquire-IsFree, try_acquire-IsFree, release-IsFree}
use fisk.Daemon.Handlers.{
  Conn, Daemon, PoolName, cpp, compile, local, Call, respond_cpp, pool, requested, went, exited,
  put_conn, on_acquire, let_go, on_release, and_then, release_requested, drop_subscriber, on_closed,
  grant_local, fall_back, unsubscribe, on_info_resolved, on_acquire_slot, can_acquire_local_slot,
  CompilerInfoResult, resolved_local, unknown,
}
use fisk.Daemon.Handlers.Invariant.{
  flag_of, flag, Inv, After, Goes, Goes-After, After-if, Goes-if, Goes-and_then, Goes-map,
  pool-put_conn, flag-put_same, flag-changed_state, requested-with_requested, changed_state,
  changed_state-Inv, same-Inv, clear_of,
}

pub on_acquire_once :
    (q : PoolName) (cb : Call) (d : Daemon) (id : ℕ) (c : Conn)
    → get ℕ_discrete id d.conns ≡ some c
    → requested q c ≡ false
    → Inv d
    → Goes Inv (on_acquire q cb d id c)
unfolding on_acquire
on_acquire_once q cb d id c known once inv =
    let free = clear_of q d id c known inv once in
    rw once (
      changed_state-Inv q (Slots.acquire (pool q d) id c.pid cb).0 true d id c known inv
        (acquire-IsValid (pool q d) id c.pid cb (inv q).valid free)
        (λ j ne f. acquire-IsFree (pool q d) id c.pid j cb ne f) (λ e. cc))

pub on_acquire_twice :
    (q : PoolName) (cb : Call) (d : Daemon) (id : ℕ) (c : Conn)
    → requested q c ≡ true
    → on_acquire q cb d id c ≡ exited
unfolding on_acquire
on_acquire_twice q cb d id c twice = rw twice

pub on_acquire-Inv :
    (q : PoolName) (cb : Call) (d : Daemon) (id : ℕ) (c : Conn)
    → get ℕ_discrete id d.conns ≡ some c
    → Inv d
    → After Inv (on_acquire q cb d id c)
on_acquire-Inv q cb d id c known inv = elim (Bool-cases (requested q c)) [
  | inl twice ↦ rw (on_acquire_twice q cb d id c twice) tt
  | inr once ↦ Goes-After Inv (on_acquire q cb d id c) (on_acquire_once q cb d id c known once inv)
]

-- The flag for the pool is clear afterwards, and no other one is set.
abbrev pub Cleared : PoolName → Daemon → ℕ → Daemon → Type 0
Cleared q d id d' =
    Inv d' × ((p : PoolName) → (q ≡ p) ⊎ (flag p d id ≡ false) → flag p d' id ≡ false)

flag_after :
    (q : PoolName) (s : Slots Call) (d : Daemon) (id : ℕ) (c : Conn)
    → get ℕ_discrete id d.conns ≡ some c
    → (p : PoolName) → (q ≡ p) ⊎ (flag p d id ≡ false)
    → flag p (changed_state q s false d id c) id ≡ false
flag_after q s d id c known p h = ground (
  arith,
  flag-changed_state q s false d id c p id,
  requested-with_requested p q false c,
  ap (flag_of p) known,
)

still_clear :
    (q p : PoolName) (d : Daemon) (id : ℕ) (c : Conn)
    → get ℕ_discrete id d.conns ≡ some c
    → requested q c ≡ false
    → (q ≡ p) ⊎ (flag p d id ≡ false)
    → flag p d id ≡ false
still_clear q p d id c known free (inl e) =
    subst (λ t. flag t d id ≡ false) e (ap (flag_of q) known ∙ free)
still_clear q p d id c known free (inr h) = h

-- A release goes on: no assert of the pool throws.
pub let_go-Inv :
    (q : PoolName) (d : Daemon) (id : ℕ) (c : Conn)
    → get ℕ_discrete id d.conns ≡ some c
    → Inv d
    → Goes (Cleared q d id) (let_go q d id c)
unfolding let_go
let_go-Inv q d id c known inv =
    let (r, e, v) = release-IsValid (pool q d) id (inv q).valid in
    rw e (
      changed_state-Inv q r.0 false d id c known inv v
          (λ j ne f. release-IsFree (pool q d) id j r (inv q).valid e (inr f))
          (λ _. release-IsFree (pool q d) id id r (inv q).valid e (inl refl)),
      flag_after q r.0 d id c known,
    )

release_requested-Inv :
    (q : PoolName) (id : ℕ) (d : Daemon) → Inv d → Goes (Cleared q d id) (release_requested q id d)
unfolding release_requested
release_requested-Inv q id d inv = elim (Option-cases (get ℕ_discrete id d.conns)) [
  | inl unknown ↦ rw (unknown, release_requested) (inv, λ p h. ap (flag_of p) unknown)
  | inr (c, known) ↦
      rw (known, release_requested)
        (Goes-if _ (requested q c) (let_go q d id c) (went d [])
          (λ held. let_go-Inv q d id c known inv)
          (λ free. (inv, λ p h. still_clear q p d id c known free h)))
]

pub on_release-Inv :
    (q : PoolName) (d : Daemon) (id : ℕ) (c : Conn)
    → get ℕ_discrete id d.conns ≡ some c
    → Inv d
    → After Inv (on_release q d id c)
unfolding on_release
on_release-Inv q d id c known inv =
    After-if Inv (requested q c) (let_go q d id c) exited
      (λ held. Goes-After Inv (let_go q d id c) (
        Goes-map (Cleared q d id) Inv (let_go q d id c) (λ d' h. h.0)
          (let_go-Inv q d id c known inv)))
      (λ free. tt)

requested_closed :
    (p : PoolName) (c : Conn) → requested p (record c { compile_closed = true }) ≡ requested p c
unfolding requested
requested_closed cpp c = refl
requested_closed compile c = refl
requested_closed local c = refl

pub pool_subscribers :
    (p : PoolName) (d : Daemon) (ids : List ℕ)
    → pool p (record d { slot_subscribers = ids }) ≡ pool p d
unfolding pool
pool_subscribers cpp d ids = refl
pool_subscribers compile d ids = refl
pool_subscribers local d ids = refl

closed_conn-Inv :
    (d : Daemon) (id : ℕ) (c : Conn)
    → get ℕ_discrete id d.conns ≡ some c
    → Inv d
    → Inv (put_conn id (record c { compile_closed = true }) d)
closed_conn-Inv d id c known inv =
    let c' = record c { compile_closed = true } in
    same-Inv d _ (λ p. pool-put_conn p id c' d)
      (λ p j. flag-put_same p d id j c c' known (requested_closed p c)) inv

pub each_pool : (P : PoolName → Type 0) → P cpp → P compile → P local → (p : PoolName) → P p
each_pool P a b c cpp = a
each_pool P a b c compile = b
each_pool P a b c local = c

-- The connection holds no slot of any pool, and waits for none.
abbrev pub HoldsNothing : ℕ → Daemon → Type 0
HoldsNothing id d = (p : PoolName) → IsFree (pool p d) id

drop_subscriber-Inv :
    (id : ℕ) (d : Daemon)
    → Inv d
    → ((p : PoolName) → flag p d id ≡ false)
    → Goes (λ d'. Inv d' × HoldsNothing id d') (drop_subscriber id d)
unfolding drop_subscriber
drop_subscriber-Inv id d inv clear =
    let inv' =
      same-Inv d (record d { slot_subscribers = unsubscribe id d.slot_subscribers })
        (λ p. pool_subscribers p d _) (λ p j. refl) inv in
    (inv', λ p. (inv' p).clear id (clear p))

-- A connection that ends or fails gives back all that it has; no assert throws on the way.
pub on_closed-Inv :
    (d : Daemon) (id : ℕ) (c : Conn)
    → get ℕ_discrete id d.conns ≡ some c
    → Inv d
    → Goes (λ d'. Inv d' × HoldsNothing id d') (on_closed d id c)
unfolding on_closed
on_closed-Inv d id c known inv =
    let d0 = put_conn id (record c { compile_closed = true }) d in
    let s1 = release_requested cpp id d0 in
    let s2 = and_then s1 (release_requested compile id) in
    let s3 = and_then s2 (release_requested local id) in
    let h1 : Goes (λ d'. Inv d' × (flag cpp d' id ≡ false)) s1 =
      Goes-map _ _ s1 (λ d' h. (h.0, h.1 cpp (inl refl)))
        (release_requested-Inv cpp id d0 (closed_conn-Inv d id c known inv)) in
    let h2 : Goes (λ d'. Inv d' × (flag cpp d' id ≡ false) × (flag compile d' id ≡ false)) s2 =
      Goes-and_then _ _ s1 (release_requested compile id) h1 (λ d1 h.
        Goes-map _ _ (release_requested compile id d1)
          (λ d' k. (k.0, k.1 cpp (inr h.1), k.1 compile (inl refl)))
          (release_requested-Inv compile id d1 h.0)) in
    let h3 : Goes (λ d'. Inv d' × ((p : PoolName) → flag p d' id ≡ false)) s3 =
      Goes-and_then _ _ s2 (release_requested local id) h2 (λ d2 h.
        Goes-map _ _ (release_requested local id d2)
          (λ d' k. (
            k.0,
            each_pool (λ p. flag p d' id ≡ false) (k.1 cpp (inr h.1)) (k.1 compile (inr h.2))
                (k.1 local (inl refl)),
          ))
          (release_requested-Inv local id d2 h.0)) in
    Goes-and_then _ _ s3 (drop_subscriber id) h3 (λ d3 h. drop_subscriber-Inv id d3 h.0 h.1)

fall_back-Inv :
    (d : Daemon) (id : ℕ) (c : Conn) (r : CompilerInfoResult)
    → get ℕ_discrete id d.conns ≡ some c
    → Inv d
    → Goes Inv (fall_back d id c r)
unfolding fall_back
fall_back-Inv d id c r known inv =
    Goes-if Inv (requested cpp c) (went d []) (on_acquire cpp (respond_cpp id r) d id c)
      (λ twice. inv) (λ once. on_acquire_once cpp (respond_cpp id r) d id c known once inv)

grant_local-Inv :
    (d : Daemon) (id : ℕ) (c : Conn) (r : CompilerInfoResult) (es : List (Event Call))
    → get ℕ_discrete id d.conns ≡ some c
    → Inv d
    → Goes Inv (grant_local d id c r (Slots.try_acquire d.local_slots id c.pid).0 es)
unfolding grant_local pool
grant_local-Inv d id c r es known inv =
    changed_state-Inv local (Slots.try_acquire d.local_slots id c.pid).0 true d id c known inv
      (try_acquire-IsValid d.local_slots id c.pid (inv local).valid)
      (λ j ne f. try_acquire-IsFree d.local_slots id c.pid j ne f) (λ e. cc)

resolved_local-Inv :
    (d : Daemon) (id : ℕ) (c : Conn) (r : CompilerInfoResult)
    → get ℕ_discrete id d.conns ≡ some c
    → Inv d
    → Goes Inv (resolved_local d id c r)
unfolding resolved_local
resolved_local-Inv d id c r known inv =
    Goes-if Inv (Slots.try_acquire d.local_slots id c.pid).2 _ (fall_back d id c r)
      (λ granted. grant_local-Inv d id c r (Slots.try_acquire d.local_slots id c.pid).1 known inv)
      (λ refused. fall_back-Inv d id c r known inv)

pub on_info_resolved-Inv :
    (d : Daemon) (id : ℕ) (c : Conn) (r : CompilerInfoResult) (load : ℕ)
    → get ℕ_discrete id d.conns ≡ some c
    → Inv d
    → Goes Inv (on_info_resolved d id c r load)
unfolding on_info_resolved
on_info_resolved-Inv d id c r load known inv =
    Goes-if Inv c.compile_closed (went d []) _ (λ closed. inv)
      (λ here.
        Goes-if Inv (can_acquire_local_slot d load) (resolved_local d id c r) (fall_back d id c r)
          (λ may. resolved_local-Inv d id c r known inv)
          (λ may_not. fall_back-Inv d id c r known inv))

pub on_acquire_slot-Inv :
    (d : Daemon) (id : ℕ) (path : Option String) → Inv d → Goes Inv (on_acquire_slot d id path)
unfolding on_acquire_slot
on_acquire_slot-Inv d id none inv = inv
on_acquire_slot-Inv d id (some path) inv = elim (String_discrete path "") [
  | yes e ↦ rw (if_pos _ e) inv
  | no e ↦ rw (if_neg _ e) inv
]
