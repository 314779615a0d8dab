-- ===== src/Daemon/Handlers/Protocol.antt =====
-- Every step of the daemon keeps its invariant, and only a client that breaks the protocol ends it.
use fisk.Base.{
  ℕ, ◌≡◌, refl, sym, ap, subst, ◌∙◌, inl, inr, if_pos, if_neg, true, false, none, some, List, [],
  ◌∷◌, ◌++◌, arith, ℕ_discrete, Option-cases,
}
use fisk.OrderedMap.{get}
use fisk.Daemon.Slots
use fisk.Daemon.Slots.{Slots}
use fisk.Daemon.Slots.Invariant.{IsValid, IsFree, create-IsValid}
use fisk.Daemon.Handlers.{
  Conn, Daemon, PoolName, cpp, compile, local, Call, pool, requested, Step, went, exited, put_conn,
  Sent, and_then, on_closed, on_info_resolved, on_acquire_slot, on_subscribe, CompilerInfoResult,
  Input, connected, dump_slots, subscribe_slots, acquire_cpp_slot, release_cpp_slot,
  acquire_compile_slot, release_compile_slot, acquire_slot, info_resolved, release_local_slot,
  ended, failed, dispatch, unknown, new_conn, step, run, start, send_cpp_acquired,
  send_compile_acquired,
}
use fisk.Daemon.Handlers.Invariant.{
  flag_of, flag, Tracks, Inv, After, Goes, Goes-After, Goes-map, pool-put_conn, flag-put_conn,
  same-Inv,
}
use fisk.Daemon.Handlers.Steps.{
  on_acquire-Inv, on_release-Inv, on_info_resolved-Inv, on_acquire_slot-Inv, on_closed-Inv,
  HoldsNothing, pool_subscribers, each_pool,
}

create-IsFree : (n id : ℕ) → IsFree (Slots.create {C = Call} n) id
unfolding Slots.create get
create-IsFree n id = (refl, refl)

After-and_then :
    (P Q : Daemon → Type 0) (s : Step) (f : Daemon → Step)
    → After P s
    → ((d : Daemon) → P d → After Q (f d))
    → After Q (and_then s f)
After-and_then P Q exited f h g = tt
After-and_then P Q (went d out) f h g = prepend (f d) (g d h)
  where
    prepend :
        (t : Step)
        → After Q t
        → After Q (elim t [ exited ↦ exited | went d' out' ↦ went d' (out ++ out') ])
    prepend exited k = tt
    prepend (went d' out') k = k

on_closed-After :
    (d : Daemon) (id : ℕ) (c : Conn)
    → get ℕ_discrete id d.conns ≡ some c
    → Inv d
    → After Inv (on_closed d id c)
on_closed-After d id c known inv =
    Goes-After Inv (on_closed d id c)
      (Goes-map _ Inv (on_closed d id c) (λ d' h. h.0) (on_closed-Inv d id c known inv))

dispatch-Inv :
    (d : Daemon) (id : ℕ) (c : Conn) (i : Input)
    → get ℕ_discrete id d.conns ≡ some c
    → Inv d
    → After Inv (dispatch d id c i)
unfolding dispatch on_subscribe
dispatch-Inv d id c (connected pid) known inv = inv
dispatch-Inv d id c dump_slots known inv = inv
dispatch-Inv d id c subscribe_slots known inv =
    same-Inv d _ (λ p. pool_subscribers p d _) (λ p j. refl) inv
dispatch-Inv d id c acquire_cpp_slot known inv =
    on_acquire-Inv cpp (send_cpp_acquired id) d id c known inv
dispatch-Inv d id c release_cpp_slot known inv = on_release-Inv cpp d id c known inv
dispatch-Inv d id c acquire_compile_slot known inv =
    on_acquire-Inv compile (send_compile_acquired id) d id c known inv
dispatch-Inv d id c release_compile_slot known inv = on_release-Inv compile d id c known inv
dispatch-Inv d id c (acquire_slot path) known inv =
    Goes-After Inv (on_acquire_slot d id path) (on_acquire_slot-Inv d id path inv)
dispatch-Inv d id c (info_resolved r load) known inv =
    Goes-After Inv (on_info_resolved d id c r load) (on_info_resolved-Inv d id c r load known inv)
dispatch-Inv d id c release_local_slot known inv = on_release-Inv local d id c known inv
dispatch-Inv d id c ended known inv = on_closed-After d id c known inv
dispatch-Inv d id c failed known inv = on_closed-After d id c known inv

new_conn-clear : (p : PoolName) (pid : ℕ) → requested p (new_conn pid) ≡ false
unfolding requested
new_conn-clear cpp pid = refl
new_conn-clear compile pid = refl
new_conn-clear local pid = refl

flag-put_new :
    (p : PoolName) (d : Daemon) (id j pid : ℕ)
    → get ℕ_discrete id d.conns ≡ none
    → flag p (put_conn id (new_conn pid) d) j ≡ flag p d j
flag-put_new p d id j pid new = elim (ℕ_discrete id j) [
  | yes here ↦
      subst (λ k. flag p (put_conn id (new_conn pid) d) k ≡ flag p d k) here
        (flag-put_conn p d id id (new_conn pid)
          ∙ if_pos (ℕ_discrete id id) refl _ _
          ∙ new_conn-clear p pid
          ∙ sym (ap (flag_of p) new))
  | no there ↦ flag-put_conn p d id j (new_conn pid) ∙ if_neg (ℕ_discrete id j) there _ _
]

unknown-Inv :
    (d : Daemon) (id : ℕ) (i : Input)
    → get ℕ_discrete id d.conns ≡ none
    → Inv d
    → After Inv (unknown d id i)
unfolding unknown
unknown-Inv d id (connected pid) new inv =
    same-Inv d _ (λ p. pool-put_conn p id (new_conn pid) d) (λ p j. flag-put_new p d id j pid new)
      inv
unknown-Inv d id _ new inv = inv

-- Whatever happens to whichever connection, the daemon keeps its invariant, or exits.
pub step-Inv : (d : Daemon) (i : ℕ × Input) → Inv d → After Inv (step d i)
unfolding step
step-Inv d (id, i) inv = elim (Option-cases (get ℕ_discrete id d.conns)) [
  | inl new ↦ rw (new, step) (unknown-Inv d id i new inv)
  | inr (c, known) ↦ rw (known, step) (dispatch-Inv d id c i known inv)
]

pub run-Inv : (d : Daemon) (is : List (ℕ × Input)) → Inv d → After Inv (run d is)
unfolding run
run-Inv d [] inv = inv
run-Inv d (i ∷ is) inv =
    After-and_then Inv Inv (step d i) (λ d'. run d' is) (step-Inv d i inv) (λ d' h. run-Inv d' is h)

fresh-Tracks :
    (p : PoolName) (n : ℕ) (d : Daemon) → pool p d ≡ Slots.create n → d.conns ≡ [] → Tracks p d
fresh-Tracks p n d e c = record {
  valid = subst IsValid (sym e) (create-IsValid n);
  clear = λ id h. subst (λ s. IsFree s id) (sym e) (create-IsFree n id);
}

pub start-Inv : (cpps compiles locals max_load : ℕ) → Inv (start cpps compiles locals max_load)
unfolding start pool
start-Inv cpps compiles locals max_load =
    each_pool _ (fresh-Tracks cpp cpps _ refl refl) (fresh-Tracks compile compiles _ refl refl)
      (fresh-Tracks local locals _ refl refl)

-- From the start, whatever the connections do, in every state that the daemon reaches each pool is
-- valid, and a connection with no request of a pool has nothing of it.
pub run-start-Inv :
    (cpps compiles locals max_load : ℕ) (is : List (ℕ × Input)) (d : Daemon) (out : List Sent)
    → run (start cpps compiles locals max_load) is ≡ went d out
    → Inv d
run-start-Inv cpps compiles locals max_load is d out e =
    subst (After Inv) e
      (run-Inv (start cpps compiles locals max_load) is (start-Inv cpps compiles locals max_load))

-- What a client must not send: an acquire while its request stands, a release without one.
abbrev pub Breaks : Conn → Input → Type 0
Breaks c acquire_cpp_slot = c.requested_cpp_slot ≡ true
Breaks c release_cpp_slot = c.requested_cpp_slot ≡ false
Breaks c acquire_compile_slot = c.requested_compile_slot ≡ true
Breaks c release_compile_slot = c.requested_compile_slot ≡ false
Breaks c release_local_slot = c.requested_local_slot ≡ false
Breaks c _ = ⊥

-- In a state that keeps the invariant, when a known connection ends or fails, the daemon goes on
-- and keeps the invariant, and the connection is left with no slot of any pool and no request that
-- waits.
pub step_closed :
    (d : Daemon) (id : ℕ) (c : Conn)
    → Inv d
    → get ℕ_discrete id d.conns ≡ some c
    → Goes (λ d'. Inv d' × HoldsNothing id d') (step d (id, ended))
      × Goes (λ d'. Inv d' × HoldsNothing id d') (step d (id, failed))
unfolding step dispatch
step_closed d id c inv known = (
  rw (known, step) (on_closed-Inv d id c known inv),
  rw (known, step) (on_closed-Inv d id c known inv),
)

-- The answer of a compiler lookup that comes after its connection, still known, has closed changes
-- nothing and sends nothing.
pub step_late_info :
    (d : Daemon) (id : ℕ) (c : Conn) (r : CompilerInfoResult) (load : ℕ)
    → get ℕ_discrete id d.conns ≡ some c
    → c.compile_closed ≡ true
    → step d (id, info_resolved r load) ≡ went d []
unfolding step dispatch on_info_resolved
step_late_info d id c r load known closed = rw (known, step) (ground (arith, closed))
