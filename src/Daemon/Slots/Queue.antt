-- ===== src/Daemon/Slots/Queue.antt =====
-- The contract of a slot pool: one queue of clients in the order of their requests, of which the
-- first `count` hold the slots and the others wait.
use fisk.Base.{
  ℕ, ◌+◌, ◌≡◌, refl, sym, ap, subst, ◌∙◌, inl, inr, ite, none, some, List, [], ◌∷◌, ◌++◌,
  append-nil, append_assoc, arith, ℕ_discrete, ltb, Bool-cases, Option-cases, length, take, drop,
  take-drop-append,
}
use fisk.OrderedMap.{OrderedMap, keys, get, set, delete}
use fisk.OrderedMap.Laws.{
  IsDistinct, set_new, delete_absent, delete-cons_self, get-set_self, keys-append, length-keys,
}
use fisk.Daemon.Slots.{
  Slots, MapData, Event, changed, called, Outcome, done, occupy, acquire, serve_first, release,
}
use fisk.Daemon.Slots.Invariant.{
  IsValid, IsFree, freed, release_held, release_not_held, waiting_idle, HasRoom, freed-HasRoom,
}

-- The clients that hold a slot or wait for one, by the time of their requests.
abbrev pub queue : {C : Type 0} → Slots C → List ℕ
queue s = keys s.used ++ keys s.pending

-- A client leaves the queue.
pub leave : ℕ → List ℕ → List ℕ
leave id [] = []
leave id (j ∷ ids) = ite (ℕ_discrete j id) (leave id ids) (j ∷ leave id ids)

-- The two updates of an ordered map, seen by its keys.
keys-set_new :
    {V : Type 0} (id : ℕ) (x : V) (m : OrderedMap ℕ V)
    → get ℕ_discrete id m ≡ none
    → keys (set ℕ_discrete id x m) ≡ keys m ++ id ∷ []
keys-set_new id x m h = ap keys (set_new ℕ_discrete id x m h) ∙ keys-append m ((id, x) ∷ [])

keys-delete :
    {V : Type 0} (id : ℕ) (m : OrderedMap ℕ V) → keys (delete ℕ_discrete id m) ≡ leave id (keys m)
unfolding delete leave
keys-delete id [] = refl
keys-delete id ((j, x) ∷ m) = ground (arith, keys-delete id m)

leave-append : (id : ℕ) (xs ys : List ℕ) → leave id (xs ++ ys) ≡ leave id xs ++ leave id ys
unfolding leave
leave-append id [] ys = refl
leave-append id (x ∷ xs) ys = ground (arith, leave-append id xs ys)

module _ {C : Type 0} where
  empty_keys : (m : OrderedMap ℕ (MapData C)) → m ≡ [] → keys m ≡ []
  empty_keys m e = ap keys e

  -- In a valid pool the slots belong to the first `count` clients of the queue, and the others
  -- wait.
  pub queue_split :
      (s : Slots C)
      → IsValid s
      → (take s.count (queue s) ≡ keys s.used) × (drop s.count (queue s) ≡ keys s.pending)
  queue_split s v =
      take-drop-append s.count (keys s.used) (keys s.pending)
        (omega (arith, length-keys s.used, v.bounded))
        (ground (arith, length-keys s.used, v.busy, empty_keys s.pending))

  queue-occupy :
      (s : Slots C) (id pid : ℕ)
      → IsFree s id
      → s.pending ≡ []
      → queue (occupy s id pid) ≡ queue s ++ id ∷ []
  queue-occupy s id pid free idle = rw (idle, keys-set_new id pid s.used free.0) (simp append-nil)

  -- In a valid pool a request from a client that has no slot and waits for none goes to the end of
  -- the queue.
  pub queue-acquire :
      (s : Slots C) (id pid : ℕ) (cb : C)
      → IsValid s
      → IsFree s id
      → queue (acquire s id pid cb).0 ≡ queue s ++ id ∷ []
  unfolding acquire
  queue-acquire s id pid cb v free = elim (Bool-cases (ltb (length s.used) s.count)) [
    | inl room ↦ rw room (queue-occupy s id pid free (ground (arith, v.busy)))
    | inr full ↦
        rw (full, keys-set_new id (record { cb = cb; pid = pid }) s.pending free.1)
          (sym (append_assoc (keys s.used) (keys s.pending) (id ∷ [])))
  ]

  queue-serve_first :
      (s : Slots C) (q : OrderedMap ℕ (MapData C))
      → s.pending ≡ q
      → HasRoom s
      → queue (serve_first s q).0 ≡ queue s
  unfolding serve_first
  queue-serve_first s [] e h = refl
  queue-serve_first s ((id, p) ∷ rest) e h =
      let others =
        ap (delete ℕ_discrete id) e
        ∙ delete-cons_self ℕ_discrete id p rest (subst (IsDistinct ℕ_discrete) e h.pending_once) in
      rw (keys-set_new id p.pid s.used (waiting_idle s e h), others)
        (append_assoc (keys s.used) (id ∷ []) (keys rest) ∙ ap (λ m. keys s.used ++ keys m) (sym e))

  queue-withdraw :
      (s : Slots C) (id : ℕ)
      → get ℕ_discrete id s.used ≡ none
      → queue (record s { pending = delete ℕ_discrete id s.pending }) ≡ leave id (queue s)
  queue-withdraw s id e =
      rw (leave-append id (keys s.used) (keys s.pending), ← keys-delete id s.used)
        (rw (delete_absent ℕ_discrete id s.used e, keys-delete id s.pending))

  queue-freed : (s : Slots C) (id : ℕ) → queue (freed s id) ≡ leave id (queue s)
  queue-freed s id = rw (
    leave-append id (keys s.used) (keys s.pending),
    keys-delete id s.used,
    keys-delete id s.pending,
  )

  -- In a valid pool `release` takes the client out of the queue, whether it holds a slot or waits, and
  -- changes nothing else of the queue.
  pub queue-release :
      (s : Slots C) (id : ℕ) (r : Slots C × List (Event C))
      → IsValid s
      → release s id ≡ done r
      → queue r.0 ≡ leave id (queue s)
  queue-release s id r v e = elim (Option-cases (get ℕ_discrete id s.used)) [
    | inl free ↦
        subst (λ q. queue q ≡ leave id (queue s)) (result (release_not_held s id free))
          (queue-withdraw s id free)
    | inr (pid, held) ↦
        subst (λ q. queue q ≡ leave id (queue s)) (result (release_held s id pid v held))
          (queue-serve_first (freed s id) (freed s id).pending refl (freed-HasRoom s id pid v held)
            ∙ queue-freed s id)
  ]
    where
      result : {q : Slots C × List (Event C)} → release s id ≡ done q → q.0 ≡ r.0
      result h = cc

  abbrev served : Slots C → OrderedMap ℕ (MapData C) → Outcome (Slots C × List (Event C))
  served t q = done ((serve_first t q).0, (serve_first t q).1 ++ changed ∷ [])

  -- In a valid pool, when a client gives back its slot and others wait, the first of them gets it:
  -- its callback is the only one called, before the one "changed" event, it waits no more, and the
  -- total grows by one.
  pub release_serves_first :
      (s : Slots C) (id pid j : ℕ) (p : MapData C) (rest : OrderedMap ℕ (MapData C))
      → IsValid s
      → get ℕ_discrete id s.used ≡ some pid
      → s.pending ≡ (j, p) ∷ rest
      → (t : Slots C) × (release s id ≡ done (t, called p.cb ∷ changed ∷ []))
        × (get ℕ_discrete j t.used ≡ some p.pid)
        × (t.pending ≡ rest)
        × (t.total_acquired ≡ s.total_acquired + 1)
  unfolding serve_first
  release_serves_first s id pid j p rest v held waits =
      let t = freed s id in
      let kept : t.pending ≡ (j, p) ∷ rest =
        delete_absent ℕ_discrete id s.pending (ground (arith, v.apart id)) ∙ waits in
      let distinct = subst (IsDistinct ℕ_discrete) waits v.pending_once in
      (
        (serve_first t ((j, p) ∷ rest)).0,
        release_held s id pid v held ∙ ap (λ q. served t q) kept,
        get-set_self ℕ_discrete j p.pid t.used,
        ap (delete ℕ_discrete j) kept ∙ delete-cons_self ℕ_discrete j p rest distinct,
        refl,
      )
