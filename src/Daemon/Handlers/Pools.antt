-- ===== src/Daemon/Handlers/Pools.antt =====
-- What the slot methods do to the clients that have no slot and wait for none.
use fisk.Base.{
  ℕ, ◌≡◌, refl, sym, ap, subst, ◌≢◌, ◌⊎◌, inl, inr, false, List, [], ◌∷◌, arith, ℕ_discrete,
  Option-cases,
}
use fisk.OrderedMap.{OrderedMap, get}
use fisk.OrderedMap.Laws.{get-set, get-delete, get-cons_self, delete_absent}
use fisk.Daemon.Slots.{Slots, MapData, Event, done, acquire, try_acquire, release, serve_first}
use fisk.Daemon.Slots.Invariant.{IsValid, IsFree, freed, handed_on, release_held, release_not_held}

module _ {C : Type 0} where
  -- A request changes nothing for the other clients.
  pub acquire-IsFree :
      (s : Slots C) (id pid j : ℕ) (cb : C) → id ≢ j → IsFree s j → IsFree (acquire s id pid cb).0 j
  unfolding acquire
  acquire-IsFree s id pid j cb ne f = ground (
    arith,
    get-set ℕ_discrete id j pid s.used,
    get-set ℕ_discrete id j (record { cb = cb; pid = pid }) s.pending,
  )

  pub try_acquire-IsFree :
      (s : Slots C) (id pid j : ℕ) → id ≢ j → IsFree s j → IsFree (try_acquire s id pid).0 j
  unfolding try_acquire
  try_acquire-IsFree s id pid j ne f = ground (arith, get-set ℕ_discrete id j pid s.used)

  -- A refused attempt leaves the pool as it was.
  pub try_acquire_refused :
      (s : Slots C) (id pid : ℕ) → (try_acquire s id pid).2 ≡ false → (try_acquire s id pid).0 ≡ s
  unfolding try_acquire
  try_acquire_refused s id pid h = ground arith

  serve_first-IsFree :
      (s : Slots C) (q : OrderedMap ℕ (MapData C)) (j : ℕ)
      → s.pending ≡ q
      → IsFree s j
      → IsFree (serve_first s q).0 j
  unfolding serve_first
  serve_first-IsFree s [] j e f = f
  serve_first-IsFree s ((id, p) ∷ rest) j e f = ground (
    arith,
    get-set ℕ_discrete id j p.pid s.used,
    get-delete ℕ_discrete id j s.pending,
    get-cons_self ℕ_discrete id p rest,
    ap (get ℕ_discrete j) e,
  )

  freed-IsFree : (s : Slots C) (id j : ℕ) → (id ≡ j) ⊎ IsFree s j → IsFree (freed s id) j
  freed-IsFree s id j h =
      ground (arith, get-delete ℕ_discrete id j s.used, get-delete ℕ_discrete id j s.pending)

  -- `release` leaves the pool without the client, and then serves the next one or nobody.
  release_result :
      (s : Slots C) (id : ℕ) (r : Slots C × List (Event C))
      → IsValid s
      → release s id ≡ done r
      → (r.0 ≡ (handed_on (freed s id)).0) ⊎ (r.0 ≡ freed s id)
  release_result s id r v e = elim (Option-cases (get ℕ_discrete id s.used)) [
    | inl free ↦ inr (cc (release_not_held s id free, delete_absent ℕ_discrete id s.used free))
    | inr (pid, held) ↦ inl (cc (release_held s id pid v held))
  ]

  -- A release gives no slot to a client that did not ask, and takes all from the one it is for.
  pub release-IsFree :
      (s : Slots C) (id j : ℕ) (r : Slots C × List (Event C))
      → IsValid s
      → release s id ≡ done r
      → (id ≡ j) ⊎ IsFree s j
      → IsFree r.0 j
  release-IsFree s id j r v e h = elim (release_result s id r v e) [
    | inl q ↦
        subst (λ t. IsFree t j) (sym q)
          (serve_first-IsFree (freed s id) (freed s id).pending j refl (freed-IsFree s id j h))
    | inr q ↦ subst (λ t. IsFree t j) (sym q) (freed-IsFree s id j h)
  ]
