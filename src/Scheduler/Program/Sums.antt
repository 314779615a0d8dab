-- ===== src/Scheduler/Program/Sums.antt =====
-- src/scheduler/fisk-scheduler.ts: the sums that `capacity` and `activeClients` keep, computed from the
-- builders and the compiles, and how updates change them.
use fisk.Base.{
  ℕ, ◌+◌, ◌≡◌, refl, subst, inl, inr, ite, true, false, Option, none, some, List, ◌∷◌, arith,
  ℕ_discrete, Option-cases, length, holds, take_out, push_new, [],
}
use fisk.OrderedMap.{OrderedMap, get, set, delete}
use fisk.OrderedMap.Laws.{IsDistinct, get-set}
use fisk.Scheduler.Builder
use fisk.Scheduler.Program.{look_up, listed_if}
use fisk.Scheduler.Choice.{Choice}
use fisk.Scheduler.Choice.Search.{IsOneOf}

abbrev pub slots_of : Option Builder.Builder → ℕ
slots_of none = 0
slots_of (some b) = b.slots

abbrev pub clients_of : Option Builder.Builder → ℕ
clients_of none = 0
clients_of (some b) = b.active_clients

-- The slots of these builders.
abbrev pub total_slots : OrderedMap ℕ Builder.Builder → List ℕ → ℕ
total_slots m [] = 0
total_slots m (id ∷ ids) = slots_of (get ℕ_discrete id m) + total_slots m ids

-- How many compiles have this builder.
abbrev pub serving : ℕ → OrderedMap ℕ ℕ → ℕ
serving id [] = 0
serving id ((cid, b) ∷ m) = ite (ℕ_discrete b id) 1 0 + serving id m

pub total_slots-set :
    (id : ℕ) (b : Builder.Builder) (m : OrderedMap ℕ Builder.Builder) (ids : List ℕ)
    → b.slots ≡ slots_of (get ℕ_discrete id m)
    → total_slots (set ℕ_discrete id b m) ids ≡ total_slots m ids
total_slots-set id b m [] h = refl
total_slots-set id b m (j ∷ js) h =
    ground (arith, get-set ℕ_discrete id j b m, total_slots-set id b m js h)

pub total_slots-set_absent :
    (id : ℕ) (b : Builder.Builder) (m : OrderedMap ℕ Builder.Builder) (ids : List ℕ)
    → holds ℕ_discrete id ids ≡ false
    → total_slots (set ℕ_discrete id b m) ids ≡ total_slots m ids
total_slots-set_absent id b m [] h = refl
total_slots-set_absent id b m (j ∷ js) h =
    ground (arith, get-set ℕ_discrete id j b m, total_slots-set_absent id b m js)

pub total_slots-push_new :
    (id : ℕ) (m : OrderedMap ℕ Builder.Builder) (ids : List ℕ)
    → holds ℕ_discrete id ids ≡ false
    → total_slots m (push_new ℕ_discrete id ids)
      ≡ total_slots m ids + slots_of (get ℕ_discrete id m)
unfolding push_new
total_slots-push_new id m [] h = omega arith
total_slots-push_new id m (j ∷ js) h = ground (arith, total_slots-push_new id m js)

pub length-push_new :
    (id : ℕ) (ids : List ℕ)
    → holds ℕ_discrete id ids ≡ false
    → length (push_new ℕ_discrete id ids) ≡ length ids + 1
unfolding push_new
length-push_new id [] h = refl
length-push_new id (j ∷ js) h = ground (arith, length-push_new id js)

pub total_slots-take_out :
    (id : ℕ) (m : OrderedMap ℕ Builder.Builder) (ids : List ℕ)
    → holds ℕ_discrete id ids ≡ true
    → total_slots m (take_out ℕ_discrete id ids) + slots_of (get ℕ_discrete id m)
      ≡ total_slots m ids
unfolding take_out
total_slots-take_out id m [] h = cc
total_slots-take_out id m (j ∷ js) h = ground (arith, total_slots-take_out id m js)

pub length-take_out :
    (id : ℕ) (ids : List ℕ)
    → holds ℕ_discrete id ids ≡ true
    → length (take_out ℕ_discrete id ids) + 1 ≡ length ids
unfolding take_out
length-take_out id [] h = cc
length-take_out id (j ∷ js) h = ground (arith, length-take_out id js)

pub serving-set :
    (cid id j : ℕ) (m : OrderedMap ℕ ℕ)
    → get ℕ_discrete cid m ≡ none
    → serving j (set ℕ_discrete cid id m) ≡ ite (ℕ_discrete id j) 1 0 + serving j m
unfolding get set
serving-set cid id j [] h = refl
serving-set cid id j ((c, i) ∷ m) h = ground (arith, serving-set cid id j m)

pub serving-delete_absent :
    (cid j : ℕ) (m : OrderedMap ℕ ℕ)
    → get ℕ_discrete cid m ≡ none
    → serving j (delete ℕ_discrete cid m) ≡ serving j m
unfolding get delete
serving-delete_absent cid j [] h = refl
serving-delete_absent cid j ((c, i) ∷ m) h = ground (arith, serving-delete_absent cid j m)

pub serving-delete :
    (cid id j : ℕ) (m : OrderedMap ℕ ℕ)
    → IsDistinct ℕ_discrete m
    → get ℕ_discrete cid m ≡ some id
    → serving j (delete ℕ_discrete cid m) + ite (ℕ_discrete id j) 1 0 ≡ serving j m
unfolding get delete
serving-delete cid id j [] u h = cc
serving-delete cid id j ((c, i) ∷ m) u h = elim (ℕ_discrete c cid) [
  | yes p ↦ ground (arith, serving-delete_absent cid j m, u.0)
  | no p ↦ ground (arith, serving-delete cid id j m u.1)
]

-- A builder that was looked up is the one of its identity.
pub look_up-IsOneOf :
    (m : OrderedMap ℕ Builder.Builder) (ids : List ℕ) (k : Choice)
    → IsOneOf k (look_up m ids)
    → get ℕ_discrete k.id m ≡ some k.builder
unfolding look_up
look_up-IsOneOf m [] k h = elim h [ ]
look_up-IsOneOf m (id ∷ ids) k h = elim (Option-cases (get ℕ_discrete id m)) [
  | inl e ↦ look_up-IsOneOf m ids k (subst (λ o. IsOneOf k (listed_if id o (look_up m ids))) e h)
  | inr (b, e) ↦ elim (subst (λ o. IsOneOf k (listed_if id o (look_up m ids))) e h) [
    | inl (p, q) ↦ rw (p, q, e)
    | inr later ↦ look_up-IsOneOf m ids k later
  ]
]
