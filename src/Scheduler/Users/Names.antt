-- ===== src/Scheduler/Users/Names.antt =====
-- The names of pendingUsers in src/scheduler/fisk-scheduler.ts and the operations that hold them.
use fisk.Base.{
  Option, ℕ, ◌+◌, ◌≤◌, ◌≡◌, refl, String, ite, false, none, some, List, [], ◌∷◌, ◌++◌, arith,
  ℕ_discrete, String_discrete, holds, take_out,
}
use fisk.OrderedMap.{OrderedMap, get, set}
use fisk.OrderedMap.Laws.{IsDistinct, set-IsDistinct}
use fisk.OrderedMap.Sums.{sum_values, sum_values-set_new, sum_values-set}
use fisk.Scheduler.Users.{User, Operation, Users, held_name}

-- How often a name is in a list.
abbrev pub times : String → List String → ℕ
times name [] = 0
times name (n ∷ ns) = ite (String_discrete n name) 1 0 + times name ns

-- Whether an operation adds or removes this user, as a number.
abbrev pub holds_name : String → Operation → ℕ
holds_name name op = elim (held_name op.kind) [
  | none ↦ 0
  | some n ↦ ite (String_discrete n name) 1 0
]

-- How many operations add or remove this user.
abbrev pub in_flight : String → Users → ℕ
in_flight name s = sum_values ℕ_discrete (holds_name name) s.operations

pub times-append :
    (name : String) (xs ys : List String) → times name (xs ++ ys) ≡ times name xs + times name ys
times-append name [] ys = omega arith
times-append name (x ∷ xs) ys = omega (arith, times-append name xs ys)

pub times_absent :
    (name : String) (ns : List String) → holds String_discrete name ns ≡ false → times name ns ≡ 0
times_absent name [] h = refl
times_absent name (n ∷ ns) h = ground (arith, times_absent name ns)

pub times-take_out :
    (name n : String) (ns : List String)
    → 1 ≤ times n ns
    → times name (take_out String_discrete n ns) + ite (String_discrete n name) 1 0 ≡ times name ns
unfolding take_out
times-take_out name n [] h = absurd (omega (arith, h))
times-take_out name n (m ∷ ms) h = ground (arith, times-take_out name n ms, h)

pub record IsHeld (pending : List String) (operations : OrderedMap ℕ Operation) : Type 0 where
  pub counts :
      (name : String) → sum_values ℕ_discrete (holds_name name) operations ≡ times name pending
  pub once : (name : String) → times name pending ≤ 1
  pub distinct : IsDistinct ℕ_discrete operations

-- A name that no operation holds is taken by one.
pub take-IsHeld :
    (ps : List String) (ops : OrderedMap ℕ Operation) (id : ℕ) (op : Operation) (n : String)
    → IsHeld ps ops
    → get ℕ_discrete id ops ≡ none
    → held_name op.kind ≡ some n
    → holds String_discrete n ps ≡ false
    → IsHeld (ps ++ n ∷ []) (set ℕ_discrete id op ops)
take-IsHeld ps ops id op n w new held free = record {
  counts = λ name. ground (
    arith,
    sum_values-set_new ℕ_discrete (holds_name name) id op ops new,
    times-append name ps (n ∷ []),
    w.counts name,
    held,
  );
  once = λ name. ground (arith, times-append name ps (n ∷ []), times_absent n ps free, w.once name);
  distinct = set-IsDistinct ℕ_discrete id op ops w.distinct;
}

-- An operation without a name.
pub login-IsHeld :
    (ps : List String) (ops : OrderedMap ℕ Operation) (id : ℕ) (op : Operation)
    → IsHeld ps ops
    → get ℕ_discrete id ops ≡ none
    → held_name op.kind ≡ none
    → IsHeld ps (set ℕ_discrete id op ops)
login-IsHeld ps ops id op w new held = record {
  counts = λ name.
      ground
        (arith, sum_values-set_new ℕ_discrete (holds_name name) id op ops new, w.counts name, held);
  once = w.once;
  distinct = set-IsDistinct ℕ_discrete id op ops w.distinct;
}

-- An operation goes on.
pub set-IsHeld :
    (ps : List String) (ops : OrderedMap ℕ Operation) (id : ℕ) (op : Operation)
    (m w : Option (OrderedMap String User))
    → IsHeld ps ops
    → get ℕ_discrete id ops ≡ some op
    → IsHeld ps (set ℕ_discrete id (record op { read_users = m; writes = w }) ops)
set-IsHeld ps ops id op m w held known =
    let op' = record op { read_users = m; writes = w } in
    record {
      counts = λ name. omega (
        arith,
        sum_values-set ℕ_discrete (holds_name name) id op op' ops known,
        held.counts name,
      );
      once = held.once;
      distinct = set-IsDistinct ℕ_discrete id op' ops held.distinct;
    }
