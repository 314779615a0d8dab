-- ===== src/Daemon/Handlers/Invariant.antt =====
-- The invariant of the daemon: each pool is valid, and a connection whose flag for a pool is clear
-- neither holds a slot of it nor waits for one.
use fisk.Base.{
  ℕ, ◌≡◌, refl, sym, ap, subst, ◌∙◌, ◌≢◌, ◌⊎◌, inl, inr, ite, if_pos, if_neg, Bool, true, false,
  Option, none, some, ◌++◌, arith, ℕ_discrete, if◌then◌else◌,
}
use fisk.OrderedMap.{get}
use fisk.OrderedMap.Laws.{get-set}
use fisk.Daemon.Slots.{Slots}
use fisk.Daemon.Slots.Invariant.{IsValid, IsFree}
use fisk.Daemon.Handlers.{
  Conn, Daemon, PoolName, cpp, compile, local, Call, pool, with_pool, requested, with_requested,
  Step, went, exited, put_conn, and_then,
}

abbrev pub flag_of : PoolName → Option Conn → Bool
flag_of p none = false
flag_of p (some c) = requested p c

-- The connection's flag for the pool; one that is not known has none.
abbrev pub flag : PoolName → Daemon → ℕ → Bool
flag p d id = flag_of p (get ℕ_discrete id d.conns)

pub record Tracks (p : PoolName) (d : Daemon) : Type 0 where
  pub valid : IsValid (pool p d)
  pub clear : (id : ℕ) → flag p d id ≡ false → IsFree (pool p d) id

abbrev pub Inv : Daemon → Type 0
Inv d = (p : PoolName) → Tracks p d

abbrev pub After : (Daemon → Type 0) → Step → Type 0
After P exited = Unit {0}
After P (went d out) = P d

-- A change that leaves a pool alone and clears no flag of it keeps what is known of it.
Tracks-same :
    (p : PoolName) (d d' : Daemon)
    → pool p d' ≡ pool p d
    → ((id : ℕ) → flag p d' id ≡ false → flag p d id ≡ false)
    → Tracks p d
    → Tracks p d'
Tracks-same p d d' e keep t = record {
  valid = subst IsValid (sym e) t.valid;
  clear = λ id h. subst (λ s. IsFree s id) (sym e) (t.clear id (keep id h));
}

pub flag-put_conn :
    (p : PoolName) (d : Daemon) (id j : ℕ) (c : Conn)
    → flag p (put_conn id c d) j ≡ ite (ℕ_discrete id j) (requested p c) (flag p d j)
unfolding put_conn
flag-put_conn p d id j c = ground (arith, get-set ℕ_discrete id j c d.conns)

PoolName_discrete : Discrete PoolName
PoolName_discrete = hlevel

-- The pools and flags are separate fields.
pool-with_pool :
    (p q : PoolName) (s : Slots Call) (d : Daemon)
    → ((q ≡ p) × (pool p (with_pool q s d) ≡ s)) ⊎ ((q ≢ p) × (pool p (with_pool q s d) ≡ pool p d))
unfolding pool with_pool
pool-with_pool cpp cpp s d = inl (refl, refl)
pool-with_pool cpp compile s d = inr ((λ e. cc), refl)
pool-with_pool cpp local s d = inr ((λ e. cc), refl)
pool-with_pool compile cpp s d = inr ((λ e. cc), refl)
pool-with_pool compile compile s d = inl (refl, refl)
pool-with_pool compile local s d = inr ((λ e. cc), refl)
pool-with_pool local cpp s d = inr ((λ e. cc), refl)
pool-with_pool local compile s d = inr ((λ e. cc), refl)
pool-with_pool local local s d = inl (refl, refl)

pub requested-with_requested :
    (p q : PoolName) (b : Bool) (c : Conn)
    → ((q ≡ p) × (requested p (with_requested q b c) ≡ b))
      ⊎ ((q ≢ p) × (requested p (with_requested q b c) ≡ requested p c))
unfolding requested with_requested
requested-with_requested cpp cpp b c = inl (refl, refl)
requested-with_requested cpp compile b c = inr ((λ e. cc), refl)
requested-with_requested cpp local b c = inr ((λ e. cc), refl)
requested-with_requested compile cpp b c = inr ((λ e. cc), refl)
requested-with_requested compile compile b c = inl (refl, refl)
requested-with_requested compile local b c = inr ((λ e. cc), refl)
requested-with_requested local cpp b c = inr ((λ e. cc), refl)
requested-with_requested local compile b c = inr ((λ e. cc), refl)
requested-with_requested local local b c = inl (refl, refl)

conns-with_pool : (q : PoolName) (s : Slots Call) (d : Daemon) → (with_pool q s d).conns ≡ d.conns
unfolding with_pool
conns-with_pool cpp s d = refl
conns-with_pool compile s d = refl
conns-with_pool local s d = refl

pub pool-put_conn :
    (p : PoolName) (id : ℕ) (c : Conn) (d : Daemon) → pool p (put_conn id c d) ≡ pool p d
unfolding pool put_conn
pool-put_conn cpp id c d = refl
pool-put_conn compile id c d = refl
pool-put_conn local id c d = refl

-- One pool and the flag of one connection for it change together.
module _ (q : PoolName) (s : Slots Call) (b : Bool) (d : Daemon) (id : ℕ) (c : Conn) where
  abbrev pub changed_state : Daemon
  changed_state = with_pool q s (put_conn id (with_requested q b c) d)

  pub flag-changed_state :
      (p : PoolName) (j : ℕ)
      → flag p changed_state j
        ≡ ite (ℕ_discrete id j) (requested p (with_requested q b c)) (flag p d j)
  flag-changed_state p j =
      ap (λ m. flag_of p (get ℕ_discrete j m))
        (conns-with_pool q s (put_conn id (with_requested q b c) d))
      ∙ flag-put_conn p d id j (with_requested q b c)

  module _ (known : get ℕ_discrete id d.conns ≡ some c) (inv : Inv d) where
    same_flag :
        (p : PoolName) → q ≢ p → (j : ℕ) → flag p changed_state j ≡ false → flag p d j ≡ false
    same_flag p other j h = ground (
      arith,
      flag-changed_state p j,
      requested-with_requested p q b c,
      ap (flag_of p) known,
      ℕ_discrete id j,
      ap (λ k. flag_of p (get ℕ_discrete k d.conns)) {x = id} {y = j},
    )

    other_clear :
        (p : PoolName)
        → q ≡ p
        → (j : ℕ) → id ≢ j
        → flag p changed_state j ≡ false
        → IsFree (pool q d) j
    other_clear p same j ne h =
        subst (λ t. IsFree (pool t d) j) (sym same)
          ((inv p).clear j (ground (arith, flag-changed_state p j)))

    own_flag : (p : PoolName) → q ≡ p → flag p changed_state id ≡ false → b ≡ false
    own_flag p same h = ground (arith, flag-changed_state p id, requested-with_requested p q b c)

  pub changed_state-Inv :
      get ℕ_discrete id d.conns ≡ some c
      → Inv d
      → IsValid s
      → ((j : ℕ) → id ≢ j → IsFree (pool q d) j → IsFree s j)
      → (b ≡ false → IsFree s id)
      → Inv changed_state
  changed_state-Inv known inv valid others own p =
      elim (pool-with_pool p q s (put_conn id (with_requested q b c) d)) [
        | inl (same, e) ↦ record {
          valid = subst IsValid (sym e) valid;
          clear = λ j h.
              subst (λ t. IsFree t j) (sym e)
                (elim (ℕ_discrete id j) [
                  | yes here ↦ subst (IsFree s) here (
                      own (
                        own_flag known inv p same
                          (subst (λ k. flag p changed_state k ≡ false) (sym here) h)))
                  | no there ↦ others j there (other_clear known inv p same j there h)
                ]);
        }
        | inr (other, e) ↦
            Tracks-same p d changed_state (e ∙ pool-put_conn p id (with_requested q b c) d)
              (λ j h. same_flag known inv p other j h) (inv p)
      ]

-- A connection's other variables and the subscribers are of no account.
pub same-Inv :
    (d d' : Daemon)
    → ((p : PoolName) → pool p d' ≡ pool p d)
    → ((p : PoolName) (j : ℕ) → flag p d' j ≡ flag p d j)
    → Inv d
    → Inv d'
same-Inv d d' pools flags inv p = Tracks-same p d d' (pools p) (λ j h. sym (flags p j) ∙ h) (inv p)

pub clear_of :
    (q : PoolName) (d : Daemon) (id : ℕ) (c : Conn)
    → get ℕ_discrete id d.conns ≡ some c
    → Inv d
    → requested q c ≡ false
    → IsFree (pool q d) id
clear_of q d id c known inv h = (inv q).clear id (ap (flag_of q) known ∙ h)

pub flag-put_same :
    (p : PoolName) (d : Daemon) (id j : ℕ) (c c' : Conn)
    → get ℕ_discrete id d.conns ≡ some c
    → requested p c' ≡ requested p c
    → flag p (put_conn id c' d) j ≡ flag p d j
flag-put_same p d id j c c' known e = elim (ℕ_discrete id j) [
  | yes here ↦
      subst (λ k. flag p (put_conn id c' d) k ≡ flag p d k) here
        (flag-put_conn p d id id c'
          ∙ if_pos (ℕ_discrete id id) refl _ _
          ∙ e
          ∙ sym (ap (flag_of p) known))
  | no there ↦ flag-put_conn p d id j c' ∙ if_neg (ℕ_discrete id j) there _ _
]

-- The step goes on, to a state with the property.
abbrev pub Goes : (Daemon → Type 0) → Step → Type 0
Goes P exited = ⊥
Goes P (went d out) = P d

pub Goes-After : (P : Daemon → Type 0) (s : Step) → Goes P s → After P s
Goes-After P exited h = tt
Goes-After P (went d out) h = h

pub After-if :
    (P : Daemon → Type 0) (b : Bool) (s t : Step)
    → (b ≡ true → After P s)
    → (b ≡ false → After P t)
    → After P (if b then s else t)
After-if P true s t f g = f refl
After-if P false s t f g = g refl

pub Goes-if :
    (P : Daemon → Type 0) (b : Bool) (s t : Step)
    → (b ≡ true → Goes P s)
    → (b ≡ false → Goes P t)
    → Goes P (if b then s else t)
Goes-if P true s t f g = f refl
Goes-if P false s t f g = g refl

pub Goes-and_then :
    (P Q : Daemon → Type 0) (s : Step) (f : Daemon → Step)
    → Goes P s
    → ((d : Daemon) → P d → Goes Q (f d))
    → Goes Q (and_then s f)
Goes-and_then P Q exited f h g = h
Goes-and_then P Q (went d out) f h g = prepend (f d) (g d h)
  where
    prepend :
        (t : Step)
        → Goes Q t
        → Goes Q (elim t [ exited ↦ exited | went d' out' ↦ went d' (out ++ out') ])
    prepend exited k = k
    prepend (went d' out') k = k

pub Goes-map : (P Q : Daemon → Type 0) (s : Step) → ((d : Daemon) → P d → Q d) → Goes P s → Goes Q s
Goes-map P Q exited f h = h
Goes-map P Q (went d out) f h = f d h
