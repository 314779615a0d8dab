-- ===== src/Scheduler/Sync/Marks.antt =====
-- src/scheduler/fisk-scheduler.ts, syncEnvironments: what the marks leave of the builder's
-- environments, and what the builder is told.
use fisk.Base.{
  String, ◌≡◌, refl, ap, ◌∙◌, ◌≢◌, inl, inr, ite, Bool, true, false, not, ◌&&◌, Option, none, some,
  ◌∷◌, arith, if◌then◌else◌, Option-cases, String_discrete, holds, [],
}
use fisk.OrderedMap.{OrderedMap, get, set, has, is_some}
use fisk.OrderedMap.Laws.{IsDistinct, get-set, set-IsDistinct}
use fisk.Scheduler.Builder.{Builder}
use fisk.Scheduler.Environments.{Environment}
use fisk.Scheduler.Sync.{can_run, mark, sweep, sync_environments}

-- The mark of an environment of the builder, from what the scheduler knows of it and the mark before.
abbrev marked_by : Option Environment → Option Bool → Option Bool
marked_by none old = old
marked_by (some env) none = none
marked_by (some env) (some old) = some false

-- A builder lacks an environment that it can run.
abbrev pub lacks : String → Option Environment → Bool → Bool
lacks system none here = false
lacks system (some env) here = not here && can_run env system

has-if-set :
    (here : Bool) (hash h : String) (have : OrderedMap String Bool)
    → here ≡ has String_discrete hash have
    → has String_discrete h (if here then set String_discrete hash false have else have)
      ≡ has String_discrete h have
has-if-set true hash h have e = ground (
  arith,
  e,
  ap is_some (get-set String_discrete hash h false have),
  ap (λ k. has String_discrete k have) {x = hash} {y = h},
)
has-if-set false hash h have e = refl

is_none : {V : Type 0} (o : Option V) → false ≡ is_some o → o ≡ none
is_none none h = refl
is_none (some v) h = cc

get-if-set :
    (here : Bool) (hash h : String) (env : Environment) (have : OrderedMap String Bool)
    → here ≡ has String_discrete hash have
    → get String_discrete h (if here then set String_discrete hash false have else have)
      ≡ ite
          (String_discrete hash h)
          (marked_by (some env) (get String_discrete hash have))
          (get String_discrete h have)
get-if-set true hash h env have e = elim (Option-cases (get String_discrete hash have)) [
  | inl f ↦ ground (arith, e, f)
  | inr (v, f) ↦ ground (arith, f, get-set String_discrete hash h false have)
]
get-if-set false hash h env have e =
    let f = is_none (get String_discrete hash have) e in
    ground (arith, f, ap (λ k. get String_discrete k have) {x = hash} {y = h})

marked_by_twice :
    (o : Option Environment) (env : Environment) (old : Option Bool)
    → marked_by o (marked_by (some env) old) ≡ marked_by (some env) old
marked_by_twice none env old = refl
marked_by_twice (some e) env none = refl
marked_by_twice (some e) env (some old) = refl

mark-needs :
    (system h : String) (known : OrderedMap String Environment) (have : OrderedMap String Bool)
    → IsDistinct String_discrete known
    → holds String_discrete h (mark system known have).1
      ≡ lacks system (get String_discrete h known) (has String_discrete h have)
unfolding mark get
mark-needs system h [] have u = refl
mark-needs system h ((hash, env) ∷ rest) have u =
    let here = has String_discrete hash have in
    let later =
      mark-needs system h rest (if here then set String_discrete hash false have else have) u.1 in
    let same = has-if-set here hash h have refl in
    ground (
      arith,
      later,
      ap (lacks system (get String_discrete h rest)) same,
      u.0,
      ap (λ k. get String_discrete k rest) {x = hash} {y = h},
      ap (λ k. has String_discrete k have) {x = hash} {y = h},
    )

mark-marks :
    (system h : String) (known : OrderedMap String Environment) (have : OrderedMap String Bool)
    → get String_discrete h (mark system known have).0
      ≡ marked_by (get String_discrete h known) (get String_discrete h have)
unfolding mark get
mark-marks system h [] have = refl
mark-marks system h ((hash, env) ∷ rest) have =
    let here = has String_discrete hash have in
    let later =
      mark-marks system h rest (if here then set String_discrete hash false have else have) in
    elim (String_discrete hash h) [
      | yes p ↦ ground (
        arith,
        later,
        p,
        ap (marked_by (get String_discrete h rest)) (get-if-set here hash h env have refl),
        marked_by_twice (get String_discrete h rest) env (get String_discrete h have),
        ap (λ k. marked_by (some env) (get String_discrete k have)) p,
      )
      | no p ↦ ground (
        arith,
        later,
        p,
        ap (marked_by (get String_discrete h rest)) (get-if-set here hash h env have refl),
      )
    ]

if-IsDistinct :
    (here : Bool) (hash : String) (have : OrderedMap String Bool)
    → IsDistinct String_discrete have
    → IsDistinct String_discrete (if here then set String_discrete hash false have else have)
if-IsDistinct true hash have u = set-IsDistinct String_discrete hash false have u
if-IsDistinct false hash have u = u

mark-IsDistinct :
    (system : String) (known : OrderedMap String Environment) (have : OrderedMap String Bool)
    → IsDistinct String_discrete have
    → IsDistinct String_discrete (mark system known have).0
unfolding mark
mark-IsDistinct system [] have u = u
mark-IsDistinct system ((hash, env) ∷ rest) have u =
    mark-IsDistinct system rest _ (if-IsDistinct _ hash have u)

abbrev kept : Option Bool → Option Bool
kept none = none
kept (some true) = none
kept (some false) = some true

abbrev is_unmarked : Option Bool → Bool
is_unmarked none = false
is_unmarked (some unmarked) = unmarked

sweep-kept :
    (h : String) (m : OrderedMap String Bool)
    → IsDistinct String_discrete m
    → get String_discrete h (sweep m).0 ≡ kept (get String_discrete h m)
unfolding sweep get
sweep-kept h [] u = refl
sweep-kept h ((hash, true) ∷ rest) u = ground (arith, sweep-kept h rest u.1, u.0)
sweep-kept h ((hash, false) ∷ rest) u = ground (arith, sweep-kept h rest u.1, u.0)

sweep-unwanted :
    (h : String) (m : OrderedMap String Bool)
    → IsDistinct String_discrete m
    → holds String_discrete h (sweep m).1 ≡ is_unmarked (get String_discrete h m)
unfolding sweep get
sweep-unwanted h [] u = refl
sweep-unwanted h ((hash, true) ∷ rest) u = ground (arith, sweep-unwanted h rest u.1, u.0)
sweep-unwanted h ((hash, false) ∷ rest) u = ground (arith, sweep-unwanted h rest u.1, u.0)

kept-marked_by :
    (o : Option Environment) (old : Option Bool)
    → old ≢ some false
    → kept (marked_by o old) ≡ (if is_some o && is_some old then some true else none)
kept-marked_by none none c = refl
kept-marked_by none (some true) c = refl
kept-marked_by none (some false) c = absurd (c refl)
kept-marked_by (some env) none c = refl
kept-marked_by (some env) (some old) c = refl

is_unmarked-marked_by :
    (o : Option Environment) (old : Option Bool)
    → old ≢ some false
    → is_unmarked (marked_by o old) ≡ is_some old && not (is_some o)
is_unmarked-marked_by none none c = refl
is_unmarked-marked_by none (some true) c = refl
is_unmarked-marked_by none (some false) c = absurd (c refl)
is_unmarked-marked_by (some env) none c = refl
is_unmarked-marked_by (some env) (some old) c = refl

-- When neither the scheduler's nor the builder's environments name one twice, and the builder's have no
-- mark left, the builder keeps the environments that the scheduler knows, unmarked, it is told to drop
-- the others, and it is told to get those of the scheduler's that it lacks and can run.
pub sync_environments_lem :
    (known : OrderedMap String Environment) (b : Builder) (h : String)
    → IsDistinct String_discrete known
    → IsDistinct String_discrete b.environments
    → get String_discrete h b.environments ≢ some false
    → (get String_discrete h (sync_environments known b).builder.environments ≡ (
        if has String_discrete h known && has String_discrete h b.environments
        then some true
        else none))
      × ((holds String_discrete h (sync_environments known b).unwanted
            ≡ has String_discrete h b.environments && not (has String_discrete h known))
          × (holds String_discrete h (sync_environments known b).needs
              ≡ lacks b.system
                  (get String_discrete h known)
                  (has String_discrete h b.environments)))
unfolding sync_environments
sync_environments_lem known b h u w clear =
    let marked = mark b.system known b.environments in
    let once = mark-IsDistinct b.system known b.environments w in
    (
      sweep-kept h marked.0 once
          ∙ ap kept (mark-marks b.system h known b.environments)
          ∙ kept-marked_by (get String_discrete h known) (get String_discrete h b.environments)
              clear,
      (
        sweep-unwanted h marked.0 once
            ∙ ap is_unmarked (mark-marks b.system h known b.environments)
            ∙ is_unmarked-marked_by (get String_discrete h known)
                (get String_discrete h b.environments) clear,
        mark-needs b.system h known b.environments u,
      ),
    )
