-- ===== src/Scheduler/Environments/Links.antt =====
-- What the links say of each pair of environments after every change.
use fisk.Base.{
  String, ◌≡◌, refl, ap, inl, inr, ite, Bool, true, false, ◌||◌, Option, none, some, List, [], ◌∷◌,
  ◌++◌, arith, if◌then◌else◌, Option-cases, String_discrete, is_empty,
}
use fisk.OrderedMap.{OrderedMap, get, set, delete, has, keys, is_some}
use fisk.OrderedMap.Laws.{get-set, get-delete, IsDistinct}
use fisk.Scheduler.Environments.{
  Environments, LinkMap, LinkProperties, links_or_new, compatible_environments, link, unset_all,
  unset_one, given, unlinked, unlink,
}

-- The link of a source to a target.
unfoldable pub linked : OrderedMap String LinkMap → String → String → Option LinkProperties
linked links s t = get String_discrete t (links_or_new (get String_discrete s links))

abbrev pub contains : String → List String → Bool
contains t [] = false
contains t (x ∷ xs) = ite (String_discrete x t) true (contains t xs)

contains-append :
    (t : String) (xs ys : List String) → contains t (xs ++ ys) ≡ contains t xs || contains t ys
contains-append t [] ys = refl
contains-append t (x ∷ xs) ys = ground (arith, contains-append t xs ys)

contains-keys :
    {V : Type 0} (t : String) (m : OrderedMap String V)
    → contains t (keys m) ≡ has String_discrete t m
unfolding get
contains-keys t [] = refl
contains-keys t ((k, v) ∷ m) = ground (arith, contains-keys t m)

-- The environments that are compatible with a source are the source itself, if it is known, and the
-- targets that it is linked to.
pub compatible_environments_lem :
    (e : Environments) (s t : String)
    → contains t (compatible_environments e s)
      ≡ ite (String_discrete s t) (has String_discrete s e.environments) false
        || is_some (linked e.links s t)
unfolding compatible_environments linked get
compatible_environments_lem e s t = elim (Option-cases (get String_discrete s e.links)) [
  | inl missing ↦ ground (
    arith,
    missing,
    contains-append t (if has String_discrete s e.environments then s ∷ [] else []) [],
  )
  | inr (targets, found) ↦ ground (
    arith,
    found,
    contains-append t (if has String_discrete s e.environments then s ∷ [] else []) (keys targets),
    contains-keys t targets,
  )
]

-- `link` sets the properties of its pair of environments, and changes those of no other pair.
pub linked-link :
    (e : Environments) (src tgt s t : String) (args blacklist : List String)
    → linked (link e src tgt args blacklist).0.links s t
      ≡ ite
          (String_discrete src s)
          (ite
            (String_discrete tgt t)
            (some (record { arguments = args; blacklist = blacklist }))
            (linked e.links s t))
          (linked e.links s t)
unfolding link linked
linked-link e src tgt s t args blacklist =
    let targets = links_or_new (get String_discrete src e.links) in
    let p : LinkProperties = record { arguments = args; blacklist = blacklist } in
    elim (String_discrete src s) [
      | yes same ↦ ground (
        arith,
        get-set String_discrete src s (set String_discrete tgt p targets) e.links,
        get-set String_discrete tgt t p targets,
        ap (λ k. links_or_new (get String_discrete k e.links)) same,
      )
      | no other ↦
          ground (arith, get-set String_discrete src s (set String_discrete tgt p targets) e.links)
    ]

get-unset_all_absent :
    (tgt s : String) (links : OrderedMap String LinkMap)
    → get String_discrete s links ≡ none
    → get String_discrete s (unset_all tgt links) ≡ none
unfolding unset_all get
get-unset_all_absent tgt s [] h = refl
get-unset_all_absent tgt s ((src, targets) ∷ rest) h =
    ground (arith, get-unset_all_absent tgt s rest)

-- A map that is empty has no key.
get_empty :
    {V : Type 0} (t : String) (m : OrderedMap String V)
    → is_empty m ≡ true
    → get String_discrete t m ≡ none
unfolding get
get_empty t [] h = refl
get_empty t (x ∷ m) h = cc

linked-unset_all :
    (tgt s t : String) (links : OrderedMap String LinkMap)
    → IsDistinct String_discrete links
    → linked (unset_all tgt links) s t ≡ ite (String_discrete tgt t) none (linked links s t)
unfolding linked unset_all get
linked-unset_all tgt s t [] h = ground arith
linked-unset_all tgt s t ((src, targets) ∷ rest) h = elim (String_discrete src s) [
  | yes same ↦ ground (
    arith,
    same,
    get-delete String_discrete tgt t targets,
    get_empty t (delete String_discrete tgt targets),
    get-unset_all_absent tgt s rest,
    ap (λ k. get String_discrete k rest) same,
    h.0,
  )
  | no other ↦ ground (arith, linked-unset_all tgt s t rest h.1)
]

linked-unset_one :
    (src tgt s t : String) (links : OrderedMap String LinkMap)
    → linked (unset_one src tgt links) s t
      ≡ ite
          (String_discrete src s)
          (ite (String_discrete tgt t) none (linked links s t))
          (linked links s t)
unfolding linked unset_one
linked-unset_one src tgt s t links = elim (Option-cases (get String_discrete src links)) [
  | inl missing ↦ elim (String_discrete src s) [
    | yes same ↦ ground (
      arith,
      missing,
      ap (λ k. get String_discrete k links) same,
      get_empty {V = LinkProperties} t [] refl,
    )
    | no other ↦ ground (arith, missing)
  ]
  | inr (targets, found) ↦ elim (String_discrete src s) [
    | yes same ↦ ground (
      arith,
      found,
      ap (λ k. get String_discrete k links) same,
      get-delete String_discrete src s links,
      get-set String_discrete src s (delete String_discrete tgt targets) links,
      get-delete String_discrete tgt t targets,
      get_empty t (delete String_discrete tgt targets),
      get_empty {V = LinkProperties} t [] refl,
    )
    | no other ↦ ground (
      arith,
      found,
      get-delete String_discrete src s links,
      get-set String_discrete src s (delete String_discrete tgt targets) links,
    )
  ]
]

linked-delete :
    (src s t : String) (links : OrderedMap String LinkMap)
    → linked (delete String_discrete src links) s t
      ≡ ite (String_discrete src s) none (linked links s t)
unfolding linked get
linked-delete src s t links = ground (arith, get-delete String_discrete src s links)

-- Whether a call of `unlink` is about this pair.
abbrev pub covers : Option String → Option String → String → String → Bool
covers none none s t = false
covers none (some tgt) s t = ite (String_discrete tgt t) true false
covers (some src) none s t = ite (String_discrete src s) true false
covers (some src) (some tgt) s t =
    ite (String_discrete src s) (ite (String_discrete tgt t) true false) false

linked-unlinked :
    (src tgt : Option String) (s t : String) (links : OrderedMap String LinkMap)
    → IsDistinct String_discrete links
    → linked (unlinked src tgt links) s t ≡ (if covers src tgt s t then none else linked links s t)
linked-unlinked none none s t links h = refl
linked-unlinked none (some tgt) s t links h = ground (arith, linked-unset_all tgt s t links h)
linked-unlinked (some src) none s t links h = ground (arith, linked-delete src s t links)
linked-unlinked (some src) (some tgt) s t links h =
    ground (arith, linked-unset_one src tgt s t links)

-- With distinct sources, `unlink` takes away the links of the pairs that its arguments name, and no
-- others: of a source, to a target, of one pair, or none if neither is given.
pub linked-unlink :
    (e : Environments) (src tgt : Option String) (s t : String)
    → IsDistinct String_discrete e.links
    → linked (unlink e src tgt).0.links s t
      ≡ (if covers (given src) (given tgt) s t then none else linked e.links s t)
unfolding unlink
linked-unlink e src tgt s t h = linked-unlinked (given src) (given tgt) s t e.links h
