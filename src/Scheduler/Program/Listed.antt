-- ===== src/Scheduler/Program/Listed.antt =====
-- src/scheduler/fisk-scheduler.ts: the builders that a compile may get, those of the map `builders` and
-- those that the object cache lists for an object, are connected.
use fisk.Base.{
  ℕ, String, ◌≡◌, ap, inl, inr, true, false, Option, none, some, List, ◌∷◌, arith, ℕ_discrete,
  Bool-cases, String_discrete, holds, take_out, push_new, IsUnrepeated, holds-take_out,
  holds-push_new, [],
}
use fisk.OrderedMap.{OrderedMap, get, set, delete}
use fisk.OrderedMap.Laws.{IsDistinct, get-set, get-delete, set-IsDistinct, delete-IsDistinct}
use fisk.Scheduler.Builder
use fisk.Scheduler.Builder.{builder_key}
use fisk.Scheduler.ObjectCacheManager.{ObjectCacheManager}
use fisk.Scheduler.ObjectCacheManager.Maps.{nodes_for}
use fisk.Scheduler.ObjectCacheManager.Consistency.{IsConsistent, sha1s_for}
use fisk.Scheduler.Program.{Scheduler, values}

-- The cache's maps agree, and a node that is not connected has nothing there.
pub record CacheListed (connected : List ℕ) (m : ObjectCacheManager) : Type 0 where
  pub consistent : IsConsistent m
  pub gone : (n : ℕ) → holds ℕ_discrete n connected ≡ false → sha1s_for m.by_node n ≡ []

abbrev pub IfOn : List ℕ → Option ObjectCacheManager → Type 0
IfOn connected none = Unit {0}
IfOn connected (some m) = CacheListed connected m

-- An entry of `builders`: a connected builder, under its key.
pub record IsEntry (connections : OrderedMap ℕ Builder.Builder) (connected : List ℕ) (key : String)
    (id : ℕ) : Type 0 where
  pub live : holds ℕ_discrete id connected ≡ true
  pub builder : Builder.Builder
  pub here : get ℕ_discrete id connections ≡ some builder
  pub its_key : builder_key builder ≡ key

pub record Listed (connections : OrderedMap ℕ Builder.Builder) (connected : List ℕ)
    (builders : OrderedMap String ℕ) : Type 0 where
  pub entries :
      (key : String) (id : ℕ)
      → get String_discrete key builders ≡ some id
      → IsEntry connections connected key id
  pub once : IsDistinct String_discrete builders

abbrev pub IsListed : Scheduler → Type 0
IsListed s = Listed s.connections s.connected s.builders × IfOn s.connected s.object_cache

-- A change of a builder that leaves its address alone.
pub put-Listed :
    {m : OrderedMap ℕ Builder.Builder} {connected : List ℕ} {builders : OrderedMap String ℕ}
    (id : ℕ) (b b' : Builder.Builder)
    → get ℕ_discrete id m ≡ some b
    → builder_key b' ≡ builder_key b
    → Listed m connected builders
    → Listed (set ℕ_discrete id b' m) connected builders
put-Listed {m} id b b' here e w = record {
  entries = λ key j h.
      let r = w.entries key j h in
      elim (ℕ_discrete id j) [
        | yes p ↦ record {
          live = r.live;
          builder = b';
          here = ground (arith, p, get-set ℕ_discrete id j b' m);
          its_key = ground (arith, e, r.its_key, r.here, here, p);
        }
        | no p ↦ record {
          live = r.live;
          builder = r.builder;
          here = ground (arith, p, r.here, get-set ℕ_discrete id j b' m);
          its_key = r.its_key;
        }
      ];
  once = w.once;
}

pub insert-Listed :
    {m : OrderedMap ℕ Builder.Builder} {connected : List ℕ} {builders : OrderedMap String ℕ}
    (id : ℕ) (b : Builder.Builder)
    → get ℕ_discrete id m ≡ none
    → Listed m connected builders
    → Listed
        (set ℕ_discrete id b m)
        (push_new ℕ_discrete id connected)
        (set String_discrete (builder_key b) id builders)
insert-Listed {m} {connected} {builders} id b fresh w = record {
  entries = λ key j h. elim (String_discrete (builder_key b) key) [
    | yes p ↦
        let q : j ≡ id =
          ground (arith, h, get-set String_discrete (builder_key b) key id builders) in
        record {
          live = ground (arith, q, holds-push_new ℕ_discrete id j connected);
          builder = b;
          here = ground (arith, q, get-set ℕ_discrete id j b m);
          its_key = p;
        }
    | no p ↦
        let r =
          w.entries key j
            (ground (arith, h, get-set String_discrete (builder_key b) key id builders)) in
        record {
          live = ground (arith, r.live, holds-push_new ℕ_discrete id j connected);
          builder = r.builder;
          here = ground (arith, fresh, r.here, get-set ℕ_discrete id j b m);
          its_key = r.its_key;
        }
  ];
  once = set-IsDistinct String_discrete (builder_key b) id builders w.once;
}

pub remove-Listed :
    {m : OrderedMap ℕ Builder.Builder} {connected : List ℕ} {builders : OrderedMap String ℕ}
    (id : ℕ) (b : Builder.Builder)
    → get ℕ_discrete id m ≡ some b
    → IsUnrepeated ℕ_discrete connected
    → Listed m connected builders
    → Listed m (take_out ℕ_discrete id connected) (delete String_discrete (builder_key b) builders)
remove-Listed {m} {connected} {builders} id b here u w = record {
  entries = λ key j h. elim (String_discrete (builder_key b) key) [
    | yes p ↦ absurd (ground (arith, h, get-delete String_discrete (builder_key b) key builders))
    | no p ↦
        let r =
          w.entries key j
            (ground (arith, h, get-delete String_discrete (builder_key b) key builders)) in
        record {
          live = ground (
            arith,
            r.live,
            r.here,
            here,
            r.its_key,
            p,
            holds-take_out ℕ_discrete id j connected u,
          );
          builder = r.builder;
          here = r.here;
          its_key = r.its_key;
        }
  ];
  once = delete-IsDistinct String_discrete (builder_key b) builders w.once;
}

values-get-skip :
    (key key' : String) (j id : ℕ) (m : OrderedMap String ℕ)
    → get String_discrete key m ≡ none
    → get String_discrete key' m ≡ some id
    → get String_discrete key' ((key, j) ∷ m) ≡ some id
unfolding get
values-get-skip key key' j id m u h = ground (arith, u, h)

-- A value of the map stands under some key.
pub values-get :
    (builders : OrderedMap String ℕ) (id : ℕ)
    → IsDistinct String_discrete builders
    → holds ℕ_discrete id (values builders) ≡ true
    → (key : String) × (get String_discrete key builders ≡ some id)
unfolding values get
values-get [] id u h = cc
values-get ((key, j) ∷ m) id u h = elim (ℕ_discrete j id) [
  | yes p ↦ (key, ground (arith, p))
  | no p ↦
      let r = values-get m id u.1 (ground (arith, h, p)) in
      (r.0, values-get-skip key r.0 j id m u.0 r.1)
]

-- What the cache lists for an object is connected.
pub cached-connected :
    (connected : List ℕ) (m : ObjectCacheManager) (sha1 : String) (n : ℕ)
    → CacheListed connected m
    → holds ℕ_discrete n (nodes_for m.by_sha1 sha1) ≡ true
    → holds ℕ_discrete n connected ≡ true
cached-connected connected m sha1 n w h = elim (Bool-cases (holds ℕ_discrete n connected)) [
  | inl live ↦ live
  | inr gone ↦ absurd (
      let e = ap (holds String_discrete sha1) (w.gone n gone) in
      let a = w.consistent.agree sha1 n in cc)
]
