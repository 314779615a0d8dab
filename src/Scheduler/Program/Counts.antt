-- ===== src/Scheduler/Program/Counts.antt =====
-- src/scheduler/fisk-scheduler.ts: `builderCount`, `capacity`, `activeJobs` and every builder's
-- `activeClients` are the numbers that they stand for, whatever reaches the scheduler.
use fisk.Base.{
  ℕ, ◌+◌, ◌-◌, ◌≡◌, sym, ◌∙◌, true, false, none, some, List, arith, ℕ_discrete, length, holds,
  take_out, push_new, IsUnrepeated, holds-take_out, holds-push_new, take_out-IsUnrepeated,
  push_new-IsUnrepeated,
}
use fisk.OrderedMap.{OrderedMap, get, set, delete}
use fisk.OrderedMap.Laws.{
  IsDistinct, get-set, set-IsDistinct, delete-IsDistinct, length-delete, length-set_new,
  get-set_self,
}
use fisk.Scheduler.Builder
use fisk.Scheduler.Program.{Scheduler}
use fisk.Scheduler.Program.Sums.{
  clients_of, total_slots, serving, total_slots-set, total_slots-set_absent, total_slots-push_new,
  length-push_new, total_slots-take_out, length-take_out, serving-set, serving-delete,
}

-- What the numbers stand for.
pub record Counts (connections : OrderedMap ℕ Builder.Builder) (connected : List ℕ)
    (assigned : OrderedMap ℕ ℕ) (builder_count capacity active_jobs : ℕ) : Type 0 where
  pub builders : builder_count ≡ length connected
  pub slots : capacity ≡ total_slots connections connected
  pub jobs : active_jobs ≡ length assigned
  pub clients : (id : ℕ) → clients_of (get ℕ_discrete id connections) ≡ serving id assigned
  pub distinct : IsDistinct ℕ_discrete assigned
  pub unrepeated : IsUnrepeated ℕ_discrete connected
  pub known :
      (id : ℕ) → get ℕ_discrete id connections ≡ none → holds ℕ_discrete id connected ≡ false

abbrev pub IsCounted : Scheduler → Type 0
IsCounted s = Counts s.connections s.connected s.assigned s.builder_count s.capacity s.active_jobs

module _ {m : OrderedMap ℕ Builder.Builder} {connected : List ℕ} {assigned : OrderedMap ℕ ℕ}
    {n cap active : ℕ} (w : Counts m connected assigned n cap active) where
  -- A builder changes, but not its slots and its clients.
  pub put-Counts :
      (id : ℕ) (b b' : Builder.Builder)
      → get ℕ_discrete id m ≡ some b
      → b'.slots ≡ b.slots
      → b'.active_clients ≡ b.active_clients
      → Counts (set ℕ_discrete id b' m) connected assigned n cap active
  put-Counts id b b' h e f = record {
    builders = w.builders;
    slots = w.slots ∙ sym (total_slots-set id b' m connected (ground (arith, h)));
    jobs = w.jobs;
    clients = λ j. ground (arith, get-set ℕ_discrete id j b' m, w.clients j);
    distinct = w.distinct;
    unrepeated = w.unrepeated;
    known = λ j. ground (arith, get-set ℕ_discrete id j b' m, w.known j);
  }

  -- A new builder, with no clients.
  pub insert-Counts :
      (id : ℕ) (b : Builder.Builder)
      → get ℕ_discrete id m ≡ none
      → b.active_clients ≡ 0
      → Counts
          (set ℕ_discrete id b m)
          (push_new ℕ_discrete id connected)
          assigned
          (n + 1)
          (cap + b.slots)
          active
  insert-Counts id b h e = record {
    builders = omega (arith, w.builders, length-push_new id connected (w.known id h));
    slots = ground (
      arith,
      w.slots,
      total_slots-push_new id (set ℕ_discrete id b m) connected (w.known id h),
      total_slots-set_absent id b m connected (w.known id h),
      get-set_self ℕ_discrete id b m,
    );
    jobs = w.jobs;
    clients = λ j. ground (arith, get-set ℕ_discrete id j b m, w.clients j);
    distinct = w.distinct;
    unrepeated = push_new-IsUnrepeated ℕ_discrete id connected w.unrepeated;
    known = λ j.
        ground
          (arith, get-set ℕ_discrete id j b m, w.known j, holds-push_new ℕ_discrete id j connected);
  }

  pub remove-Counts :
      (id : ℕ) (b : Builder.Builder)
      → get ℕ_discrete id m ≡ some b
      → holds ℕ_discrete id connected ≡ true
      → Counts m (take_out ℕ_discrete id connected) assigned (n - 1) (cap - b.slots) active
  remove-Counts id b h e = record {
    builders = omega (arith, length-take_out id connected e, w.builders);
    slots = ground (arith, w.slots, total_slots-take_out id m connected e, h);
    jobs = w.jobs;
    clients = w.clients;
    distinct = w.distinct;
    unrepeated = take_out-IsUnrepeated ℕ_discrete id connected w.unrepeated;
    known = λ j g. ground (arith, w.known j, holds-take_out ℕ_discrete id j connected w.unrepeated);
  }

  -- A compile gets a builder.
  pub assign-Counts :
      (cid id : ℕ) (b b' : Builder.Builder)
      → get ℕ_discrete cid assigned ≡ none
      → get ℕ_discrete id m ≡ some b
      → b'.slots ≡ b.slots
      → b'.active_clients ≡ b.active_clients + 1
      → Counts
          (set ℕ_discrete id b' m)
          connected
          (set ℕ_discrete cid id assigned)
          n
          cap
          (active + 1)
  assign-Counts cid id b b' g h e f = record {
    builders = w.builders;
    slots = w.slots ∙ sym (total_slots-set id b' m connected (ground (arith, h)));
    jobs = omega (arith, w.jobs, length-set_new ℕ_discrete cid id assigned g);
    clients = λ j.
        ground (arith, get-set ℕ_discrete id j b' m, w.clients j, serving-set cid id j assigned g);
    distinct = set-IsDistinct ℕ_discrete cid id assigned w.distinct;
    unrepeated = w.unrepeated;
    known = λ j. ground (arith, get-set ℕ_discrete id j b' m, w.known j);
  }

  -- A compile lets its builder go.
  pub release-Counts :
      (cid id : ℕ) (b b' : Builder.Builder)
      → get ℕ_discrete cid assigned ≡ some id
      → get ℕ_discrete id m ≡ some b
      → b'.slots ≡ b.slots
      → b'.active_clients ≡ b.active_clients - 1
      → Counts
          (set ℕ_discrete id b' m)
          connected
          (delete ℕ_discrete cid assigned)
          n
          cap
          (active - 1)
  release-Counts cid id b b' g h e f = record {
    builders = w.builders;
    slots = w.slots ∙ sym (total_slots-set id b' m connected (ground (arith, h)));
    jobs = omega (arith, w.jobs, length-delete ℕ_discrete cid id assigned w.distinct g);
    clients = λ j. ground (
      arith,
      get-set ℕ_discrete id j b' m,
      w.clients j,
      serving-delete cid id j assigned w.distinct g,
    );
    distinct = delete-IsDistinct ℕ_discrete cid assigned w.distinct;
    unrepeated = w.unrepeated;
    known = λ j. ground (arith, get-set ℕ_discrete id j b' m, w.known j);
  }
