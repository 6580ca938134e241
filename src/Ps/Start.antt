-- ===== src/Ps/Start.antt =====
-- base/ps/ps.c: PsInitialize on a machine that has just been switched on.
use arcos_os.Prelude.{
  ℕ, ◌+◌, ◌%◌, ◌<◌, ◌≡◌, ◌≢◌, refl, ◌∙◌, sym, ap, List, true, [], ◌∷◌, has, arith, update,
  update_self, update_ne, ne→==, ==→ne,
}
use arcos_os.Prelude.Run.{ok, Returns, returns}
use arcos_os.Types.{Ptr, null, ulong_mod, Process}
use arcos_os.Kernel.{Kernel, ObjectHeader, ObjectType, body_to_header, header_to_body}
use arcos_os.Mm.{align_memory}
use arcos_os.Ke.Chain.{store-ok}
use arcos_os.Ke.Invariant.{View}
use arcos_os.Ke.Sleepers.Ticking.{Ticking}
use arcos_os.Ob.Objects.{object_magic, fresh_header, set_first_of_type}
use arcos_os.Ob.Handles.{init_process}
use arcos_os.Ob.Create.{
  inherit_handles-none, typed_header, listed_at, create_object-typed, type_object_at, with_type_at,
  create_object_type-with_type,
}
use arcos_os.Ps.Lookup.{process_type_name}
use arcos_os.Ps.Listed.{Listed}
use arcos_os.Ps.Process.{ps_initialize, zero_process}

-- The first two blocks of memory: a header and the process type, a header and the idle process.
module _ (k : Kernel) (aligned : k.free_mem_pointer % 4 ≡ 0)
    (some_memory : k.free_mem_pointer ≢ null) (room : k.free_mem_pointer + 4000 < ulong_mod) where
  abbrev base : Ptr
  base = k.free_mem_pointer

  abbrev type_object : ObjectType
  type_object = type_object_at process_type_name k

  abbrev with_type : Kernel
  with_type = with_type_at process_type_name k

  module _ (idle_name : Ptr) where
    abbrev idle : Ptr
    idle = base + 84

    abbrev idle_process : Process
    idle_process = record zero_process { quantum = 1; running_program = idle_name }

    abbrev allocated : Kernel
    allocated = listed_at (record with_type { process_type = base + 32 }) (base + 32) (base + 2324)

    abbrev stored : Kernel
    stored = record allocated { ke = record k.ke { procs = update k.ke.procs idle idle_process } }

    abbrev pub started : Kernel
    started = record stored { ke = record stored.ke { current = idle } }

    next_free_2 : align_memory ((base + 52 + (32 + 2240) % ulong_mod) % ulong_mod) ≡ base + 2324
    unfolding align_memory
    next_free_2 = omega (arith, aligned, room)

    idle_body : (base + 52 + 32) % ulong_mod ≡ base + 84
    idle_body = omega (arith, room)

    idle_ne : idle ≢ null
    idle_ne e = omega (arith, e)

    idle_self : stored.ke.procs idle ≡ idle_process
    idle_self = update_self k.ke.procs idle idle_process

    pub ps_initialize-started : ps_initialize idle_name k ≡ ok tt started
    unfolding ps_initialize init_process
    ps_initialize-started = rw (
      create_object_type-with_type process_type_name k (==→ne process_type_name 0 refl) aligned
          some_memory (omega (arith, room)),
      create_object-typed (base + 32) 2240 (base + 2324)
          (record with_type { process_type = base + 32 }) (λ e. omega (arith, e))
          (λ e. omega (arith, e)) next_free_2,
      idle_body,
      ne→== idle null idle_ne,
      store-ok idle (λ _. idle_process) k.ke idle_ne,
      inherit_handles-none 256 0 idle stored idle_ne (λ j. rw idle_self refl),
    )

    type_header : body_to_header (base + 32) ≡ base
    type_header = omega (arith, room)

    idle_header : body_to_header idle ≡ base + 52
    idle_header = omega (arith, room)

    header_self :
        started.headers (base + 52)
        ≡ typed_header (record with_type { process_type = base + 32 }) (base + 32)
    header_self = update_self with_type.headers (base + 52) _

    type_self : with_type.types (base + 32) ≡ type_object
    type_self = update_self k.types (base + 32) type_object

    first_object : (started.types (base + 32)).first_object_of_type ≡ base + 52
    first_object =
        ap (λ (t : ObjectType). t.first_object_of_type)
          (update_self with_type.types (base + 32)
            (set_first_of_type (base + 52) (with_type.types (base + 32))))

    no_next : (started.headers (base + 52)).next_object_of_type ≡ null
    no_next =
        ap (λ (r : ObjectHeader). r.next_object_of_type) header_self
        ∙ ap (λ (t : ObjectType). t.first_object_of_type) type_self

    type_magic_of : (started.headers base).magic ≡ object_magic
    type_magic_of =
        ap (λ (r : ObjectHeader). r.magic)
          (update_ne with_type.headers (base + 52) _ base (λ e. omega (arith, e))
            ∙ update_self k.headers base (fresh_header null 1 (k.headers base)))

    started-Listed : Listed started (idle ∷ [])
    started-Listed = record {
      type_ne = λ e. omega (arith, e);
      type_header_ne = rw type_header some_memory;
      type_magic = rw type_header type_magic_of;
      objects = (
        first_object ∙ sym idle_header,
        (
          idle_ne,
          (λ e. omega (arith, e, idle_header)),
          ap header_to_body idle_header ∙ idle_body,
          rw idle_header (ap (λ (r : ObjectHeader). r.magic) header_self),
          rw idle_header (ap (λ (r : ObjectHeader). r.type) header_self),
        ),
        rw idle_header no_next,
      );
    }

abbrev nobody : View
nobody = record { ready = λ _. []; blocked = []; timers = [] }

nil_cons : {x : Ptr} {xs : List Ptr} → [] ≡ x ∷ xs → ⊥
nil_cons e = cc

no_entry : {A : Type 0} (a : Ptr) → has a [] ≡ true → A
no_entry a m = absurd (cc m)

module _ (fuel : ℕ) (idle_name : Ptr) (k : Kernel) (aligned : k.free_mem_pointer % 4 ≡ 0)
    (some_memory : k.free_mem_pointer ≢ null) (room : k.free_mem_pointer + 4000 < ulong_mod)
    (no_ready : (i : ℕ) → (k.ke.ready_queues i).first ≡ null)
    (no_blocked : k.ke.blocked_list ≡ null) (no_timers : k.ke.timer_list ≡ null)
    (some_fuel : 0 < fuel) where
  abbrev begun : Kernel
  begun = started k aligned some_memory room idle_name

  pub started-Ticking : Ticking fuel begun × Listed begun (begun.ke.current ∷ [])
  started-Ticking =
      let p : Ptr = k.free_mem_pointer in
      let self = idle_self k aligned some_memory room idle_name in
      (
        record {
          view = nobody;
          holds = record {
            queue_chain = λ i _. no_ready i;
            queue_last = λ i x xs _ e. absurd (nil_cons e);
            queue_state = λ i a _ m. no_entry a m;
            queue_priority = λ i a _ m. no_entry a m;
            blocked_chain = no_blocked;
            timer_chain = no_timers;
            blocked_state = λ a m. no_entry a m;
            timer_state = λ a m. no_entry a m;
            blocked_level = λ a m. no_entry a m;
            timer_level = λ a m. no_entry a m;
            apart = λ a m. no_entry a m;
            sorted = tt;
          };
          is_current = record {
            ne_null = λ e. omega (arith, e);
            next_clear = rw self refl;
            level = rw self (omega arith);
            off = record { not_ready = λ i _. refl; not_blocked = refl; not_timer = refl };
          };
          free = rw self refl;
          quantum = rw self (omega arith);
          plain = λ a m. no_entry a m;
          timers = omega (arith, some_fuel);
          blocked = omega arith;
        },
        started-Listed k aligned some_memory room idle_name,
      )

-- From a machine whose queues and lists are empty, and whose free memory is aligned and has 4000 bytes, PsInitialize returns
-- a kernel in which the idle process runs, is the only process listed, and is ready for timer
-- interrupts: the lists are well formed, and it has ticks left.
ps_initialize-Ticking :
    (fuel : ℕ) (idle_name : Ptr) (k : Kernel)
    → k.free_mem_pointer % 4 ≡ 0
    → k.free_mem_pointer ≢ null
    → k.free_mem_pointer + 4000 < ulong_mod
    → ((i : ℕ) → (k.ke.ready_queues i).first ≡ null)
    → k.ke.blocked_list ≡ null
    → k.ke.timer_list ≡ null
    → 0 < fuel
    → Returns (λ _ k'. Ticking fuel k' × Listed k' (k'.ke.current ∷ [])) (ps_initialize idle_name k)
ps_initialize-Ticking fuel idle_name k aligned some_memory room no_ready no_blocked no_timers
      some_fuel =
    rw (ps_initialize-started k aligned some_memory room idle_name) (
      returns (
        started-Ticking fuel idle_name k aligned some_memory room no_ready no_blocked no_timers
          some_fuel))
