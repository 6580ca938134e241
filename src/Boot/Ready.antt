-- ===== src/Boot/Ready.antt =====
-- base/ke/init.c: what the components' initializers leave behind.
use arcos_os.Prelude.{ℕ, ◌+◌, ◌%◌, ◌<◌, ◌≡◌, ◌≢◌, refl, ap, ◌∙◌, [], ◌∷◌, arith, ne→==}
use arcos_os.Prelude.Run.{Returns, returns, Returns-ends}
use arcos_os.Types.{Ptr, null, ulong_mod}
use arcos_os.Kernel.{Kernel}
use arcos_os.Ke.Scheduler.{Scheduler}
use arcos_os.Mm.{mm_initialize, mm_alloc}
use arcos_os.Mess.WaitQueue.{mess_initialize}
use arcos_os.Mess.Waiters.{Queued}
use arcos_os.Io.State.{Io, serial_read, serial_write, lcd_write, no_file_method}
use arcos_os.Io.Start.{io_initialize-IsReady}
use arcos_os.Ke.Sleepers.Ticking.{Ticking}
use arcos_os.Ps.Listed.{Listed}
use arcos_os.Ps.Start.{started, ps_initialize-started, started-Ticking}
use arcos_os.Boot.{initialize_components}

module _ (fuel : ℕ) (first idle_name : Ptr) (s : Io) where
  -- From a machine whose queues and lists are empty, where the usable memory begins at an aligned address and
  -- has 4200 bytes, the initializers return in a state in which the idle process runs, is the only
  -- process listed and has ticks left, the scheduler's lists are well formed, no process waits for a
  -- message, and the two files have their methods.
  pub initialize_components-Ticking :
      first % 4 ≡ 0
      → first ≢ null
      → first + 4200 < ulong_mod
      → ((i : ℕ) → (s.kernel.ke.ready_queues i).first ≡ null)
      → s.kernel.ke.blocked_list ≡ null
      → s.kernel.ke.timer_list ≡ null
      → 0 < fuel
      → Returns
          (λ _ s'.
            Ticking fuel s'.kernel
            × Listed s'.kernel (s'.kernel.ke.current ∷ [])
            × Queued s'.kernel [] []
            × (s'.files s'.serial_file ≡ record { write = serial_write; read = serial_read })
            × (s'.files s'.lcd_file ≡ record { write = lcd_write; read = no_file_method }))
          (initialize_components first idle_name s)
  unfolding initialize_components mm_initialize mess_initialize mm_alloc
  initialize_components-Ticking aligned some_memory room no_ready no_blocked no_timers some_fuel =
      let s0 : Io = record s { kernel = record s.kernel { free_mem_pointer = first } } in
      let (_, s1, run, (_, io)) =
        Returns-ends (io_initialize-IsReady s0 aligned some_memory (omega (arith, room))) in
      let k : Kernel = s1.kernel in
      let al : k.free_mem_pointer % 4 ≡ 0 = omega (arith, aligned, io.memory) in
      let ne : k.free_mem_pointer ≢ null = λ e. omega (arith, e, io.memory) in
      let rm : k.free_mem_pointer + 4000 < ulong_mod = omega (arith, room, io.memory) in
      let (t, l) =
        started-Ticking fuel idle_name k al ne rm
          (λ i. ap (λ (c : Scheduler). (c.ready_queues i).first) io.scheduler ∙ no_ready i)
          (ap (λ (c : Scheduler). c.blocked_list) io.scheduler ∙ no_blocked)
          (ap (λ (c : Scheduler). c.timer_list) io.scheduler ∙ no_timers) some_fuel in
      let more : k.free_mem_pointer + 2324 ≢ null = λ e. omega (arith, e) in
      rw
        (
          run,
          ps_initialize-started k al ne rm idle_name,
          ne→== (started k al ne rm idle_name).ke.current null t.is_current.ne_null,
          ne→== (k.free_mem_pointer + 2324) null more,
        )
        (returns (
          record {
            view = t.view;
            holds = t.holds;
            is_current = t.is_current;
            free = t.free;
            quantum = t.quantum;
            plain = t.plain;
            timers = t.timers;
            blocked = t.blocked;
          },
          record {
            type_ne = l.type_ne;
            type_header_ne = l.type_header_ne;
            type_magic = l.type_magic;
            objects = l.objects;
          },
          (refl, refl),
          io.serial,
          io.lcd,
        ))
