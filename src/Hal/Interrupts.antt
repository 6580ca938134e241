-- ===== src/Hal/Interrupts.antt =====
-- base/hal/mipsel32/init.c: the timer interrupt.
use arcos_os.Prelude.{
  ℕ, suc, ◌<◌, ◌≡◌, ◌≢◌, refl, sym, ap, ◌∙◌, ◌⊎◌, inl, inr, Bool, true, false, Bool-cases,
  if◌then◌else◌, some, List, update_self, update_all, subst, ◌-◌, arith, eq→==,
}
use arcos_os.Prelude.Run.{Cmd, ok, pure, Returns, returns, Returns-ends}
use arcos_os.Types.{Ptr, null, Process, Status}
use arcos_os.Ke.Fields.{SamePlace, Holds-with_fields, IsCurrent-with_fields}
use arcos_os.Ke.Invariant.{View, Holds}
use arcos_os.Ke.Switch.{IsCurrent}
use arcos_os.Ke.Scheduler.{Scheduler, reschedule}
use arcos_os.Ke.Choice.{choose}
use arcos_os.Ke.Running.{Runs, Implements}
use arcos_os.Ke.Reschedule.{reschedule_refines}
use arcos_os.Ke.Frame.{Kept, Kept-refl, Keeps, Keeps-value, reschedule-Keeps}
use arcos_os.Ke.Tick.{
  aged, ticked, NoneDue, ticked-Holds, ticked-IsCurrent, handle_timer-continues, handle_timer-after,
}
use arcos_os.Kernel.{Kernel}
use arcos_os.Kd.Console.{Literals}
use arcos_os.Kd.Commands.{Command}
use arcos_os.Ps.Info.{ProcessInfo}
use arcos_os.Ps.Programs.{Application}
use arcos_os.Io.Interrupts.{transmitter_interrupt_handler}
use arcos_os.Io.Transmit.{CanTransmit}
use arcos_os.Ke.Processes.{handle_timer}
use arcos_os.Syscall.{System}
use arcos_os.Syscall.Results.{running_process}
use arcos_os.Hal.{
  Machine, Devices, set_context, bit, exception_code, cause_timer, cause_uart, cause_acknowledged,
  clear_bit, timer_ticks, handle_uart, handle_interrupt, handle_exception,
}
use arcos_os.Hal.Exceptions.{
  with_kernel, captured, current_context, capture_context-captured, restore_context-current,
}
use arcos_os.Hal.Output.{
  after_output, after_output_kernel, after_output_cause, after_output_timer, after_output_io,
  output-runs,
}

module _ (fuel : ℕ) (delete_method : Ptr → Ptr → Cmd Kernel (Unit {0})) (apps : List Application)
    (send : ℕ → ℕ → Ptr → ℕ → Cmd Kernel Status) (string format stale : Ptr) (unset : ProcessInfo)
    (early : Bool) (texts : Literals) (commands : List Command) (command_buffer : Ptr)
    (devices : Devices) (m : Machine) (ne : running_process m.system ≢ null) where
  module _ (v : View) (h : Holds m.system.io.kernel.ke v) (c : IsCurrent m.system.io.kernel.ke v)
      (is_interrupt : exception_code m.frame.cause ≡ 0)
      (is_timer : bit cause_timer m.frame.cause ≡ true)
      (no_input : (bit cause_uart m.frame.cause ≡ false)
        ⊎ ((devices.kd_ready ≡ false) × (devices.uart_ready ≡ false))) where
    abbrev interrupted : Kernel
    interrupted = (captured m.system m.frame.context).io.kernel

    place :
        SamePlace
          (m.system.io.kernel.ke.procs (running_process m.system))
          (set_context m.frame.context (m.system.io.kernel.ke.procs (running_process m.system)))
    place = record { next = refl; state = refl; priority = refl; wake = refl }

    interrupted_self :
        interrupted.ke.procs (running_process m.system)
        ≡ set_context m.frame.context (m.system.io.kernel.ke.procs (running_process m.system))
    interrupted_self = update_self m.system.io.kernel.ke.procs (running_process m.system) _

    interrupted-Holds : Holds interrupted.ke v
    interrupted-Holds = Holds-with_fields m.system.io.kernel.ke (running_process m.system) _ place h

    interrupted-IsCurrent : IsCurrent interrupted.ke v
    interrupted-IsCurrent =
        IsCurrent-with_fields m.system.io.kernel.ke (running_process m.system) _ place c

    abbrev next_tick : Scheduler
    next_tick = ticked interrupted.ke

    tick_self :
        next_tick.procs (running_process m.system)
        ≡ aged (interrupted.ke.procs (running_process m.system))
    tick_self =
        update_self interrupted.ke.procs (running_process m.system)
          (aged (interrupted.ke.procs (running_process m.system)))

    tick_context : (a : Ptr) → (next_tick.procs a).context ≡ (interrupted.ke.procs a).context
    tick_context =
        update_all (λ a (r : Process). r.context ≡ (interrupted.ke.procs a).context)
          interrupted.ke.procs (running_process m.system)
          (aged (interrupted.ke.procs (running_process m.system))) refl (λ a other. refl)

    -- A timer interrupt at which no sleeper is due, of a process that can run and has more than one tick left, where
    -- the cause is not the UART and no transmitter is idle, is charged to the process, which goes on with every register as it was; the timer is set again.
    handle_exception-resumes :
        bit cause_uart m.frame.cause ≡ false
        → devices.uart_idle ≡ false
        → 1 < (m.system.io.kernel.ke.procs (running_process m.system)).quantum
        → NoneDue (ticked interrupted.ke) v
        → handle_exception
            (suc fuel)
            delete_method
            apps
            send
            string
            format
            stale
            unset
            early
            texts
            commands
            command_buffer
            devices
            m
          ≡ ok tt (record m {
            system = with_kernel m.system (record interrupted { ke = ticked interrupted.ke });
            timer = timer_ticks;
          })
    unfolding handle_exception handle_interrupt
    handle_exception-resumes no_uart busy more none_due =
        let p : Ptr = running_process m.system in
        let ticks = ap (λ (r : Process). r.quantum) interrupted_self in
        let ran =
          handle_timer-continues interrupted v interrupted-Holds interrupted-IsCurrent fuel
            (omega (arith, ticks, more)) none_due (omega (arith, ticks, more)) in
        let after : System =
          with_kernel m.system (record interrupted { ke = ticked interrupted.ke }) in
        let same : current_context after ≡ m.frame.context =
          ap (λ (r : Process). r.context)
            (update_self interrupted.ke.procs p (aged (interrupted.ke.procs p)))
          ∙ ap (λ (r : Process). r.context) interrupted_self in
        rw (
          capture_context-captured m.system m.frame.context ne,
          is_interrupt,
          is_timer,
          ran,
          no_uart,
          busy,
          restore_context-current after ne,
          same,
        )

    -- The machine at the end of the branch, where the scheduler has left `t`.
    abbrev ticked_machine : Scheduler → Machine
    ticked_machine t = record m {
      system = with_kernel m.system (record interrupted { ke = t });
      timer = timer_ticks;
    }

    handle_interrupt-ticked :
        (rounds : ℕ) (t : Scheduler)
        → handle_timer rounds interrupted ≡ ok tt (record interrupted { ke = t })
        → (devices.uart_idle ≡ true → CanTransmit m.system.io)
        → handle_interrupt rounds delete_method apps send string format stale unset early texts
            commands command_buffer devices
            (record m { system = with_kernel m.system interrupted })
          ≡ ok tt (after_output devices.uart_idle (ticked_machine t))
    unfolding handle_interrupt handle_uart
    handle_interrupt-ticked rounds t ran can =
        let sent = output-runs devices.uart_idle (ticked_machine t) can in
        elim no_input [
          | inl not_uart ↦ rw (is_timer, ran, not_uart) sent
          | inr silent ↦ elim (Bool-cases (bit cause_uart m.frame.cause)) [
            | inl is_uart ↦ rw (is_timer, ran, is_uart, silent.0, silent.1) sent
            | inr not_uart ↦ rw (is_timer, ran, not_uart) sent
          ]
        ]

    -- A timer interrupt in a state with the lists of a view, at the last tick of a current process that can
    -- run. Let no sleeper be due; let the cause not be the UART, or neither UART device have a character; and
    -- where the transmitter is idle, let it have nothing to send or a node in the queue of output. If
    -- the abstract scheduler chooses the process `x`, the exception ends with `x` running: its registers are those
    -- that it was interrupted with, those of the interrupted process are kept in its control block, and
    -- no other process's registers are changed. The timer is set again. Where the transmitter is idle,
    -- its handler has run and its interrupt is acknowledged. Of the kernel, only the scheduler's part
    -- is changed, and of the input and output only what that handler changes.
    pub handle_exception-switches :
        (x : Ptr) (v' : View)
        → (m.system.io.kernel.ke.procs (running_process m.system)).quantum ≡ 1
        → NoneDue next_tick v
        → choose v
            (aged (interrupted.ke.procs (running_process m.system)))
            (running_process m.system)
          ≡ some (x, v')
        → (devices.uart_idle ≡ true → CanTransmit m.system.io)
        → Returns
            (λ _ m'.
              (running_process m'.system ≡ x)
              × Runs m'.system.io.kernel.ke v'
              × (m'.system.io.kernel ≡ record m.system.io.kernel { ke = m'.system.io.kernel.ke })
              × ((if devices.uart_idle then transmitter_interrupt_handler else pure tt) m.system.io
                  ≡ ok tt (record m'.system.io { kernel = m.system.io.kernel }))
              × (m'.frame.cause ≡ (
                  if devices.uart_idle
                  then clear_bit cause_acknowledged m.frame.cause
                  else m.frame.cause))
              × (m'.timer ≡ timer_ticks)
              × (m'.frame.context ≡ (interrupted.ke.procs x).context)
              × ((a : Ptr)
                  → (m'.system.io.kernel.ke.procs a).context ≡ (interrupted.ke.procs a).context))
            (handle_exception
              (suc fuel)
              delete_method
              apps
              send
              string
              format
              stale
              unset
              early
              texts
              commands
              command_buffer
              devices
              m)
    unfolding handle_exception
    handle_exception-switches x v' last none_due choice can =
        let p : Ptr = running_process m.system in
        let ticks : (interrupted.ke.procs p).quantum ≡ 1 =
          ap (λ (r : Process). r.quantum) interrupted_self ∙ last in
        let done : Implements (some (x, v')) (reschedule (suc fuel) next_tick) =
          subst (λ q. Implements q (reschedule (suc fuel) next_tick))
            (ap (λ r. choose v r p) tick_self ∙ choice)
            (reschedule_refines (suc fuel)
              (ticked-Holds interrupted v interrupted-Holds interrupted-IsCurrent)
              (ne, λ _. ticked-IsCurrent interrupted v interrupted-Holds interrupted-IsCurrent)) in
        let (u, s, run, got) = Returns-ends done in
        let kept : Kept next_tick s = Keeps-value (
          subst (Keeps next_tick) run
            (reschedule-Keeps (suc fuel) next_tick (Kept-refl next_tick))) in
        let ran =
          handle_timer-after interrupted v interrupted-Holds interrupted-IsCurrent fuel
            (omega (arith, ticks)) none_due in
        let idle : Bool = devices.uart_idle in
        let after : Machine = after_output idle (ticked_machine s) in
        let kernel : after.system.io.kernel ≡ record interrupted { ke = s } =
          after_output_kernel idle (ticked_machine s) in
        let timed : handle_timer (suc fuel) interrupted ≡ ok tt (record interrupted { ke = s }) =
          ran
          ∙ rw (eq→== ((interrupted.ke.procs p).quantum - 1) 0 (omega (arith, ticks)), run) refl in
        let now = ap (λ (k : Kernel). k.ke) kernel in
        let rest = ap (λ (k : Kernel). k.ke.current) kernel ∙ got.0 in
        let contexts : (a : Ptr)
            → (after.system.io.kernel.ke.procs a).context ≡ (interrupted.ke.procs a).context =
          λ a. ap (λ (t : Scheduler). (t.procs a).context) now ∙ (kept.1 a).2 ∙ tick_context a in
        rw
          (
            capture_context-captured m.system m.frame.context ne,
            is_interrupt,
            handle_interrupt-ticked (suc fuel) s timed can,
            restore_context-current after.system
                (λ e. got.1.is_current.ne_null (sym (ap (λ (t : Scheduler). t.current) now) ∙ e)),
          )
          (returns (
            rest,
            subst (λ (t : Scheduler). Runs t v') (sym now) got.1,
            kernel ∙ ap (λ (t : Scheduler). record m.system.io.kernel { ke = t }) (sym now),
            after_output_io idle m s timer_ticks can,
            after_output_cause idle (ticked_machine s),
            after_output_timer idle (ticked_machine s),
            ap (λ a. (after.system.io.kernel.ke.procs a).context) rest ∙ contexts x,
            contexts,
          ))
