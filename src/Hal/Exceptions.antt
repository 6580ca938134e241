-- ===== src/Hal/Exceptions.antt =====
-- base/hal/mipsel32/init.c: what an exception does to the registers of the process that it interrupts.
use arcos_os.Prelude.{
  ℕ, ◌+◌, ◌%◌, ◌≡◌, ◌≢◌, refl, sym, ap, ◌∙◌, Bool, true, false, some, if◌then◌else◌, List, update,
  update_self, update_twice, ne→==,
}
use arcos_os.Prelude.Run.{Cmd, ok}
use arcos_os.Types.{Ptr, null, ulong_mod, Context, Process, Status}
use arcos_os.Ke.Chain.{Memory, load-ok, store-ok}
use arcos_os.Kernel.{Kernel}
use arcos_os.Kd.Console.{Literals}
use arcos_os.Kd.Commands.{Command}
use arcos_os.Ps.Info.{ProcessInfo}
use arcos_os.Ps.Programs.{Application}
use arcos_os.Syscall.{System, system_service, service_value}
use arcos_os.Syscall.Results.{running_process, with_value, with_v0, system_service-with_v0}
use arcos_os.Hal.{
  Machine, Devices, set_context, capture_context, restore_context, exception_code, cause_syscall,
  handle_system_call, handle_exception,
}

abbrev pub with_kernel : System → Kernel → System
with_kernel s k = record s { io = record s.io { kernel = k } }

-- The system with a context in the process that runs.
abbrev pub captured : System → Context → System
captured s c =
    let k = s.io.kernel in
    with_kernel s (record k {
      ke = record k.ke {
        procs = update k.ke.procs k.ke.current (set_context c (k.ke.procs k.ke.current));
      };
    })

-- The context behind the instruction that made a system call.
abbrev pub advanced : Context → Context
advanced c = record c { pc = (c.pc + 4) % ulong_mod }

-- The context of the process that runs.
abbrev pub current_context : System → Context
current_context s = (s.io.kernel.ke.procs s.io.kernel.ke.current).context

who_runs : (early : Bool) (p q : Ptr) → q ≡ p → (if early then p else q) ≡ p
who_runs true p q e = refl
who_runs false p q e = e

pub capture_context-captured :
    (s : System) (c : Context)
    → running_process s ≢ null
    → capture_context c s.io.kernel ≡ ok tt (captured s c).io.kernel
unfolding capture_context
capture_context-captured s c ne = rw (
  ne→== (running_process s) null ne,
  store-ok (running_process s) (set_context c) s.io.kernel.ke ne,
)

pub restore_context-current :
    (s : System)
    → running_process s ≢ null
    → restore_context s.io.kernel ≡ ok (current_context s) s.io.kernel
unfolding restore_context
restore_context-current s ne =
    rw (ne→== (running_process s) null ne, load-ok (running_process s) s.io.kernel.ke ne)

module _ (fuel : ℕ) (delete_method : Ptr → Ptr → Cmd Kernel (Unit {0})) (apps : List Application)
    (send : ℕ → ℕ → Ptr → ℕ → Cmd Kernel Status) (string format stale : Ptr) (unset : ProcessInfo)
    (early : Bool) (texts : Literals) (commands : List Command) (command_buffer : Ptr)
    (devices : Devices) (m : Machine) (ne : running_process m.system ≢ null) where
  abbrev frame_context : Context
  frame_context = m.frame.context

  module _ (is_call : exception_code m.frame.cause ≡ cause_syscall) where
    call_runs :
        (s' : System)
        → system_service fuel delete_method apps send string format stale unset early
            frame_context.v0 frame_context.a0 frame_context.a1 frame_context.a2 frame_context.a3
            (captured m.system (advanced frame_context))
          ≡ ok tt s'
        → running_process s' ≢ null
        → handle_exception fuel delete_method apps send string format stale unset early texts
            commands command_buffer devices m
          ≡ ok tt
              (record m { system = s'; frame = record m.frame { context = current_context s' } })
    unfolding handle_exception handle_system_call
    call_runs s' run s_ne =
        let p : Ptr = running_process m.system in
        let old : Memory = m.system.io.kernel.ke.procs in
        let held : Process = set_context frame_context (old p) in
        let moved : Process = set_context (advanced frame_context) (old p) in
        rw (
          capture_context-captured m.system frame_context ne,
          is_call,
          store-ok p (λ r. set_context (advanced r.context) r)
              (captured m.system frame_context).io.kernel.ke ne,
          update_self old p held,
          update_twice old p held moved,
          load-ok p (captured m.system (advanced frame_context)).io.kernel.ke ne,
          update_self old p moved,
          run,
          restore_context-current s' s_ne,
        )

    -- A system call with a result, whose function returns with the same process running and its registers
    -- as they were, goes back to the instruction behind it with the result in V0 and every other
    -- register unchanged, in either order of evaluation of the arguments of KeSetSyscallResult.
    pub handle_exception-returns :
        (call : Cmd System ℕ) (s' : System) (result : ℕ)
        → service_value fuel delete_method apps send string format stale unset frame_context.v0
            frame_context.a0 frame_context.a1 frame_context.a2 frame_context.a3
          ≡ some call
        → call (captured m.system (advanced frame_context)) ≡ ok result s'
        → running_process s' ≡ running_process m.system
        → current_context s' ≡ advanced frame_context
        → handle_exception fuel delete_method apps send string format stale unset early texts
            commands command_buffer devices m
          ≡ ok tt (record m {
            system = with_v0 s' (running_process m.system) result;
            frame = record m.frame { context = record (advanced frame_context) { v0 = result } };
          })
    handle_exception-returns call s' result is_value run same kept =
        let p : Ptr = running_process m.system in
        let who : (if early then p else running_process s') ≡ p =
          who_runs early p (running_process s') same in
        let served =
          system_service-with_v0 fuel delete_method apps send string format stale unset early
            frame_context.v0 frame_context.a0 frame_context.a1 frame_context.a2 frame_context.a3
            (captured m.system (advanced frame_context)) call s' result is_value run (rw who ne)
          ∙ ap (λ q. ok tt (with_v0 s' q result)) who in
        let back : current_context (with_v0 s' p result)
            ≡ record (advanced frame_context) { v0 = result } =
          ap
            (λ q.
              (update s'.io.kernel.ke.procs p (with_value result (s'.io.kernel.ke.procs p))
                q).context)
            same
          ∙ ap (λ (r : Process). r.context)
              (update_self s'.io.kernel.ke.procs p (with_value result (s'.io.kernel.ke.procs p)))
          ∙ ap (λ q. record (s'.io.kernel.ke.procs q).context { v0 = result }) (sym same)
          ∙ ap (λ (c : Context). record c { v0 = result }) kept in
        call_runs (with_v0 s' p result) served (rw same ne)
        ∙ ap
            (λ c.
              ok tt
                (record m { system = with_v0 s' p result; frame = record m.frame { context = c } }))
            back
