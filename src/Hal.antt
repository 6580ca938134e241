-- ===== src/Hal.antt =====
-- base/hal/mipsel32/init.c and base/ke/scheduler.c: an exception enters the kernel through
-- HalHandleException, with the registers of the process that ran in the exception frame, and leaves it
-- with those of the process that runs next. The build is the one with the debugger. What the registers of
-- the devices read during the exception is a parameter.
pub mod Exceptions
pub mod Output
pub mod Interrupts
use arcos_os.Prelude.{
  ℕ, ◌+◌, ◌-◌, ◌*◌, ◌/◌, ◌%◌, ◌^◌, Bool, true, false, not, ◌==◌, if◌then◌else◌, ltb, List,
}
use arcos_os.Prelude.Run.{
  Cmd, pure, get, modify, assert, within, ke_bug_check, unknown_exception, trap, ◌>>=◌, ◌>>◌,
}
use arcos_os.Types.{Ptr, null, ulong_mod, Context, Process, Status}
use arcos_os.Ke.Scheduler.{load, store}
use arcos_os.Ke.Processes.{handle_timer}
use arcos_os.Kernel.{Kernel, in_ke, current_process}
use arcos_os.Io.Interrupts.{interrupt_handler, transmitter_interrupt_handler}
use arcos_os.Kd.Console.{Console, Literals}
use arcos_os.Kd.Commands.{Command}
use arcos_os.Kd.Line.{character_received}
use arcos_os.Ps.Info.{ProcessInfo}
use arcos_os.Ps.Programs.{Application}
use arcos_os.Syscall.{System, on_io, on_kernel, system_service}

-- EXCEPTION_FRAME; no C code uses Status.
pub record ExceptionFrame : Type 0 where
  pub context : Context
  pub cause : ℕ

-- The kernel with all components, the debugger's position and output, the frame, and the ticks that
-- HalResetTimer was last called with.
pub record Machine : Type 0 where
  pub system : System
  pub kd_position : ℕ
  pub kd_out : List ℕ
  pub frame : ExceptionFrame
  pub timer : ℕ

-- What is read: `lsr.field.dr` and `rbr` of the debugger's device, and of the other one, with its
-- `lsr.field.thre`.
pub record Devices : Type 0 where
  pub kd_ready : Bool
  pub kd_char : ℕ
  pub uart_ready : Bool
  pub uart_char : ℕ
  pub uart_idle : Bool

abbrev pub on_system : {A : Type 0} → Cmd System A → Cmd Machine A
on_system = within (λ m. m.system) (λ m s. record m { system = s })

abbrev pub in_kernel : {A : Type 0} → Cmd Kernel A → Cmd Machine A
in_kernel call = on_system (on_kernel call)

-- The debugger on the machine.
abbrev pub on_console : {A : Type 0} → Cmd Console A → Cmd Machine A
on_console =
    within (λ m. record { kernel = m.system.io.kernel; position = m.kd_position; out = m.kd_out })
      (λ m c. record m {
        system = record m.system { io = record m.system.io { kernel = c.kernel } };
        kd_position = c.position;
        kd_out = c.out;
      })

abbrev pub set_context : Context → Process → Process
set_context c r = record r { context = c }

-- KeCaptureContext; the address of the frame's context is not null.
unfoldable pub capture_context : Context → Cmd Kernel (Unit {0})
capture_context c = do
  cur ← current_process
  assert (not (cur == null))
  in_ke (store cur (set_context c))

-- KeRestoreContext
unfoldable pub restore_context : Cmd Kernel Context
restore_context = do
  cur ← current_process
  assert (not (cur == null))
  r ← in_ke (load cur)
  pure r.context

-- Bit `n` of a word, and the word without it.
abbrev pub bit : ℕ → ℕ → Bool
bit n x = x / 2 ^ n % 2 == 1

abbrev pub clear_bit : ℕ → ℕ → ℕ
clear_bit n x = if bit n x then x - 2 ^ n else x

-- `(Cause & CP0_CAUSE_EXCEPTION_CODE_MASK) >> CP0_CAUSE_EXCEPTION_CODE_SHIFT`
abbrev pub exception_code : ℕ → ℕ
exception_code cause = cause / 4 % 32

-- CP0_CAUSE_SYSCALL, COUNTOF(HalTrapCodeNames), and the numbers of the bits CP0_CAUSE_TIMER,
-- CP0_CAUSE_UART and 0x1000
abbrev pub cause_syscall : ℕ
cause_syscall = 8

abbrev pub trap_code_names : ℕ
trap_code_names = 14

abbrev pub cause_timer : ℕ
cause_timer = 15

abbrev pub cause_uart : ℕ
cause_uart = 10

abbrev pub cause_acknowledged : ℕ
cause_acknowledged = 12

-- What HalHandleException hands to HalResetTimer.
abbrev pub timer_ticks : ℕ
timer_ticks = 67000 * 10

-- `pFrame->Cause &= ~0x1000`
abbrev pub acknowledge : Cmd Machine (Unit {0})
acknowledge =
    modify λ m. record m {
      frame = record m.frame { cause = clear_bit cause_acknowledged m.frame.cause };
    }

module _ (fuel : ℕ) (delete_method : Ptr → Ptr → Cmd Kernel (Unit {0})) (apps : List Application)
    (send : ℕ → ℕ → Ptr → ℕ → Cmd Kernel Status) (string format stale : Ptr) (unset : ProcessInfo)
    (early : Bool) (texts : Literals) (commands : List Command) (command_buffer : Ptr)
    (devices : Devices) where
  -- The branch of a system call.
  unfoldable pub handle_system_call : Cmd Machine (Unit {0})
  handle_system_call = do
    cur ← in_kernel current_process
    in_kernel (
        in_ke
          (store cur λ r. set_context (record r.context { pc = (r.context.pc + 4) % ulong_mod }) r))
    r ← in_kernel (in_ke (load cur))
    let c = r.context
    on_system (
        system_service fuel delete_method apps send string format stale unset early c.v0 c.a0 c.a1
          c.a2 c.a3)

  -- The part under CP0_CAUSE_UART.
  unfoldable pub handle_uart : Cmd Machine (Unit {0})
  handle_uart = do
    if devices.kd_ready
        then on_console (character_received fuel texts commands command_buffer devices.kd_char)
        else pure tt
    if devices.uart_ready
        then (do
          on_system (on_io (interrupt_handler fuel delete_method devices.uart_char))
          acknowledge)
        else pure tt

  -- The branch of an interrupt.
  unfoldable pub handle_interrupt : Cmd Machine (Unit {0})
  handle_interrupt = do
    cause ← get λ m. m.frame.cause
    if bit cause_timer cause
        then (do in_kernel (handle_timer fuel); modify λ m. record m { timer = timer_ticks })
        else pure tt
    cause ← get λ m. m.frame.cause
    if bit cause_uart cause then handle_uart else pure tt
    if devices.uart_idle
        then (do on_system (on_io transmitter_interrupt_handler); acknowledge)
        else pure tt

  -- HalHandleException
  unfoldable pub handle_exception : Cmd Machine (Unit {0})
  handle_exception = do
    frame ← get λ m. m.frame
    let code = exception_code frame.cause
    in_kernel (capture_context frame.context)
    if code == 0
        then handle_interrupt
        else if code == cause_syscall
        then handle_system_call
        else if ltb code trap_code_names
        then ke_bug_check (trap code)
        else ke_bug_check unknown_exception
    c ← in_kernel restore_context
    modify λ m. record m { frame = record m.frame { context = c } }
