-- ===== src/Hal/Output.antt =====
-- base/hal/mipsel32/init.c: the part of HalHandleException that serves an idle transmitter.
use arcos_os.Prelude.{ℕ, ◌≡◌, refl, Bool, true, false, if◌then◌else◌}
use arcos_os.Prelude.Run.{ok, pure}
use arcos_os.Ke.Scheduler.{Scheduler}
use arcos_os.Io.Interrupts.{transmitter_interrupt_handler}
use arcos_os.Io.Transmit.{
  CanTransmit, transmitted, with_output, transmitter_interrupt_handler-transmitted,
}
use arcos_os.Prelude.Run.{◌>>◌}
use arcos_os.Syscall.{on_io}
use arcos_os.Hal.{Machine, cause_acknowledged, clear_bit, acknowledge, on_system}
use arcos_os.Hal.Exceptions.{with_kernel}

-- The machine behind the part that serves an idle transmitter.
abbrev pub after_output : Bool → Machine → Machine
after_output true m = record m {
  system = record m.system { io = with_output m.system.io (transmitted m.system.io) };
  frame = record m.frame { cause = clear_bit cause_acknowledged m.frame.cause };
}
after_output false m = m

pub after_output_kernel :
    (idle : Bool) (m : Machine) → (after_output idle m).system.io.kernel ≡ m.system.io.kernel
after_output_kernel true m = refl
after_output_kernel false m = refl

pub after_output_cause :
    (idle : Bool) (m : Machine)
    → (after_output idle m).frame.cause
      ≡ (if idle then clear_bit cause_acknowledged m.frame.cause else m.frame.cause)
after_output_cause true m = refl
after_output_cause false m = refl

pub after_output_timer : (idle : Bool) (m : Machine) → (after_output idle m).timer ≡ m.timer
after_output_timer true m = refl
after_output_timer false m = refl

-- The output does not depend on the scheduler.
pub after_output_io :
    (idle : Bool) (m : Machine) (t : Scheduler) (timer : ℕ)
    → (idle ≡ true → CanTransmit m.system.io)
    → (if idle then transmitter_interrupt_handler else pure tt) m.system.io
      ≡ ok tt
          (record (after_output idle (record m {
            system = with_kernel m.system (record m.system.io.kernel { ke = t });
            timer = timer;
          })).system.io { kernel = m.system.io.kernel })
after_output_io true m t timer can =
    transmitter_interrupt_handler-transmitted m.system.io (can refl)
after_output_io false m t timer can = refl

pub output-runs :
    (idle : Bool) (m : Machine)
    → (idle ≡ true → CanTransmit m.system.io)
    → (if idle then (do on_system (on_io transmitter_interrupt_handler); acknowledge) else pure tt)
        m
      ≡ ok tt (after_output idle m)
output-runs true m can = rw (transmitter_interrupt_handler-transmitted m.system.io (can refl)) refl
output-runs false m can = refl
