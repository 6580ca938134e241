-- ===== src/Tests/Exceptions.antt =====
-- The theorems on HalHandleException at the machine of Tests/Machine.antt: process 1 asks for its priority,
-- and a timer interrupt of it at the end of its quantum.
use arcos_os.Prelude.{ℕ, true, inl, inr, refl, ◌≡◌, ◌≤◌, ==→ne, false, [], ◌∷◌, arith, update}
use arcos_os.Prelude.Run.{Cmd, Run, ok, pure, Returns}
use arcos_os.Types.{Ptr, Context, Status, success}
use arcos_os.Ke.Scheduler.{load}
use arcos_os.Ke.Running.{Runs}
use arcos_os.Ke.Choice.{choose, top_level}
use arcos_os.Ke.Invariant.{View, with_ready}
use arcos_os.Ke.Tick.{NoneDue, ticked}
use arcos_os.Kernel.{Kernel}
use arcos_os.Kd.Console.{Literals}
use arcos_os.Ps.Info.{info_of}
use arcos_os.Io.Interrupts.{transmitter_interrupt_handler}
use arcos_os.Syscall.{System, service_value}
use arcos_os.Syscall.Results.{with_v0, running_process}
use arcos_os.Hal.{Machine, Devices, handle_exception, timer_ticks}
use arcos_os.Hal.Exceptions.{captured, advanced, with_kernel, handle_exception-returns}
use arcos_os.Hal.Interrupts.{handle_exception-switches}
use arcos_os.Tests.Machine.{machine, view, all_has}
use arcos_os.Tests.Ticks.{tired, tired-Holds, tired-IsCurrent}
use arcos_os.Tests.Services.{system}
use arcos_os.Tests.Messages.{kernel}

abbrev texts : Literals
texts = record {
  banner = 0;
  prompt = 0;
  erase = 0;
  ticks_line = 0;
  type_line = 0;
  object_line = 0;
  blocked_title = 0;
  timer_title = 0;
  help_line = 0;
  not_recognized = 0;
}

abbrev quiet : Devices
quiet = record {
  kd_ready = false;
  kd_char = 0;
  uart_ready = false;
  uart_char = 0;
  uart_idle = false;
}

abbrev registers : Context
registers = record {
  v0 = 4;
  a0 = 11;
  a1 = 12;
  a2 = 13;
  a3 = 14;
  sp = 5000;
  pc = 1000;
  others = λ i. i;
}

abbrev interrupted_by : ℕ → System → Machine
interrupted_by cause s = record {
  system = s;
  kd_position = 0;
  kd_out = [];
  frame = record { context = registers; cause = cause };
  timer = 0;
}

abbrev no_delete : Ptr → Ptr → Cmd Kernel (Unit {0})
no_delete m object = pure tt

abbrev no_send : ℕ → ℕ → Ptr → ℕ → Cmd Kernel Status
no_send r t b n = pure success

abbrev handle : ℕ → Machine → Run Machine (Unit {0})
handle fuel =
    handle_exception fuel no_delete [] no_send 0 0 0 (info_of (machine.procs 1)) false texts [] 0
      quiet

handle_exception-returns_example :
    handle 3 (interrupted_by 32 system)
    ≡ ok tt (record (interrupted_by 32 system) {
      system = with_v0 (captured system (advanced registers)) 1 3;
      frame = record { context = record registers { v0 = 3; pc = 1004 }; cause = 32 };
    })
unfolding service_value load update
handle_exception-returns_example =
    handle_exception-returns 3 no_delete [] no_send 0 0 0 (info_of (machine.procs 1)) false texts []
      0 quiet (interrupted_by 32 system) (==→ne 1 0 refl) refl _
      (captured system (advanced registers)) 3 refl refl refl refl

abbrev at_end : System
at_end = with_kernel system (record kernel { ke = tired })

end_NoneDue : NoneDue (ticked (captured at_end registers).io.kernel.ke) view
unfolding update
end_NoneDue =
    all_has
      (λ a.
        (ticked (captured at_end registers).io.kernel.ke).tick_count
        ≤ ((ticked (captured at_end registers).io.kernel.ke).procs a).wake_up_time)
      (7 ∷ 8 ∷ []) (omega arith, (omega arith, tt))

abbrev left : View
left = with_ready (with_ready view 3 (1 ∷ [])) 5 (4 ∷ [])

-- The transmitter is idle, and the string at 800 has been sent.
abbrev idle_line : Devices
idle_line = record quiet { uart_idle = true }

abbrev expired : Machine
expired = interrupted_by 0x8000 (record at_end {
  io = record at_end.io { buffer_queue = record { first = 800; last = 800 }; output_pointer = 800 };
})

handle_exception-switches_example :
    Returns
      (λ _ m'.
        (running_process m'.system ≡ 2)
        × Runs m'.system.io.kernel.ke left
        × (m'.system.io.kernel ≡ record expired.system.io.kernel { ke = m'.system.io.kernel.ke })
        × (transmitter_interrupt_handler expired.system.io
            ≡ ok tt (record m'.system.io { kernel = expired.system.io.kernel }))
        × (m'.frame.cause ≡ 0x8000)
        × (m'.timer ≡ timer_ticks)
        × (m'.frame.context ≡ ((captured at_end registers).io.kernel.ke.procs 2).context)
        × ((a : Ptr)
            → (m'.system.io.kernel.ke.procs a).context
              ≡ ((captured at_end registers).io.kernel.ke.procs a).context))
      (handle_exception 1 no_delete [] no_send 0 0 0
        (info_of (machine.procs 1))
        false
        texts
        []
        0
        idle_line
        expired)
unfolding update choose top_level
handle_exception-switches_example =
    handle_exception-switches 0 no_delete [] no_send 0 0 0 (info_of (machine.procs 1)) false texts
      [] 0 idle_line expired (==→ne 1 0 refl) view tired-Holds tired-IsCurrent refl refl (inl refl)
      2 left refl end_NoneDue refl (λ _. inr (==→ne 800 0 refl))
