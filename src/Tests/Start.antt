-- ===== src/Tests/Start.antt =====
-- The theorem on the initializers at a machine that has just been switched on, with its memory from 4096.
use arcos_os.Prelude.{refl, ◌≡◌, [], ◌∷◌, ==→ne, arith}
use arcos_os.Prelude.Run.{Returns}
use arcos_os.Types.{null}
use arcos_os.Kernel.{Kernel}
use arcos_os.Ke.Sleepers.Ticking.{Ticking}
use arcos_os.Ps.Listed.{Listed}
use arcos_os.Mess.Waiters.{Queued}
use arcos_os.Io.State.{Io, serial_read, serial_write, lcd_write, no_file_method}
use arcos_os.Boot.{initialize_components}
use arcos_os.Boot.Ready.{initialize_components-Ticking}
use arcos_os.Tests.Machine.{machine}
use arcos_os.Tests.Messages.{kernel}
use arcos_os.Tests.Services.{system}

abbrev switched_on : Kernel
switched_on = record kernel {
  ke = record machine {
    ready_queues = λ _. record { first = null; last = null };
    blocked_list = null;
    timer_list = null;
  };
}

abbrev off : Io
off = record system.io { kernel = switched_on }

initialize_components-Ticking_example :
    Returns
      (λ _ s'.
        Ticking 1 s'.kernel
        × Listed s'.kernel (s'.kernel.ke.current ∷ [])
        × Queued s'.kernel [] []
        × (s'.files s'.serial_file ≡ record { write = serial_write; read = serial_read })
        × (s'.files s'.lcd_file ≡ record { write = lcd_write; read = no_file_method }))
      (initialize_components 4096 600 off)
initialize_components-Ticking_example =
    initialize_components-Ticking 1 4096 600 off (omega arith) (==→ne 4096 0 refl) (omega arith)
      (λ i. refl) refl refl (omega arith)
