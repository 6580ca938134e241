-- ===== src/Tests/Readers.antt =====
-- IoReadSerial at a concrete machine: process 1 reads, and 'a' is in the keyboard buffer.
use arcos_os.Prelude.{refl, ◌≡◌, ◌+◌, ◌%◌, [], ◌∷◌, ◌==◌, if◌then◌else◌, ==→ne, update}
use arcos_os.Prelude.Run.{Run, back}
use arcos_os.Types.{ulong_mod, blocked}
use arcos_os.Ke.Scheduler.{Scheduler, set_state}
use arcos_os.Ke.Choice.{choose}
use arcos_os.Ke.Running.{Implements}
use arcos_os.Ke.Waiting.{with_blocked}
use arcos_os.Mm.{align_memory}
use arcos_os.Ob.Balance.{referenced}
use arcos_os.Io.Fifo.{get_first_char_from_buffer}
use arcos_os.Io.State.{Io, no_file_method}
use arcos_os.Io.Files.{io_read_serial}
use arcos_os.Io.Readers.{reader, io_read_serial-blocks}
use arcos_os.Tests.Machine.{machine, view, machine-Holds, machine-IsCurrent}
use arcos_os.Tests.Messages.{kernel}

abbrev typed : Io
typed = record {
  kernel = record kernel { ke = machine };
  fifo = record { buffer = λ i. if i == 0 then 97 else 0; count = 1 };
  file_type = 0;
  serial_file = 0;
  lcd_file = 0;
  files = λ _. record { write = no_file_method; read = no_file_method };
  waiting_queue = record { first = 0; last = 0 };
  waiting_nodes = λ _. record { process = 0; buffer = 0; buffer_size = 0; next = 0 };
  buffer_queue = record { first = 0; last = 0 };
  buffer_nodes = λ p. record { buffer_size = 0; next = 0 };
  output_pointer = 0;
  display = [];
  lcd = λ _. 0;
}

io_read_serial-blocks_example :
    (r : Run Scheduler (Unit {0})) × (io_read_serial 5 700 1 typed
      ≡ back
          (λ t. record typed {
            kernel = record (referenced typed.kernel 1) {
              ke = t;
              bytes = update kernel.bytes 700 97;
              free_mem_pointer = align_memory ((4096 + 16) % ulong_mod);
            };
            fifo = (get_first_char_from_buffer typed.fifo).1;
            waiting_queue = record { first = 4096; last = 4096 };
            waiting_nodes = update typed.waiting_nodes 4096 (reader typed 700 1);
          })
          r)
    × Implements (choose (with_blocked view (1 ∷ 6 ∷ [])) (set_state blocked (machine.procs 1)) 1) r
io_read_serial-blocks_example =
    io_read_serial-blocks 5 700 1 typed view machine-Holds machine-IsCurrent (==→ne 4096 0 refl)
      (==→ne 4294967265 0 refl) refl refl (==→ne 97 0 refl)
