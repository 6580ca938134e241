-- ===== src/Tests/Services.antt =====
-- A system call at a concrete machine: process 1 waits for a message.
use arcos_os.Prelude.{[]}
use arcos_os.Io.State.{no_file_method}
use arcos_os.Ps.Info.{info_of}
use arcos_os.Syscall.{System}
use arcos_os.Tests.Machine.{machine}
use arcos_os.Tests.Messages.{kernel}

abbrev pub system : System
system = record {
  io = record {
    kernel = kernel;
    fifo = record { buffer = λ _. 0; count = 0 };
    file_type = 0;
    serial_file = 0;
    lcd_file = 0;
    files = λ _. record { write = no_file_method; read = no_file_method };
    waiting_queue = record { first = 0; last = 0 };
    waiting_nodes = λ _. record { process = 0; buffer = 0; buffer_size = 0; next = 0 };
    buffer_queue = record { first = 0; last = 0 };
    buffer_nodes = λ p. record { buffer_size = 0; next = 0 };
    output_pointer = 0;
    display = [];
    lcd = λ _. 0;
  };
  infos = λ _ _. info_of (machine.procs 1);
  words = λ _. 0;
}

-- Process 1 has no message; KeCurrentProcess is read behind the call.
abbrev asking : System
asking = record system { io = record system.io { kernel = record kernel { ke = machine } } }
