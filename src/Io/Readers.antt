-- ===== src/Io/Readers.antt =====
-- base/io/io.c: IoReadSerial where a character is in the buffer.
use arcos_os.Prelude.{
  ℕ, ◌+◌, ◌%◌, ◌≡◌, ◌≢◌, refl, ◌∷◌, inl, inr, ◌==◌, if◌then◌else◌, Bool-cases, update, eq→==, ne→==,
}
use arcos_os.Prelude.Run.{Run, ok, bug_check, fault, out_of_fuel, back}
use arcos_os.Types.{Ptr, null, ulong_mod, success, blocked}
use arcos_os.Kernel.{Kernel, body_to_header}
use arcos_os.Ke.Scheduler.{Scheduler, set_state}
use arcos_os.Ke.Timers.{block_process}
use arcos_os.Ke.Invariant.{View, Holds}
use arcos_os.Ke.Switch.{IsCurrent}
use arcos_os.Ke.Choice.{choose}
use arcos_os.Ke.Running.{Implements}
use arcos_os.Ke.Waiting.{with_blocked}
use arcos_os.Ke.Block.{block_process_refines}
use arcos_os.Mm.{mm_alloc, align_memory}
use arcos_os.Ob.Objects.{object_magic, reference_object, inc}
use arcos_os.Ob.Access.{assert_object-ok, header-ok, set_header-ok}
use arcos_os.Ob.Balance.{referenced}
use arcos_os.Io.Fifo.{get_first_char_from_buffer}
use arcos_os.Io.State.{Io, WaitingNode}
use arcos_os.Io.Files.{io_read_serial, enqueue_reader, hand_over, wait_for_input}

reference_object-any :
    (k : Kernel) (p : Ptr)
    → p ≢ null
    → body_to_header p ≢ null
    → (k.headers (body_to_header p)).magic ≡ object_magic
    → reference_object p null k ≡ ok success (referenced k p)
unfolding reference_object
reference_object-any k p ne h_ne magic = rw (
  ne→== p null ne,
  assert_object-ok (body_to_header p) k h_ne magic,
  header-ok (body_to_header p) k h_ne,
  set_header-ok (body_to_header p) (λ r. record r { pointer_count = inc r.pointer_count }) k h_ne,
)

back-back :
    {S T U A : Type 0} (f : T → S) (g : U → T) (r : Run U A)
    → back f (back g r) ≡ back (λ u. f (g u)) r
back-back f g (ok a u) = refl
back-back f g (bug_check m) = refl
back-back f g fault = refl
back-back f g out_of_fuel = refl

wait_for_input-block :
    (fuel : ℕ) (s : Io)
    → s.kernel.ke.current ≢ null
    → body_to_header s.kernel.ke.current ≢ null
    → (s.kernel.headers (body_to_header s.kernel.ke.current)).magic ≡ object_magic
    → wait_for_input fuel s
      ≡ back
          (λ t. record s { kernel = record (referenced s.kernel s.kernel.ke.current) { ke = t } })
          (block_process fuel s.kernel.ke)
unfolding wait_for_input
wait_for_input-block fuel s ne h_ne magic =
    rw (reference_object-any s.kernel s.kernel.ke.current ne h_ne magic) (
      back-back (λ k. record s { kernel = k })
        (λ t. record (referenced s.kernel s.kernel.ke.current) { ke = t })
        (block_process fuel s.kernel.ke))

-- The node for the current process.
abbrev pub reader : Io → Ptr → ℕ → WaitingNode
reader s buffer size = record {
  process = s.kernel.ke.current;
  buffer = buffer;
  buffer_size = size;
  next = null;
}

enqueue_reader-alone :
    (fuel : ℕ) (buffer : Ptr) (size : ℕ) (s : Io)
    → s.kernel.ke.current ≢ null
    → body_to_header s.kernel.ke.current ≢ null
    → (s.kernel.headers (body_to_header s.kernel.ke.current)).magic ≡ object_magic
    → s.kernel.free_mem_pointer ≢ null
    → s.waiting_queue.first ≡ null
    → enqueue_reader fuel buffer size s
      ≡ back
          (λ t. record s {
            kernel = record (referenced s.kernel s.kernel.ke.current) {
              ke = t;
              free_mem_pointer = align_memory ((s.kernel.free_mem_pointer + 16) % ulong_mod);
            };
            waiting_queue = record {
              first = s.kernel.free_mem_pointer;
              last = s.kernel.free_mem_pointer;
            };
            waiting_nodes = update s.waiting_nodes s.kernel.free_mem_pointer (reader s buffer size);
          })
          (block_process fuel s.kernel.ke)
unfolding enqueue_reader mm_alloc
enqueue_reader-alone fuel buffer size s ne h_ne magic mem_ne nobody =
    let p : Ptr = s.kernel.free_mem_pointer in
    rw (ne→== p null mem_ne, eq→== s.waiting_queue.first null nobody)
      (wait_for_input-block fuel
        (record s {
          kernel = record s.kernel { free_mem_pointer = align_memory ((p + 16) % ulong_mod) };
          waiting_queue = record { first = p; last = p };
          waiting_nodes = update s.waiting_nodes p (reader s buffer size);
        })
        ne h_ne magic)

-- IoReadSerial, where a character is in the keyboard buffer and nobody waits for one, stores the character
-- in the caller's buffer, and blocks the caller all the same: it queues the caller for the next
-- character, which will go to the same address, takes a reference to it, puts it on the blocked list and runs what the abstract
-- scheduler chooses. A buffer at NULL ends in a fault instead.
pub io_read_serial-blocks :
    (fuel : ℕ) (buffer : Ptr) (size : ℕ) (s : Io) (v : View)
    → Holds s.kernel.ke v
    → IsCurrent s.kernel.ke v
    → s.kernel.free_mem_pointer ≢ null
    → body_to_header s.kernel.ke.current ≢ null
    → (s.kernel.headers (body_to_header s.kernel.ke.current)).magic ≡ object_magic
    → s.waiting_queue.first ≡ null
    → s.fifo.buffer 0 ≢ 0
    → (r : Run Scheduler (Unit {0})) × (io_read_serial fuel buffer size s ≡ (
        if buffer == null
        then fault
        else back
            (λ t. record s {
              kernel = record (referenced s.kernel s.kernel.ke.current) {
                ke = t;
                bytes = update s.kernel.bytes buffer (s.fifo.buffer 0);
                free_mem_pointer = align_memory ((s.kernel.free_mem_pointer + 16) % ulong_mod);
              };
              fifo = (get_first_char_from_buffer s.fifo).1;
              waiting_queue = record {
                first = s.kernel.free_mem_pointer;
                last = s.kernel.free_mem_pointer;
              };
              waiting_nodes =
                  update s.waiting_nodes s.kernel.free_mem_pointer (reader s buffer size);
            })
            r))
      × Implements
          (choose
            (with_blocked v (s.kernel.ke.current ∷ v.blocked))
            (set_state blocked (s.kernel.ke.procs s.kernel.ke.current))
            s.kernel.ke.current)
          r
unfolding io_read_serial hand_over get_first_char_from_buffer
io_read_serial-blocks fuel buffer size s v h c mem_ne h_ne magic nobody char = (
  block_process fuel s.kernel.ke,
  elim (Bool-cases (buffer == null)) [
    | inl at_null ↦
        rw (eq→== s.waiting_queue.first null nobody, ne→== (s.fifo.buffer 0) 0 char, at_null) refl
    | inr elsewhere ↦
        rw (eq→== s.waiting_queue.first null nobody, ne→== (s.fifo.buffer 0) 0 char, elsewhere)
          (enqueue_reader-alone fuel buffer size
            (record s {
              kernel = record s.kernel { bytes = update s.kernel.bytes buffer (s.fifo.buffer 0) };
              fifo = (get_first_char_from_buffer s.fifo).1;
            })
            c.ne_null h_ne magic mem_ne nobody)
  ],
  block_process_refines s.kernel.ke v h c fuel,
)
