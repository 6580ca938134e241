-- ===== src/Io/Interrupts.antt =====
-- base/io/io.c: the handlers of the two interrupts of the console.
use arcos_os.Prelude.{ℕ, suc, not, [], ◌∷◌, ◌++◌, ◌&&◌, ◌==◌, if◌then◌else◌}
use arcos_os.Prelude.Run.{Cmd, pure, get, modify, assert, ◌>>=◌, ◌>>◌}
use arcos_os.Types.{Ptr, null}
use arcos_os.Kernel.{Kernel}
use arcos_os.Mm.{mm_free}
use arcos_os.Ob.Objects.{dereference_object}
use arcos_os.Ke.Processes.{resume_process}
use arcos_os.Io.Fifo.{add_char_to_buffer}
use arcos_os.Io.State.{Io, on_kernel, waiting_node, buffer_node}
use arcos_os.Io.Files.{empty_queue, hand_over}

-- IoInterruptHandler
unfoldable pub interrupt_handler : ℕ → (Ptr → Ptr → Cmd Kernel (Unit {0})) → ℕ → Cmd Io (Unit {0})
interrupt_handler fuel delete_method c = do
  modify λ s. record s { fifo = add_char_to_buffer c s.fifo }
  q ← get λ s. s.waiting_queue
  if q.first == null then pure tt else do
    n ← waiting_node q.first
    hand_over n.buffer
    modify λ s. record s { waiting_queue = record s.waiting_queue { first = n.next } }
    assert (not (n.process == null))
    on_kernel (resume_process fuel n.process)
    on_kernel (dereference_object fuel delete_method n.process)
    on_kernel (mm_free q.first)

-- The branch of IoTransmitterInterruptHandler at the end of a string.
unfoldable pub next_output : Cmd Io (Unit {0})
next_output = do
  q ← get λ s. s.buffer_queue
  if (q.first == q.last) && not (q.first == null)
      then (do
        on_kernel (mm_free q.first)
        modify λ s. record s { buffer_queue = empty_queue; output_pointer = null })
      else (do
        n ← buffer_node q.first
        modify λ s. record s {
          buffer_queue = record s.buffer_queue { first = n.next };
          output_pointer = n.next;
        }
        on_kernel (mm_free q.first))

-- IoTransmitterInterruptHandler
unfoldable pub transmitter_interrupt_handler : Cmd Io (Unit {0})
transmitter_interrupt_handler = do
  p ← get λ s. s.output_pointer
  if p == null then pure tt else do
    c ← get λ s. s.kernel.bytes p
    if c == 0
        then next_output
        else modify λ s. record s { display = s.display ++ c ∷ []; output_pointer = suc p }
