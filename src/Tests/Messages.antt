-- ===== src/Tests/Messages.antt =====
-- The theorems on memory blocks, handles and messages at a concrete kernel: process 1 runs, and the messages
-- 100 and 200 wait for it.
use arcos_os.Prelude.{◌≡◌, refl, [], ◌∷◌, ◌==◌, ◌+◌, if◌then◌else◌, ==→ne, arith}
use arcos_os.Prelude.Run.{Returns}
use arcos_os.Types.{null}
use arcos_os.Kernel.{Kernel}
use arcos_os.Mm.Blocks.{allocate_all, Follow, allocate_all-Follow}
use arcos_os.Mess.Messages.{
  new_message, receive_first, receive_type, set_message_queue, set_message_next,
}
use arcos_os.Mess.Queue.{Waiting}
use arcos_os.Mess.Order.{receive_first-Waiting, receive_type-lost}
use arcos_os.Prelude.{◌≤◌, inl}
use arcos_os.Types.{success}
use arcos_os.Ob.Handles.{open_object_by_pointer, reference_object_by_handle}
use arcos_os.Ob.Lookup.{open-reference}
use arcos_os.Tests.Machine.{machine}

abbrev pub kernel : Kernel
kernel = record {
  ke = record machine { procs = λ p. set_message_queue 100 (machine.procs p) };
  headers = λ _. record {
    magic = 0x0BEC0BEC;
    handle_count = 0;
    pointer_count = 0;
    attributes = 0;
    signal_state = 0;
    wait_queue = null;
    type = null;
    next_object_of_type = null;
  };
  types = λ _. record {
    name = 0;
    first_object_of_type = null;
    next_type_object = null;
    dump = null;
    delete = null;
  };
  wait_entries = λ _. record { process = null; next = null };
  type_list_head = null;
  free_mem_pointer = 4096;
  messages = λ p. set_message_next (if p == 100 then 200 else null) (new_message 2 1 7 (p + 28) 4);
  mess_nodes = λ _. record { process = null; pid = 0; type = 0; next = null };
  mess_first = null;
  mess_last = null;
  process_type = null;
  bytes = λ _. 0;
}

waiting : Waiting kernel 1 (100 ∷ 200 ∷ [])
waiting = (refl, ==→ne 100 0 refl, refl, (refl, ==→ne 200 0 refl, refl, refl))

allocate_all-Follow_example :
    Returns
      (λ ps k'. Follow 4096 (5 ∷ 1 ∷ []) ps k'.free_mem_pointer)
      (allocate_all (5 ∷ 1 ∷ []) kernel)
allocate_all-Follow_example = allocate_all-Follow (5 ∷ 1 ∷ []) kernel refl (omega arith)

receive_first-Waiting_example :
    Returns
      (λ p k'. (p ≡ 100) × ((k'.messages 100).next ≡ null) × Waiting k' k'.ke.current (200 ∷ []))
      (receive_first 2 50 kernel)
receive_first-Waiting_example =
    receive_first-Waiting 2 kernel 100 (200 ∷ []) waiting (==→ne 1 0 refl) 50

receive_type-lost_example :
    Returns (λ p k'. (p ≡ 100) × Waiting k' k'.ke.current []) (receive_type 2 50 7 kernel)
receive_type-lost_example =
    receive_type-lost 2 kernel 100 (200 ∷ []) waiting (==→ne 1 0 refl) 50 7 refl

open-reference_example :
    Returns
      (λ r k'.
        (r.0 ≡ success)
        × (r.1 ≤ 3)
        × (((kernel.ke.procs 1).handle_table r.1).object ≡ null)
        × Returns (λ r' _. (r'.0 ≡ success) × (r'.1 ≡ 3000)) (reference_object_by_handle r.1 0 k'))
      (open_object_by_pointer 3000 0 0 kernel)
open-reference_example =
    open-reference kernel 3000 0 0 3 (==→ne 3000 0 refl) (==→ne 1 0 refl) (==→ne 2968 0 refl) refl
      (inl refl) (omega arith) refl
