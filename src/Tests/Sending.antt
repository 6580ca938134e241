-- ===== src/Tests/Sending.antt =====
-- The theorems on MessSendMessage and the queue of waiting processes at a kernel in which process 7 sleeps
-- until a message comes, with the node 500, and the messages 100 and 200 wait for it.
use arcos_os.Prelude.{
  refl, ◌≡◌, ◌+◌, true, [], ◌∷◌, none, some, ◌==◌, if◌then◌else◌, ==→ne, arith, has, update,
}
use arcos_os.Prelude.Run.{Cmd, ok, pure, Returns}
use arcos_os.Types.{Ptr, null, Process, success, no_such_process, mess_resume_method, ready}
use arcos_os.Kernel.{Kernel, body_to_header}
use arcos_os.Ke.Fields.{SamePlace, Holds-with_fields, IsCurrent-with_fields}
use arcos_os.Ke.Invariant.{Holds}
use arcos_os.Ke.Wake.{woken}
use arcos_os.Rtl.Memory.{copy_memory}
use arcos_os.Ps.Listed.{Listed, find_pid}
use arcos_os.Ps.Changes.{IsHeld}
use arcos_os.Mess.WaitQueue.{set_node_next, add_process_to_queue, mess_resume}
use arcos_os.Mess.Waiters.{Queued, waiter, add_process_to_queue-Queued}
use arcos_os.Mess.Removal.{OnlyLinks}
use arcos_os.Mess.Forget.{At, mess_resume-Queued}
use arcos_os.Mess.Queue.{Waiting}
use arcos_os.Mess.Messages.{send_message}
use arcos_os.Mess.Send.{message_of, prepared, send_message-Waiting, send_message-unknown}
use arcos_os.Mess.Woken.{Receives}
use arcos_os.Mess.Wakes.{IsReceiver, send_message-IsReceiver}
use arcos_os.Tests.Machine.{machine, view, machine-Holds, machine-IsCurrent}
use arcos_os.Tests.Messages.{kernel}

abbrev listener : Process
listener = record (machine.procs 7) {
  pid = 7;
  resume_method = mess_resume_method;
  message_queue = 100;
}

abbrev listening : Kernel
listening = record kernel {
  ke = record machine { procs = update machine.procs 7 listener };
  process_type = 2000;
  headers = λ h. record (kernel.headers h) {
    pointer_count = 1;
    type = 2000;
    next_object_of_type = if h == body_to_header 7 then body_to_header 2 else null;
  };
  types = λ t. record (kernel.types t) { first_object_of_type = body_to_header 7 };
  mess_nodes = λ _. record { process = 7; pid = 7; type = 0; next = null };
  mess_first = 500;
  mess_last = 500;
}

listed : Listed listening (7 ∷ 2 ∷ [])
listed = record {
  type_ne = ==→ne 2000 0 refl;
  type_header_ne = ==→ne 1968 0 refl;
  type_magic = refl;
  objects = (
    refl,
    (==→ne 7 0 refl, ==→ne (body_to_header 7) 0 refl, refl, refl, refl),
    (refl, (==→ne 2 0 refl, ==→ne (body_to_header 2) 0 refl, refl, refl, refl), refl),
  );
}

held : (p : Ptr) → IsHeld (listening.headers p)
held p = record { handles = omega arith; some_left = omega arith; room = omega arith }

abbrev no_delete : Ptr → Ptr → Cmd Kernel (Unit {0})
no_delete m object = pure tt

queued : Queued listening (500 ∷ []) []
queued = ((refl, ==→ne 500 0 refl, refl), (refl, tt), refl)

alone : At listening (listening.ke.procs 7).pid [] 500 [] []
unfolding update
alone = record { queued = queued; node = refl; not_before = tt; not_behind = tt }

place : SamePlace (machine.procs 7) listener
place = record { next = refl; state = refl; priority = refl; wake = refl }

receives : Receives 4 listening view 7 5 [] 500 [] []
unfolding update
receives = record {
  at = alone;
  process = refl;
  wanted = refl;
  holds = Holds-with_fields machine 7 listener place machine-Holds;
  is_current = IsCurrent-with_fields machine 7 listener place machine-IsCurrent;
  waits = refl;
  method = refl;
  no_higher = omega arith;
  nodes_enough = omega arith;
  timers_enough = omega arith;
  blocked_enough = omega arith;
}

receiver :
    IsReceiver listening 5 600 4 4 no_delete (7 ∷ 2 ∷ []) 7 view [] 500 [] [] (100 ∷ 200 ∷ [])
unfolding update
receiver = record {
  listed = listed;
  found = refl;
  enough = omega arith;
  held = held (body_to_header 7);
  sender_ne = ==→ne 1 0 refl;
  buffer_ne = ==→ne 600 0 refl;
  memory = ==→ne 4096 0 refl;
  queue = (refl, ==→ne 100 0 refl, refl, (refl, ==→ne 200 0 refl, refl, refl));
  fresh = refl;
  room = omega arith;
  receives = receives;
}

send_message-IsReceiver_example :
    Returns
      (λ status k'.
        (status ≡ success)
        × ((k'.ke.procs 7).context.v0 ≡ 4096)
        × ((k'.ke.procs 7).state ≡ ready)
        × Waiting k' 7 (100 ∷ 200 ∷ 4096 ∷ [])
        × (k'.messages 4096 ≡ message_of listening (listening.ke.procs 7).pid 5 600 4)
        × Queued k' [] []
        × Holds k'.ke (woken view 7 (listening.ke.procs 7).priority)
        × (k'.headers ≡ listening.headers))
      (send_message 4 no_delete (listening.ke.procs 7).pid 5 600 4 listening)
send_message-IsReceiver_example =
    send_message-IsReceiver listening 5 600 4 4 no_delete (7 ∷ 2 ∷ []) 7 view [] 500 [] []
      (100 ∷ 200 ∷ []) receiver

two_found : find_pid listening 1 (7 ∷ 2 ∷ []) ≡ some 2
unfolding update
two_found = refl

three_missing : find_pid listening 3 (7 ∷ 2 ∷ []) ≡ none
unfolding update
three_missing = refl

queue_of_two : Waiting listening 2 []
unfolding update
queue_of_two = refl

send_message-Waiting_example :
    Returns
      (λ status k'.
        (status ≡ success)
        × Waiting k' 2 (4096 ∷ [])
        × (k'.messages 4096 ≡ message_of listening 1 5 600 4)
        × (k'.bytes ≡ copy_memory listening.bytes (4096 + 28) 600 4)
        × (k'.headers ≡ listening.headers))
      (send_message 4 no_delete 1 5 600 4 listening)
send_message-Waiting_example =
    send_message-Waiting listening 1 5 600 4 4 no_delete (7 ∷ 2 ∷ []) listed (omega arith)
      (==→ne 1 0 refl) (==→ne 600 0 refl) (==→ne 4096 0 refl) 2 two_found (held (body_to_header 2))
      (500 ∷ []) (refl, ==→ne 500 0 refl, refl) (==→ne 7 1 refl, tt) (omega arith) [] queue_of_two
      refl (omega arith)

send_message-unknown_example :
    send_message 4 no_delete 3 5 600 4 listening ≡ ok no_such_process (prepared listening 3 5 600 4)
send_message-unknown_example =
    send_message-unknown listening 3 5 600 4 4 no_delete (7 ∷ 2 ∷ []) listed (omega arith)
      (==→ne 1 0 refl) (==→ne 600 0 refl) (==→ne 4096 0 refl) three_missing

add_process_to_queue-Queued_example :
    Returns
      (λ status k'.
        (status ≡ success)
        × Queued k' (500 ∷ 4096 ∷ []) []
        × (k'.mess_nodes 4096 ≡ waiter 1 (listening.ke.procs 1).pid 0)
        × ((a : Ptr)
            → has a (500 ∷ []) ≡ true
            → set_node_next null (k'.mess_nodes a) ≡ set_node_next null (listening.mess_nodes a)))
      (add_process_to_queue 0 listening)
add_process_to_queue-Queued_example =
    add_process_to_queue-Queued 0 listening (500 ∷ []) [] queued (==→ne 1 0 refl)
      (==→ne 4096 0 refl) refl

mess_resume-Queued_example :
    Returns (λ _ k'. Queued k' [] [] × OnlyLinks listening [] k') (mess_resume 4 7 listening)
mess_resume-Queued_example =
    mess_resume-Queued 4 listening 7 (==→ne 7 0 refl) [] 500 [] [] alone (omega arith)
