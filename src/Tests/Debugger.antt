-- ===== src/Tests/Debugger.antt =====
-- The theorems on the debugger at a console with two commands, and on the output queue at one with a
-- string that is half written.
use arcos_os.Prelude.{ℕ, refl, ◌≡◌, inl, [], ◌∷◌, ◌==◌, if◌then◌else◌, ==→ne, arith, update}
use arcos_os.Prelude.Run.{Returns}
use arcos_os.Types.{Ptr}
use arcos_os.Kd.Console.{Console, Literals, print_char}
use arcos_os.Kd.Commands.{Command, execute_command}
use arcos_os.Kd.Editing.{IsEditing, SameElsewhere, receive_all, receive_all-edits}
use arcos_os.Kd.Dispatch.{execute_command-chosen}
use arcos_os.Io.State.{Io, no_file_method}
use arcos_os.Io.Output.{IsIdle, SameRest, transmit, transmit-display}
use arcos_os.Tests.Messages.{kernel}

-- "\e[D" at 300, "bl" at 400, "help" at 410, "b x" at 500, "hi" at 600, "!" at 800.
abbrev memory : Ptr → ℕ
memory a =
    if a == 300
    then 27
    else if a == 301
    then 91
    else if a == 302
    then 68
    else if a == 400
    then 98
    else if a == 401
    then 108
    else if a == 410
    then 104
    else if a == 411
    then 101
    else if a == 500
    then 98
    else if a == 501
    then 32
    else if a == 502
    then 120
    else if a == 600
    then 104
    else if a == 601
    then 105
    else if a == 800
    then 33
    else 0

abbrev console : Console
console = record { kernel = record kernel { bytes = memory }; position = 0; out = [] }

abbrev texts : Literals
texts = record {
  banner = 900;
  prompt = 900;
  erase = 300;
  ticks_line = 900;
  type_line = 900;
  object_line = 900;
  blocked_title = 900;
  timer_title = 900;
  help_line = 900;
  not_recognized = 900;
}

abbrev bl : Command
bl = record { text = record { name = 400; help = 900 }; execute = λ p. print_char 66 }

abbrev he : Command
he = record { text = record { name = 410; help = 900 }; execute = λ p. print_char 72 }

receive_all-edits_example :
    Returns
      (λ _ k'.
        IsEditing 4 texts [] 1000 k' (98 ∷ 108 ∷ []) × SameElsewhere 4 texts [] 1000 console k')
      (receive_all 4 texts [] 1000 (98 ∷ 107 ∷ 8 ∷ 7 ∷ 108 ∷ []) console)
receive_all-edits_example =
    receive_all-edits 4 texts [] 1000 console [] (27 ∷ 91 ∷ 68 ∷ []) (98 ∷ 107 ∷ 8 ∷ 7 ∷ 108 ∷ [])
      (refl, omega arith, tt) (refl, (refl, (refl, refl)))
      (==→ne 27 0 refl, (==→ne 91 0 refl, (==→ne 68 0 refl, tt))) (inl (omega arith)) (omega arith)
      refl

-- "b" runs "bl".
abbrev b_typed : Console
b_typed = record console { kernel = record kernel { bytes = update memory 501 0 } }

execute_command-chosen_example :
    execute_command 3 texts (he ∷ bl ∷ []) 500 b_typed ≡ print_char 66 b_typed
unfolding update
execute_command-chosen_example =
    execute_command-chosen 3 texts (he ∷ bl ∷ []) ((104 ∷ 101 ∷ []) ∷ (98 ∷ 108 ∷ []) ∷ [])
      (98 ∷ []) 500 b_typed
      (
        (refl, (refl, refl)),
        (==→ne 104 0 refl, (==→ne 101 0 refl, tt)),
        ((refl, (refl, refl)), (==→ne 98 0 refl, (==→ne 108 0 refl, tt)), tt),
      )
      (refl, refl) (==→ne 98 0 refl, tt) refl (omega arith)

-- Node 600 is being written, node 800 follows.
abbrev busy : Io
busy = record {
  kernel = record kernel { bytes = memory };
  fifo = record { buffer = λ _. 0; count = 0 };
  file_type = 0;
  serial_file = 0;
  lcd_file = 0;
  files = λ _. record { write = no_file_method; read = no_file_method };
  waiting_queue = record { first = 0; last = 0 };
  waiting_nodes = λ _. record { process = 0; buffer = 0; buffer_size = 0; next = 0 };
  buffer_queue = record { first = 600; last = 800 };
  buffer_nodes = λ p. record { buffer_size = 2; next = if p == 600 then 800 else 0 };
  output_pointer = 601;
  display = 104 ∷ [];
  lcd = λ _. 0;
}

transmit-display_example :
    Returns
      (λ _ s'. IsIdle s' × (s'.display ≡ 104 ∷ 105 ∷ 33 ∷ []) × SameRest busy s')
      (transmit 4 busy)
transmit-display_example =
    transmit-display busy (105 ∷ []) (record { node = 800; text = 33 ∷ [] } ∷ []) (record {
      pointer_ne = ==→ne 601 0 refl;
      first_ne = ==→ne 600 0 refl;
      text = (refl, refl);
      string = (==→ne 105 0 refl, tt);
      linked =
          (==→ne 600 800 refl, refl, ==→ne 800 0 refl, (refl, refl), (==→ne 33 0 refl, tt), refl);
    })

abbrev idle : Io
idle = record busy { buffer_queue = record { first = 0; last = 0 }; output_pointer = 0 }
