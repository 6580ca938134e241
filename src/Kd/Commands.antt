-- ===== src/Kd/Commands.antt =====
-- base/kd/kdcommand.c: the commands of the debugger, and ObDumpObject of base/ob/ob.c. `dump` is the
-- address of the local array, `dump_method` the call of a type's Dump method. A loop runs for
-- `fuel` rounds.
use arcos_os.Prelude.{ℕ, zero, suc, ◌+◌, ◌-◌, ◌%◌, not, List, [], ◌∷◌, ◌==◌, if◌then◌else◌}
use arcos_os.Prelude.Run.{Cmd, out_of_fuel, pure, get, modify, assert, ◌>>=◌, ◌>>◌}
use arcos_os.Types.{Ptr, null, ulong_mod}
use arcos_os.Kernel.{Kernel, in_ke, header, object_type, body_to_header}
use arcos_os.Ke.Scheduler.{load}
use arcos_os.Ke.Processes.{get_tick_count}
use arcos_os.Rtl.Strings.{same, string_length, compare_strings}
use arcos_os.Rtl.Format.{format_string}
use arcos_os.Ob.Objects.{assert_object, get_first_object_of_type, get_next_object_of_type}
use arcos_os.Kernel.{with_rounds}
use arcos_os.Kd.Console.{
  Console, Literals, on_kernel, byte, put_byte, print_char, kdp_print, arguments,
}

-- KD_COMMAND, less its Execute method.
pub record CommandText : Type 0 where
  pub name : Ptr
  pub help : Ptr

-- KD_COMMAND
pub record Command : Type 0 where
  pub text : CommandText
  pub execute : Ptr → Cmd Console (Unit {0})

unfoldable pub split_parameter : ℕ → Ptr → Cmd Console Ptr
split_parameter zero command = λ _. out_of_fuel
split_parameter (suc fuel) command = do
  c ← byte command
  let rest = split_parameter fuel (suc command)
  if c == 0
      then pure command
      else if c == 32
      then (do put_byte command 0; pure (suc command))
      else rest

-- ObDumpObject; `format` is the address of "Refs: %d Handles: %d ".
module _ (fuel : ℕ) (dump_method : Ptr → Ptr → Ptr → ℕ → Cmd Kernel (Unit {0})) (format : Ptr) where
  unfoldable pub dump_object : Ptr → Ptr → ℕ → Cmd Kernel (Unit {0})
  dump_object object buffer buffer_size = do
    assert (not (object == null))
    assert (not (buffer == null))
    assert_object (body_to_header object)
    r ← header (body_to_header object)
    m ← get λ k. k.bytes
    let printed =
        format_string fuel (arguments (r.pointer_count ∷ r.handle_count ∷ [])) m buffer buffer_size
          format
    modify λ k. record k { bytes = printed.1.bytes }
    length ← with_rounds (string_length fuel printed.1.bytes buffer)
    r ← header (body_to_header object)
    if r.type == null then pure tt else do
      t ← object_type r.type
      if t.dump == null
          then pure tt
          else dump_method t.dump object ((buffer + length) % ulong_mod)
              ((buffer_size + ulong_mod - length) % ulong_mod)

  module _ (texts : Literals) (dump : Ptr) where
    -- The body of the loops over objects and processes.
    unfoldable pub print_object : Ptr → Cmd Console (Unit {0})
    print_object object = do
      on_kernel (dump_object object dump 320)
      kdp_print fuel (arguments (object ∷ dump ∷ [])) texts.object_line

    -- The inner loop of KdpCmdObjects.
    unfoldable pub print_objects : ℕ → Ptr → Cmd Console (Unit {0})
    print_objects zero object = λ _. out_of_fuel
    print_objects (suc rounds) object = if object == null then pure tt else do
      print_object object
      next ← on_kernel (get_next_object_of_type object)
      print_objects rounds next

    -- The outer loop of KdpCmdObjects.
    unfoldable pub print_types : ℕ → Ptr → Cmd Console (Unit {0})
    print_types zero type = λ _. out_of_fuel
    print_types (suc rounds) type = if type == null then pure tt else do
      first ← on_kernel (get_first_object_of_type type)
      t ← on_kernel (object_type type)
      kdp_print fuel (arguments (type ∷ t.name ∷ [])) texts.type_line
      print_objects fuel first
      t ← on_kernel (object_type type)
      if t.next_type_object == null then pure tt else print_char 10
      print_types rounds t.next_type_object

    unfoldable pub cmd_objects : Ptr → Cmd Console (Unit {0})
    cmd_objects parameter = do first ← get λ k. k.kernel.type_list_head; print_types fuel first

    -- A loop of KdpCmdBlockedList.
    unfoldable pub print_processes : ℕ → Ptr → Cmd Console (Unit {0})
    print_processes zero process = λ _. out_of_fuel
    print_processes (suc rounds) process = if process == null then pure tt else do
      print_object process
      r ← on_kernel (in_ke (load process))
      print_processes rounds r.next_pcb

    unfoldable pub cmd_blocked_list : Ptr → Cmd Console (Unit {0})
    cmd_blocked_list parameter = do
      kdp_print fuel (arguments []) texts.blocked_title
      blocked ← get λ k. k.kernel.ke.blocked_list
      print_processes fuel blocked
      kdp_print fuel (arguments []) texts.timer_title
      timers ← get λ k. k.kernel.ke.timer_list
      print_processes fuel timers

module _ (fuel : ℕ) (texts : Literals) where
  unfoldable pub cmd_ticks : Ptr → Cmd Console (Unit {0})
  cmd_ticks parameter = do
    ticks ← on_kernel get_tick_count
    kdp_print fuel (arguments (ticks ∷ [])) texts.ticks_line

  unfoldable pub cmd_help : List CommandText → Ptr → Cmd Console (Unit {0})
  cmd_help [] parameter = pure tt
  cmd_help (c ∷ cs) parameter = do
    kdp_print fuel (arguments (c.name ∷ c.help ∷ [])) texts.help_line
    cmd_help cs parameter

  -- The loop of KdpExecuteCommand.
  unfoldable pub execute_from : List Command → Ptr → Ptr → Cmd Console (Unit {0})
  execute_from [] command parameter = kdp_print fuel (arguments (command ∷ [])) texts.not_recognized
  execute_from (c ∷ cs) command parameter = do
    m ← get λ k. k.kernel.bytes
    order ← on_kernel (with_rounds (compare_strings fuel m c.text.name command))
    elim order [ same ↦ c.execute parameter | _ ↦ execute_from cs command parameter ]

  unfoldable pub execute_command : List Command → Ptr → Cmd Console (Unit {0})
  execute_command commands command = do
    parameter ← split_parameter fuel command
    execute_from commands command parameter

  -- KdpCommands, from the four texts in their order.
  abbrev pub kdp_commands :
      (dump_method : Ptr → Ptr → Ptr → ℕ → Cmd Kernel (Unit {0})) (format dump : Ptr)
      (help ticks objects bl : CommandText)
      → List Command
  kdp_commands dump_method format dump help ticks objects bl =
      record { text = help; execute = cmd_help (help ∷ ticks ∷ objects ∷ bl ∷ []) }
      ∷ record { text = ticks; execute = cmd_ticks }
      ∷ record { text = objects; execute = cmd_objects fuel dump_method format texts dump }
      ∷ record { text = bl; execute = cmd_blocked_list fuel dump_method format texts dump }
      ∷ []
