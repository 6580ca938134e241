-- ===== src/Kd/Line.antt =====
-- base/kd/kdio.c: KdCharacterReceived, the editing of the command line. `command_buffer` is the address
-- of the array commandBuffer.
use arcos_os.Prelude.{ℕ, Bool, ◌+◌, ◌-◌, List, ◌==◌, ltb, if◌then◌else◌, ◌||◌, ◌&&◌}
use arcos_os.Prelude.Run.{Cmd, pure, get, modify, ◌>>=◌, ◌>>◌}
use arcos_os.Types.{Ptr}
use arcos_os.Kd.Console.{
  Console, Literals, put_byte, print_char, print_string, print_debugger_prompt,
}
use arcos_os.Kd.Commands.{Command, execute_command}

abbrev pub command_buffer_size : ℕ
command_buffer_size = 160

abbrev pub is_printable : ℕ → Bool
is_printable c = ltb 31 c && ltb c 127

module _ (fuel : ℕ) (texts : Literals) (commands : List Command) (command_buffer : Ptr) where
  -- The branch of a carriage return.
  unfoldable pub enter : Cmd Console (Unit {0})
  enter = do
    position ← get λ k. k.position
    put_byte (command_buffer + position) 0
    modify λ k. record k { position = 0 }
    print_char 10
    execute_command fuel texts commands command_buffer
    print_debugger_prompt fuel texts

  -- The branch of a backspace.
  unfoldable pub rub_out : Cmd Console (Unit {0})
  rub_out = do
    position ← get λ k. k.position
    if ltb 0 position
        then (do modify λ k. record k { position = position - 1 }; print_string fuel texts.erase)
        else pure tt

  -- The branch of any other character.
  unfoldable pub insert : ℕ → Cmd Console (Unit {0})
  insert c = do
    position ← get λ k. k.position
    if is_printable c && ltb position (command_buffer_size - 1)
        then (do
          print_char c
          put_byte (command_buffer + position) c
          modify λ k. record k { position = position + 1 })
        else pure tt

  unfoldable pub character_received : ℕ → Cmd Console (Unit {0})
  character_received c = if c == 13 then enter else if c == 8 || c == 127 then rub_out else insert c
