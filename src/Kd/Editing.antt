-- ===== src/Kd/Editing.antt =====
-- base/kd/kdio.c: the command line that KdCharacterReceived edits, as a list of characters.
use arcos_os.Prelude.{
  ℕ, ◌+◌, ◌-◌, ◌≤◌, ◌<◌, ◌≡◌, ◌≢◌, refl, ◌∙◌, ap, ◌⊎◌, inl, inr, Bool, true, false, ◌||◌, ◌&&◌,
  List, [], ◌∷◌, ◌++◌, length, has, length-append, arith, ◌==◌, ltb, if◌then◌else◌, update,
  update_ne, ne→==, Bool-cases, ltb→lt, lt→ltb, le→ltb,
}
use arcos_os.Prelude.Run.{Cmd, pure, ◌>>◌, Returns, returns, Returns-bind, Returns-weaken}
use arcos_os.Types.{Ptr}
use arcos_os.Kernel.{Kernel}
use arcos_os.Rtl.Text.{Text, IsString}
use arcos_os.Rtl.Copy.{Text-frame}
use arcos_os.Kd.Console.{Console, Literals, sent, print_char, print_debugger_prompt}
use arcos_os.Kd.Commands.{Command, execute_command}
use arcos_os.Kd.Line.{command_buffer_size, is_printable, enter, rub_out, insert, character_received}
use arcos_os.Kd.Keys.{
  print_string-sent, Typed, drop_last, edit, edit_all, length-drop_last, Typed-drop_last,
  Typed-append, Typed-Text,
}

and_right : (a b : Bool) → (a && b) ≡ true → b ≡ true
and_right true b e = e
and_right false b e = cc

module _ (fuel : ℕ) (texts : Literals) (commands : List Command) (command_buffer : Ptr) where
  -- The debugger holds the line.
  abbrev pub IsEditing : Console → List ℕ → Type 0
  IsEditing k line =
      (k.position ≡ length line)
      × (length line < command_buffer_size)
      × Typed k.kernel.bytes command_buffer line

  -- All memory but the command line's 159 characters is the same.
  abbrev pub SameElsewhere : Console → Console → Type 0
  SameElsewhere k k' =
      (a : Ptr)
      → (a < command_buffer) ⊎ (command_buffer + (command_buffer_size - 1) ≤ a)
      → k'.kernel.bytes a ≡ k.kernel.bytes a

  abbrev pub receive_all : List ℕ → Cmd Console (Unit {0})
  receive_all [] = pure tt
  receive_all (c ∷ cs) = do character_received fuel texts commands command_buffer c; receive_all cs

  rub_out-edits :
      (k : Console) (line erase : List ℕ)
      → IsEditing k line
      → Text k.kernel.bytes texts.erase erase
      → IsString erase
      → length erase < fuel
      → Returns
          (λ _ k'. IsEditing k' (drop_last line) × (k'.kernel ≡ k.kernel))
          (rub_out fuel texts commands command_buffer k)
  unfolding rub_out
  rub_out-edits k [] erase h t i f =
      rw (le→ltb 0 k.position (omega (arith, h.0))) (returns (h, refl))
  rub_out-edits k (c ∷ cs) erase h t i f =
      rw
        (
          lt→ltb 0 k.position (omega (arith, h.0)),
          print_string-sent fuel texts.erase erase (record k { position = k.position - 1 }) t i f,
        )
        (returns (
          (
            omega (arith, h.0, length-drop_last c cs),
            omega (arith, h, length-drop_last c cs),
            Typed-drop_last k.kernel.bytes command_buffer (c ∷ cs) h.2,
          ),
          refl,
        ))

  insert-edits :
      (k : Console) (line : List ℕ) (c : ℕ)
      → IsEditing k line
      → Returns
          (λ _ k'.
            IsEditing k' (
              if is_printable c && ltb (length line) (command_buffer_size - 1)
              then line ++ c ∷ []
              else line)
            × SameElsewhere k k')
          (insert fuel texts commands command_buffer c k)
  unfolding insert print_char
  insert-edits k line c h =
      elim (Bool-cases (is_printable c && ltb (length line) (command_buffer_size - 1))) [
        | inl room ↦
            let test : (is_printable c && ltb k.position (command_buffer_size - 1)) ≡ true =
              rw h.0 room in
            let small : length line < command_buffer_size - 1 =
              ltb→lt _ _ (and_right (is_printable c) _ room) in
            let k' : Console = record {
              kernel = record k.kernel {
                bytes = update k.kernel.bytes (command_buffer + k.position) c;
              };
              position = k.position + 1;
              out = k.out ++ sent c;
            } in
            rw (test, room)
              (returns {s = k'} (
                (
                  omega (arith, h.0, length-append line (c ∷ [])),
                  omega (arith, small, length-append line (c ∷ [])),
                  Typed-append k.kernel.bytes command_buffer (command_buffer + k.position) c line
                      (omega (arith, h.0)) h.2,
                ),
                λ a out.
                    update_ne k.kernel.bytes (command_buffer + k.position) c a
                      (λ q. absurd (omega (arith, q, out, small, h.0))),
              ))
        | inr full ↦
            let test : (is_printable c && ltb k.position (command_buffer_size - 1)) ≡ false =
              rw h.0 full in
            rw (test, full) (returns (h, λ a out. refl))
      ]

  character_received-edits :
      (k : Console) (line erase : List ℕ) (c : ℕ)
      → c ≢ 13
      → IsEditing k line
      → Text k.kernel.bytes texts.erase erase
      → IsString erase
      → length erase < fuel
      → Returns
          (λ _ k'. IsEditing k' (edit line c) × SameElsewhere k k')
          (character_received fuel texts commands command_buffer c k)
  unfolding character_received
  character_received-edits k line erase c ne h t i f =
      rw (ne→== c 13 ne) (elim (Bool-cases (c == 8 || c == 127)) [
        | inl back ↦ rw back (
            Returns-weaken (rub_out-edits k line erase h t i f)
              (λ _ k' done. (done.0, λ a out. ap (λ (x : Kernel). x.bytes a) done.1)))
        | inr other ↦ rw other (insert-edits k line c h)
      ])

  -- Any sequence of keys without a carriage return edits the line as a text field of at most 159
  -- printable characters does: a backspace or delete takes the last character away, a printable
  -- character is added at the end while there is room, and others are ignored. KdCharacterReceived
  -- returns for each key, the position stays below the size of the buffer, and no memory outside the
  -- buffer's first 159 bytes changes. The string that rubs a character out lies outside these bytes.
  pub receive_all-edits :
      (k : Console) (line erase cs : List ℕ)
      → IsEditing k line
      → Text k.kernel.bytes texts.erase erase
      → IsString erase
      → (texts.erase + length erase < command_buffer)
        ⊎ (command_buffer + (command_buffer_size - 1) ≤ texts.erase)
      → length erase < fuel
      → has 13 cs ≡ false
      → Returns (λ _ k'. IsEditing k' (edit_all line cs) × SameElsewhere k k') (receive_all cs k)
  receive_all-edits k line erase [] h t i apart f none_of = returns (h, λ a out. refl)
  receive_all-edits k line erase (c ∷ cs) h t i apart f none_of =
      Returns-bind
        (character_received-edits k line erase c (λ e. ground (arith, e, none_of)) h t i f)
        (λ _ k' done.
          Returns-weaken
            (receive_all-edits k' (edit line c) erase cs done.0
              (Text-frame k.kernel.bytes k'.kernel.bytes texts.erase erase
                (λ a lo hi. done.1 a (omega (arith, lo, hi, apart))) t)
              i apart f (ground (arith, none_of)))
            (λ _ k'' rest. (rest.0, λ a out. rest.1 a out ∙ done.1 a out)))

  -- What the console holds when a carriage return has ended the line.
  abbrev pub entered : Console → Console
  entered k = record k {
    kernel = record k.kernel { bytes = update k.kernel.bytes (command_buffer + k.position) 0 };
    position = 0;
    out = k.out ++ sent 10;
  }

  -- At a carriage return KdCharacterReceived runs the debugger's command processor on the buffer, with
  -- the line there as a string and a new, empty line begun, and prints the prompt. The buffer has room
  -- for the terminator.
  character_received-enter :
      (k : Console) (line : List ℕ)
      → IsEditing k line
      → (character_received fuel texts commands command_buffer 13 k
          ≡ (execute_command fuel texts commands command_buffer >> print_debugger_prompt fuel texts)
              (entered k))
        × Text (entered k).kernel.bytes command_buffer line
        × IsEditing (entered k) []
        × ((a : Ptr)
            → (a < command_buffer) ⊎ (command_buffer + command_buffer_size ≤ a)
            → (entered k).kernel.bytes a ≡ k.kernel.bytes a)
  unfolding character_received enter print_char
  character_received-enter k line h = (
    refl,
    Typed-Text k.kernel.bytes command_buffer (command_buffer + k.position) line (omega (arith, h.0))
        h.2,
    (refl, omega arith, tt),
    λ a out.
        update_ne k.kernel.bytes (command_buffer + k.position) 0 a
          (λ q. absurd (omega (arith, q, out, h.0, h.1))),
  )
