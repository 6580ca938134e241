-- ===== src/Kd/Console.antt =====
-- base/kd/kdio.c, base/kd/kdinit.c and base/kd/mipsel32/printchar.c: printing on the debugger's console.
-- The console is the sequence of bytes that reach the device; the wait for the device is left out. A
-- loop runs for `fuel` rounds. The addresses of the string constants are fields of `Literals`.
use arcos_os.Prelude.{
  ℕ, zero, suc, ◌+◌, ◌-◌, ◌/◌, ◌%◌, Bool, true, false, List, [], ◌∷◌, ◌++◌, ◌==◌, ltb,
  if◌then◌else◌, update,
}
use arcos_os.Prelude.Run.{Cmd, out_of_fuel, pure, get, modify, within, ◌>>=◌, ◌>>◌}
use arcos_os.Types.{Ptr}
use arcos_os.Kernel.{Kernel}
use arcos_os.Rtl.Format.{is_negative, negate, long_quotient, long_remainder}

pub record Literals : Type 0 where
  pub banner : Ptr
  pub prompt : Ptr
  pub erase : Ptr
  pub ticks_line : Ptr
  pub type_line : Ptr
  pub object_line : Ptr
  pub blocked_title : Ptr
  pub timer_title : Ptr
  pub help_line : Ptr
  pub not_recognized : Ptr

-- The kernel, commandBufferPosition, and what has been sent to the console.
pub record Console : Type 0 where
  pub kernel : Kernel
  pub position : ℕ
  pub out : List ℕ

-- A kernel command, run under the debugger.
abbrev pub on_kernel : {A : Type 0} → Cmd Kernel A → Cmd Console A
on_kernel = within (λ k. k.kernel) (λ k s. record k { kernel = s })

-- A byte of memory, and a store of one.
abbrev pub byte : Ptr → Cmd Console ℕ
byte p = get λ k. k.kernel.bytes p

abbrev pub put_byte : Ptr → ℕ → Cmd Console (Unit {0})
put_byte p c =
    modify λ k. record k { kernel = record k.kernel { bytes = update k.kernel.bytes p c } }

-- A new line is followed by a carriage return.
abbrev pub sent : ℕ → List ℕ
sent c = c ∷ (if c == 10 then 13 ∷ [] else [])

unfoldable pub print_char : ℕ → Cmd Console (Unit {0})
print_char c = modify λ k. record k { out = k.out ++ sent c }

unfoldable pub print_string : ℕ → Ptr → Cmd Console (Unit {0})
print_string zero s = λ _. out_of_fuel
print_string (suc fuel) s = do
  c ← byte s
  let rest = (do print_char c; print_string fuel (suc s))
  if c == 0 then pure tt else rest

unfoldable pub print_long : ℕ → ℕ → Cmd Console (Unit {0})
print_long zero n = λ _. out_of_fuel
print_long (suc fuel) n = do
  if is_negative n then print_char 45 else pure tt
  let m = if is_negative n then negate n else n
  let high = print_long fuel (long_quotient m)
  if long_quotient m == 0 then pure tt else high
  print_char ((long_remainder m + 48) % 256)

unfoldable pub print_ulong : ℕ → ℕ → Cmd Console (Unit {0})
print_ulong zero n = λ _. out_of_fuel
print_ulong (suc fuel) n = do
  let high = print_ulong fuel (n / 10)
  if n / 10 == 0 then pure tt else high
  print_char (n % 10 + 48)

unfoldable pub print_hex : ℕ → ℕ → Cmd Console (Unit {0})
print_hex zero n = λ _. out_of_fuel
print_hex (suc fuel) n = do
  let high = print_hex fuel (n / 16)
  if n / 16 == 0 then pure tt else high
  if ltb (n % 16) 10 then print_char (n % 16 + 48) else print_char (n % 16 + 65 - 10)

module _ (fuel : ℕ) (argument : ℕ → ℕ) where
  -- The switch on the character behind a `%`, and whether it takes an argument.
  unfoldable pub print_directive : ℕ → ℕ → Cmd Console Bool
  print_directive d i =
      if d == 100
      then (do print_long fuel (argument i); pure true)
      else if d == 99
      then (do print_char (argument i % 256); pure true)
      else if d == 120
      then (do print_hex fuel (argument i); pure true)
      else if d == 117
      then (do print_ulong fuel (argument i); pure true)
      else if d == 115
      then (do print_string fuel (argument i); pure true)
      else (do print_char 37; print_char d; pure false)

  -- KdpPrintEx, with argument `i` the next one.
  unfoldable pub print_ex : ℕ → Ptr → ℕ → Cmd Console (Unit {0})
  print_ex zero format i = λ _. out_of_fuel
  print_ex (suc rounds) format i = do
    c ← byte format
    d ← byte (suc format)
    let directive = (do
      taken ← print_directive d i
      print_ex rounds (format + 2) (if taken then suc i else i))
    let plain = (do print_char c; print_ex rounds (suc format) i)
    if c == 0 then pure tt else if c == 37 then directive else plain

  -- KdpPrint
  abbrev pub kdp_print : Ptr → Cmd Console (Unit {0})
  kdp_print format = print_ex fuel format 0

-- The arguments of a call.
abbrev pub arguments : List ℕ → ℕ → ℕ
arguments [] i = 0
arguments (a ∷ rest) zero = a
arguments (a ∷ rest) (suc i) = arguments rest i

module _ (fuel : ℕ) (texts : Literals) where
  -- KdpPrintDebuggerPrompt
  unfoldable pub print_debugger_prompt : Cmd Console (Unit {0})
  print_debugger_prompt = print_string fuel texts.prompt

  unfoldable pub kd_initialize : Cmd Console (Unit {0})
  kd_initialize = do print_string fuel texts.banner; print_debugger_prompt

  -- KdPrint; `command_buffer` is the address of the array commandBuffer.
  unfoldable pub kd_print : Ptr → (ℕ → ℕ) → Ptr → Cmd Console (Unit {0})
  kd_print command_buffer argument format = do
    print_char 10
    print_ex fuel argument fuel format 0
    print_char 10
    print_debugger_prompt
    position ← get λ k. k.position
    put_byte (command_buffer + position) 0
    print_string fuel command_buffer
