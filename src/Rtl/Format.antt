-- ===== src/Rtl/Format.antt =====
-- base/rtl/string.c: RtlFormatString. The output goes through `*str` and `*size`, the writer's
-- cursor and free space; an argument is a word of the stack. A loop runs for at most `fuel`
-- rounds, so that a run of any length is a prefix of the C function's.
pub mod Bounds
pub mod Digits
pub mod RoundTrip
use arcos_os.Prelude.{
  ℕ, zero, suc, ◌+◌, ◌*◌, ◌-◌, ◌/◌, ◌%◌, ◌^◌, Bool, true, false, ◌==◌, ltb, leb, if◌then◌else◌,
  update,
}
use arcos_os.Types.{Ptr, ulong_mod}
use arcos_os.Rtl.Memory.{Bytes}

pub record Writer : Type 0 where
  pub bytes : Bytes
  pub cursor : Ptr
  pub free : ℕ

-- The length that a function returns, and the writer it leaves.
abbrev pub Printed : Type 0
Printed = ℕ × Writer

unfoldable pub snprintchar : Writer → ℕ → Printed
snprintchar w c = (
  1,
  if ltb 0 w.free
      then (record { bytes = update w.bytes w.cursor c; cursor = suc w.cursor; free = w.free - 1 })
      else w,
)

-- `length += print(...)`
abbrev pub add_length : Printed → (Writer → Printed) → Printed
add_length (n, w) print = let (k, w') = print w in ((n + k) % ulong_mod, w')

unfoldable pub snprintstring : ℕ → Writer → Ptr → Printed
snprintstring zero w s = (0, w)
snprintstring (suc fuel) w s =
    if w.bytes s == 0
    then (0, w)
    else add_length (snprintchar w (w.bytes s)) λ w. snprintstring fuel w (suc s)

unfoldable pub snprintulong : ℕ → Writer → ℕ → Printed
snprintulong zero w n = (0, w)
snprintulong (suc fuel) w n =
    add_length (if n / 10 == 0 then (0, w) else snprintulong fuel w (n / 10))
      λ w. snprintchar w (n % 10 + 48)

unfoldable pub snprinthex : ℕ → Writer → ℕ → Printed
snprinthex zero w n = (0, w)
snprinthex (suc fuel) w n =
    add_length (if n / 16 == 0 then (0, w) else snprinthex fuel w (n / 16))
      λ w. if ltb (n % 16) 10 then snprintchar w (n % 16 + 48) else snprintchar w (n % 16 + 65 - 10)

-- A LONG in two's complement.
abbrev pub is_negative : ℕ → Bool
is_negative n = leb (2 ^ 31) n

abbrev pub negate : ℕ → ℕ
negate n = (ulong_mod - n) % ulong_mod

-- `n / 10` and `n % 10`, which round towards 0.
abbrev pub long_quotient : ℕ → ℕ
long_quotient n = if is_negative n then negate (negate n / 10) else n / 10

abbrev pub long_remainder : ℕ → ℕ
long_remainder n = if is_negative n then negate (negate n % 10) else n % 10

unfoldable pub snprintlong : ℕ → Writer → ℕ → Printed
snprintlong zero w n = (0, w)
snprintlong (suc fuel) w n =
    let m : ℕ = if is_negative n then negate n else n in
    let sign : Printed = if is_negative n then snprintchar w 45 else (0, w) in
    let high : Writer → Printed =
      λ w. if long_quotient m == 0 then (0, w) else snprintlong fuel w (long_quotient m) in
    add_length (add_length sign high) λ w. snprintchar w ((long_remainder m + 48) % 256)

module _ (fuel : ℕ) (argument : ℕ → ℕ) where
  -- The switch on the character behind a `%`: what it prints, and whether it takes an argument.
  unfoldable pub print_directive : Writer → ℕ → ℕ → Printed × Bool
  print_directive w d i =
      if d == 100
      then (snprintlong fuel w (argument i), true)
      else if d == 99
      then (snprintchar w (argument i % 256), true)
      else if d == 120
      then (snprinthex fuel w (argument i), true)
      else if d == 117
      then (snprintulong fuel w (argument i), true)
      else if d == 115
      then (snprintstring fuel w (argument i), true)
      else (add_length (snprintchar w 37) (λ w. snprintchar w d), false)

  -- The `while` loop of RtlFormatString at `format`, with argument `i` the next one.
  unfoldable pub format_loop : ℕ → Writer → Ptr → ℕ → Printed
  format_loop zero w format i = (0, w)
  format_loop (suc rounds) w format i =
      if w.bytes format == 0
      then (0, w)
      else if w.bytes format == 37
      then (let (printed, taken) = print_directive w (w.bytes (suc format)) i in
          add_length printed λ w. format_loop rounds w (format + 2) (if taken then suc i else i))
      else add_length (snprintchar w (w.bytes format)) λ w. format_loop rounds w (suc format) i

  unfoldable pub format_string : Bytes → Ptr → ℕ → Ptr → Printed
  format_string m str size format =
      let start : Writer = record {
        bytes = m;
        cursor = str;
        free = if ltb 0 size then size - 1 else 0;
      } in
      let (length, w) = format_loop fuel start format 0 in
      (length, record w { bytes = update w.bytes w.cursor 0 })
