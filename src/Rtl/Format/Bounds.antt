-- ===== src/Rtl/Format/Bounds.antt =====
-- base/rtl/string.c: the bytes that RtlFormatString writes.
use arcos_os.Prelude.{
  ℕ, zero, suc, ◌+◌, ◌-◌, ◌/◌, ◌%◌, ◌≤◌, ◌<◌, ◌≡◌, refl, ◌⊎◌, inl, inr, Bool, true, false, ◌==◌,
  ltb, if◌then◌else◌, update, arith, Bool-cases,
}
use arcos_os.Types.{Ptr}
use arcos_os.Rtl.Memory.{Bytes}
use arcos_os.Rtl.Format.{
  Writer, Printed, snprintchar, snprintstring, snprintulong, snprinthex, snprintlong, is_negative,
  negate, long_quotient, long_remainder, print_directive, format_loop, format_string,
}

-- The cursor is in the buffer from `lo` to the last byte, at `hi`, and has room up to there;
-- nothing before `lo`, at `hi` or behind it has changed.
record Inside (m : Bytes) (lo hi : ℕ) (w : Writer) : Type 0 where
  low : lo ≤ w.cursor
  high : w.cursor + w.free ≤ hi
  same : (a : ℕ) → (a < lo) ⊎ (hi ≤ a) → w.bytes a ≡ m a

module _ (m : Bytes) (lo hi : ℕ) where
  abbrev Keeps : (Writer → Printed) → Type 0
  Keeps print = (w : Writer) → Inside m lo hi w → Inside m lo hi (print w).1

  Inside-if :
      (b : Bool) (p q : Printed)
      → Inside m lo hi p.1
      → Inside m lo hi q.1
      → Inside m lo hi (if b then p else q).1
  Inside-if true p q h k = h
  Inside-if false p q h k = k

  Inside-snprintchar : (c : ℕ) → Keeps λ w. snprintchar w c
  unfolding snprintchar update
  Inside-snprintchar c w h = elim (Bool-cases (ltb 0 w.free)) [
    | inl room ↦
        let low = h.low in
        let high = h.high in
        rw room (record {
          low = omega arith;
          high = ground arith;
          same = λ a out. ground (arith, h.same a out);
        })
    | inr full ↦ rw full h
  ]

  Inside-snprintstring : (fuel : ℕ) (s : Ptr) → Keeps λ w. snprintstring fuel w s
  unfolding snprintstring
  Inside-snprintstring zero s w h = h
  Inside-snprintstring (suc fuel) s w h =
      Inside-if (w.bytes s == 0) _ _ h
        (Inside-snprintstring fuel (suc s) _ (Inside-snprintchar (w.bytes s) w h))

  Inside-snprintulong : (fuel n : ℕ) → Keeps λ w. snprintulong fuel w n
  unfolding snprintulong
  Inside-snprintulong zero n w h = h
  Inside-snprintulong (suc fuel) n w h =
      Inside-snprintchar (n % 10 + 48) _
        (Inside-if (n / 10 == 0) _ _ h (Inside-snprintulong fuel (n / 10) w h))

  Inside-snprinthex : (fuel n : ℕ) → Keeps λ w. snprinthex fuel w n
  unfolding snprinthex
  Inside-snprinthex zero n w h = h
  Inside-snprinthex (suc fuel) n w h =
      let h' =
        Inside-if (n / 16 == 0) (0, w) (snprinthex fuel w (n / 16)) h
          (Inside-snprinthex fuel (n / 16) w h) in
      Inside-if (ltb (n % 16) 10) _ _ (Inside-snprintchar (n % 16 + 48) _ h')
        (Inside-snprintchar (n % 16 + 65 - 10) _ h')

  Inside-snprintlong : (fuel n : ℕ) → Keeps λ w. snprintlong fuel w n
  unfolding snprintlong
  Inside-snprintlong zero n w h = h
  Inside-snprintlong (suc fuel) n w h =
      let k : ℕ = if is_negative n then negate n else n in
      let sign =
        Inside-if (is_negative n) (snprintchar w 45) (0, w) (Inside-snprintchar 45 w h) h in
      Inside-snprintchar ((long_remainder k + 48) % 256) _ (
        Inside-if (long_quotient k == 0) _ _ sign
          (Inside-snprintlong fuel (long_quotient k) _ sign))

  abbrev KeepsFirst : Printed × Bool → Type 0
  KeepsFirst p = Inside m lo hi p.0.1

  KeepsFirst-if :
      (b : Bool) (p q : Printed × Bool)
      → KeepsFirst p
      → KeepsFirst q
      → KeepsFirst (if b then p else q)
  KeepsFirst-if true p q h k = h
  KeepsFirst-if false p q h k = k

  module _ (fuel : ℕ) (argument : ℕ → ℕ) where
    KeepsFirst-print_directive :
        (w : Writer) (d i : ℕ) → Inside m lo hi w → KeepsFirst (print_directive fuel argument w d i)
    unfolding print_directive
    KeepsFirst-print_directive w d i h =
        KeepsFirst-if (d == 100) _ _ (Inside-snprintlong fuel (argument i) w h) (
          KeepsFirst-if (d == 99) _ _ (Inside-snprintchar (argument i % 256) w h) (
            KeepsFirst-if (d == 120) _ _ (Inside-snprinthex fuel (argument i) w h) (
              KeepsFirst-if (d == 117) _ _ (Inside-snprintulong fuel (argument i) w h) (
                KeepsFirst-if (d == 115) _ _ (Inside-snprintstring fuel (argument i) w h)
                  (Inside-snprintchar d _ (Inside-snprintchar 37 w h))))))

    Inside-format_loop :
        (rounds : ℕ) (format : Ptr) (i : ℕ) → Keeps λ w. format_loop fuel argument rounds w format i
    unfolding format_loop
    Inside-format_loop zero format i w h = h
    Inside-format_loop (suc rounds) format i w h = Inside-if (w.bytes format == 0) _ _ h (
        Inside-if (w.bytes format == 37) _ _
          (Inside-format_loop rounds (format + 2) _ _
            (KeepsFirst-print_directive w (w.bytes (suc format)) i h))
          (Inside-format_loop rounds (suc format) i _ (Inside-snprintchar (w.bytes format) w h)))

-- With a buffer of at least one byte, RtlFormatString changes no byte outside the buffer, whatever
-- the format, the arguments and the number of rounds that its loops have run.
pub format_string-bounds :
    (fuel : ℕ) (argument : ℕ → ℕ) (m : Bytes) (str : Ptr) (size : ℕ) (format : Ptr) (a : ℕ)
    → 0 < size
    → (a < str) ⊎ (str + size ≤ a)
    → (format_string fuel argument m str size format).1.bytes a ≡ m a
unfolding format_string update
format_string-bounds fuel argument m str size format a pos out =
    let start : Writer = record {
      bytes = m;
      cursor = str;
      free = if ltb 0 size then size - 1 else 0;
    } in
    let h : Inside m str (str + (size - 1)) start = record {
      low = omega arith;
      high = ground arith;
      same = λ a _. refl;
    } in
    let h' = Inside-format_loop m str (str + (size - 1)) fuel argument fuel format 0 start h in
    let low = h'.low in let high = h'.high in let same = h'.same a (ground arith) in ground arith
