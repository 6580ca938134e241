-- ===== src/Kd/Decimal.antt =====
-- base/kd/kdio.c: KdpPrintUlong and KdpPrintLong against the decimal digits of a number.
use arcos_os.Prelude.{
  ℕ, zero, suc, ◌+◌, ◌/◌, ◌%◌, ◌≤◌, ◌<◌, ◌≡◌, ap, inl, inr, false, List, ◌++◌, append_assoc, arith,
  ◌==◌, Bool-cases, ne→==, ==→ne,
}
use arcos_os.Prelude.Run.{ok}
use arcos_os.Types.{ulong_mod}
use arcos_os.Rtl.Format.Digits.{
  AllDigits, decimal, last_digit, value, power, ulong_power, AllDigits-decimal, value-decimal,
}
use arcos_os.Kd.Console.{Console, print_char, print_ulong}
use arcos_os.Kd.Keys.{with_out}

-- A digit is no new line.
digit-sent :
    (n : ℕ) (k : Console) → print_char (n % 10 + 48) k ≡ ok tt (with_out k (k.out ++ last_digit n))
unfolding print_char
digit-sent n k = rw (ne→== (n % 10 + 48) 10 (λ e. omega (arith, e)))

print_ulong-decimal :
    (fuel n : ℕ) (k : Console)
    → n < power fuel
    → 0 < fuel
    → print_ulong fuel n k ≡ ok tt (with_out k (k.out ++ decimal fuel n))
unfolding print_ulong decimal
print_ulong-decimal zero n k small some_fuel = absurd (omega arith)
print_ulong-decimal (suc fuel) n k small some_fuel = elim (Bool-cases (n / 10 == 0)) [
  | inl low ↦ rw (low, digit-sent n k)
  | inr high ↦
      let more : 0 < fuel = more_rounds fuel n small high in
      rw
        (
          high,
          print_ulong-decimal fuel (n / 10) k (omega arith) more,
          digit-sent n (with_out k (k.out ++ decimal fuel (n / 10))),
        )
        (ap (λ o. ok tt (with_out k o)) (append_assoc k.out (decimal fuel (n / 10)) (last_digit n)))
]
  where
    more_rounds : (fuel n : ℕ) → n < power (suc fuel) → (n / 10 == 0) ≡ false → 0 < fuel
    more_rounds zero n small high = absurd (==→ne _ _ high (omega arith))
    more_rounds (suc fuel) n small high = omega arith

-- KdpPrintUlong of a 32-bit number returns within 10 nested calls, and what it has sent to the console
-- is a sequence of digits whose value is the number.
print_ulong-value :
    (fuel n : ℕ) (k : Console)
    → n < ulong_mod
    → 10 ≤ fuel
    → (ds : List ℕ) × (print_ulong fuel n k ≡ ok tt (with_out k (k.out ++ ds)))
      × AllDigits ds
      × (value 0 ds ≡ n)
print_ulong-value fuel n k small f =
    let fits : n < power fuel = omega (arith, ulong_power fuel f, small) in
    (
      decimal fuel n,
      print_ulong-decimal fuel n k fits (omega arith),
      AllDigits-decimal fuel n,
      value-decimal fuel n small fits,
    )
