-- ===== src/Rtl/Format/Digits.antt =====
-- The decimal digits of a number, as characters.
use arcos_os.Prelude.{
  ℕ, zero, suc, ◌+◌, ◌-◌, ◌*◌, ◌/◌, ◌%◌, ◌≤◌, ◌<◌, ◌≡◌, refl, sym, ap, subst, dec_le, ◌∙◌, inl, inr,
  List, [], ◌∷◌, ◌++◌, length, ◌==◌, if◌then◌else◌, arith, Bool-cases, ==→eq, ==→ne,
}
use arcos_os.Types.{ulong_mod}
use arcos_os.Rtl.Strings.{sign_extend}

abbrev pub AllDigits : List ℕ → Type 0
AllDigits [] = Unit {0}
AllDigits (c ∷ cs) = (48 ≤ c) × (c < 58) × AllDigits cs

-- The character of the last decimal digit.
abbrev pub last_digit : ℕ → List ℕ
last_digit n = (n % 10 + 48) ∷ []

-- The decimal digits of a number.
unfoldable pub decimal : ℕ → ℕ → List ℕ
decimal zero n = []
decimal (suc fuel) n = (if n / 10 == 0 then [] else decimal fuel (n / 10)) ++ last_digit n

abbrev pub value : ℕ → List ℕ → ℕ
value r [] = r
value r (c ∷ cs) = value ((r * 10 + (sign_extend c + ulong_mod - 48)) % ulong_mod) cs

abbrev pub power : ℕ → ℕ
power zero = 1
power (suc k) = 10 * power k

pub AllDigits-append : (xs ys : List ℕ) → AllDigits xs → AllDigits ys → AllDigits (xs ++ ys)
AllDigits-append [] ys a b = b
AllDigits-append (x ∷ xs) ys a b = (a.0, a.1, AllDigits-append xs ys a.2 b)

pub AllDigits-decimal : (fuel n : ℕ) → AllDigits (decimal fuel n)
unfolding decimal
AllDigits-decimal zero n = tt
AllDigits-decimal (suc fuel) n =
    AllDigits-append (if n / 10 == 0 then [] else decimal fuel (n / 10)) (last_digit n)
      (elim (Bool-cases (n / 10 == 0)) [
        | inl low ↦ rw low tt
        | inr high ↦ rw high (AllDigits-decimal fuel (n / 10))
      ])
      (omega arith, omega arith, tt)

pub length-append : (xs ys : List ℕ) → length (xs ++ ys) ≡ length xs + length ys
length-append [] ys = omega arith
length-append (x ∷ xs) ys = omega (arith, length-append xs ys)

-- A number below `10 ^ (k + 1)` has at most `k + 1` digits.
pub length-decimal : (fuel k n : ℕ) → n < power (suc k) → length (decimal fuel n) ≤ suc k
unfolding decimal
length-decimal zero k n h = omega arith
length-decimal (suc fuel) k n h = elim (Bool-cases (n / 10 == 0)) [
  | inl low ↦ rw low (omega arith)
  | inr high ↦ rw high (
      elim k as (λ k. n < power (suc k) → length (decimal fuel (n / 10) ++ last_digit n) ≤ suc k) [
        | zero ↦ λ h. absurd (==→ne _ _ high (omega arith))
        | suc j ↦ λ h. omega (
          arith,
          length-append (decimal fuel (n / 10)) (last_digit n),
          length-decimal fuel j (n / 10) (omega arith),
        )
      ]
        h)
]

pub ulong_power : (fuel : ℕ) → 10 ≤ fuel → ulong_mod ≤ power fuel
ulong_power zero h = absurd (omega arith)
ulong_power (suc fuel) h = elim (dec_le 10 fuel) [
  | yes more ↦ omega (arith, ulong_power fuel more)
  | no last ↦
      let nine : 9 ≡ fuel = omega arith in subst (λ k. ulong_mod ≤ power (suc k)) nine (omega arith)
]

pub value-append : (xs ys : List ℕ) (r : ℕ) → value r (xs ++ ys) ≡ value (value r xs) ys
value-append [] ys r = refl
value-append (x ∷ xs) ys r = value-append xs ys _

pub value-digit : (r d : ℕ) → d < 10 → r * 10 + d < ulong_mod → value r ((d + 48) ∷ []) ≡ r * 10 + d
value-digit r d small fits = ground arith

pub value-decimal : (fuel n : ℕ) → n < ulong_mod → n < power fuel → value 0 (decimal fuel n) ≡ n
unfolding decimal
value-decimal zero n fits h = omega arith
value-decimal (suc fuel) n fits h =
    value-append (if n / 10 == 0 then [] else decimal fuel (n / 10)) (last_digit n) 0
    ∙ ap (λ r. value r (last_digit n))
        (elim (Bool-cases (n / 10 == 0)) [
          | inl low ↦ rw low (sym (==→eq _ _ low))
          | inr high ↦ rw high (value-decimal fuel (n / 10) (omega arith) (omega arith))
        ])
    ∙ value-digit (n / 10) (n % 10) (omega arith) (omega arith)
    ∙ omega arith
