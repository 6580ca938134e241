-- ===== src/Rtl/Format/RoundTrip.antt =====
-- base/rtl/string.c: RtlFormatString with `%u`, and RtlAtoUL behind it.
use arcos_os.Prelude.{
  ℕ, zero, suc, ◌+◌, ◌-◌, ◌/◌, ◌≤◌, ◌<◌, ◌≡◌, refl, sym, ap, subst, ◌∙◌, ◌⊎◌, inl, inr, some, List,
  [], ◌∷◌, ◌++◌, length, ◌==◌, update, update_self, update_ne, arith, Bool-cases, ne→==, lt→ltb,
}
use arcos_os.Types.{Ptr, ulong_mod}
use arcos_os.Rtl.Memory.{Bytes}
use arcos_os.Rtl.Text.{Text}
use arcos_os.Rtl.Strings.{skip_spaces, read_digits, ato_ul}
use arcos_os.Rtl.Format.{
  Writer, Printed, add_length, snprintchar, snprintulong, print_directive, format_loop,
  format_string,
}
use arcos_os.Rtl.Format.Digits.{
  AllDigits, last_digit, decimal, value, AllDigits-decimal, length-decimal, ulong_power,
  value-decimal,
}

add_zero : (p : ℕ) → p + 0 ≡ p
add_zero p = omega arith

add_suc : (p n : ℕ) → p + suc n ≡ suc p + n
add_suc p n = omega arith

-- The characters `cs`, printed one by one.
abbrev put_all : Writer → List ℕ → Writer
put_all w [] = w
put_all w (c ∷ cs) = put_all (snprintchar w c).1 cs

put_all-append : (xs ys : List ℕ) (w : Writer) → put_all w (xs ++ ys) ≡ put_all (put_all w xs) ys
put_all-append [] ys w = refl
put_all-append (x ∷ xs) ys w = put_all-append xs ys _

snprintulong-decimal :
    (fuel : ℕ) (w : Writer) (n : ℕ) → (snprintulong fuel w n).1 ≡ put_all w (decimal fuel n)
unfolding snprintulong decimal
snprintulong-decimal zero w n = refl
snprintulong-decimal (suc fuel) w n = elim (Bool-cases (n / 10 == 0)) [
  | inl low ↦ rw low refl
  | inr high ↦ rw (
    high,
    snprintulong-decimal fuel w (n / 10),
    put_all-append (decimal fuel (n / 10)) (last_digit n) w,
  )
]

abbrev written : Bytes → Ptr → List ℕ → Bytes
written m p [] = m
written m p (c ∷ cs) = written (update m p c) (suc p) cs

writer_eq :
    (m : Bytes) (p p' free free' : ℕ)
    → p ≡ p'
    → free ≡ free'
    → Path Writer
        (record { bytes = m; cursor = p; free = free })
        (record { bytes = m; cursor = p'; free = free' })
writer_eq m p p' free free' e e' = rw (e, e')

put_all-written :
    (m : Bytes) (p free : ℕ) (cs : List ℕ)
    → length cs ≤ free
    → put_all (record { bytes = m; cursor = p; free = free }) cs
      ≡ record { bytes = written m p cs; cursor = p + length cs; free = free - length cs }
unfolding snprintchar
put_all-written m p free [] h = writer_eq m p (p + 0) free (free - 0) (omega arith) (omega arith)
put_all-written m p free (c ∷ cs) h = rw (lt→ltb 0 free (omega arith)) (
    put_all-written (update m p c) (suc p) (free - 1) cs (omega arith)
    ∙ writer_eq _ (suc p + length cs) (p + length (c ∷ cs)) (free - 1 - length cs)
        (free - length (c ∷ cs)) (omega arith) (omega arith))

written_before : (m : Bytes) (p : Ptr) (cs : List ℕ) (a : Ptr) → a < p → written m p cs a ≡ m a
written_before m p [] a lt = refl
written_before m p (c ∷ cs) a lt =
    written_before (update m p c) (suc p) cs a (omega arith)
    ∙ update_ne m p c a (λ e. absurd (omega (arith, e)))

written_outside :
    (cs : List ℕ) (m : Bytes) (p a : Ptr) → (a < p) ⊎ (p + length cs ≤ a) → written m p cs a ≡ m a
written_outside [] m p a out = refl
written_outside (c ∷ cs) m p a out =
    written_outside cs (update m p c) (suc p) a (ground arith)
    ∙ update_ne m p c a (λ e. ground arith)

Text-written :
    (m : Bytes) (p : Ptr) (cs : List ℕ) → Text (update (written m p cs) (p + length cs) 0) p cs
Text-written m p [] = subst (λ k. update m k 0 p ≡ 0) (sym (add_zero p)) (update_self m p 0)
Text-written m p (c ∷ cs) = (
  update_ne _ (p + length (c ∷ cs)) 0 p (λ e. absurd (omega (arith, e)))
      ∙ written_before (update m p c) (suc p) cs p (omega arith)
      ∙ update_self m p c,
  subst (λ k. Text (update (written (update m p c) (suc p) cs) k 0) (suc p) cs)
      (sym (add_suc p (length cs))) (Text-written (update m p c) (suc p) cs),
)

read_digits-value :
    (fuel : ℕ) (m : Bytes) (p r : ℕ) (cs : List ℕ)
    → Text m p cs
    → AllDigits cs
    → length cs < fuel
    → read_digits fuel m p r ≡ some (value r cs)
unfolding read_digits
read_digits-value zero m p r cs t d f = absurd (omega arith)
read_digits-value (suc fuel) m p r [] t d f = rw t
read_digits-value (suc fuel) m p r (c ∷ cs) t d f =
    rw (t.0, ne→== c 0 (λ e. absurd (omega (arith, e, d.0))))
      (read_digits-value fuel m (suc p) _ cs t.1 d.2 (omega arith))

skip_spaces-digits :
    (fuel : ℕ) (m : Bytes) (p : ℕ) (cs : List ℕ)
    → Text m p cs
    → AllDigits cs
    → skip_spaces (suc fuel) m p ≡ some p
unfolding skip_spaces
skip_spaces-digits fuel m p [] t d = rw t
skip_spaces-digits fuel m p (c ∷ cs) t d =
    rw (t.0, ne→== c 32 (λ e. absurd (omega (arith, e, d.0))))

pub ato_ul-digits :
    (fuel : ℕ) (m : Bytes) (p : ℕ) (cs : List ℕ)
    → Text m p cs
    → AllDigits cs
    → length cs < suc fuel
    → ato_ul (suc fuel) m p ≡ some (value 0 cs)
unfolding ato_ul
ato_ul-digits fuel m p cs t d f =
    rw (ato_ul, skip_spaces-digits fuel m p cs t d) (read_digits-value (suc fuel) m p 0 cs t d f)

module _ (f : ℕ) (argument : ℕ → ℕ) (m : Bytes) (str size format : Ptr)
    (directive : Text m format (37 ∷ 117 ∷ [])) (apart : (format + 2 < str) ⊎ (str + size ≤ format))
    (fits : argument 0 < ulong_mod) (room : 11 ≤ size) (enough : 9 ≤ f) where
  abbrev digits : List ℕ
  digits = decimal (suc (suc f)) (argument 0)

  abbrev start : Writer
  start = record { bytes = m; cursor = str; free = size - 1 }

  abbrev printed : Writer
  printed = record {
    bytes = written m str digits;
    cursor = str + length digits;
    free = size - 1 - length digits;
  }

  digits_fit : length digits ≤ 10
  digits_fit = length-decimal (suc (suc f)) 9 (argument 0) (omega (arith, fits))

  snprintulong-printed : (snprintulong (suc (suc f)) start (argument 0)).1 ≡ printed
  snprintulong-printed =
      snprintulong-decimal (suc (suc f)) start (argument 0)
      ∙ put_all-written m str (size - 1) digits (omega (arith, digits_fit))

  -- The terminator of the format is still there.
  format_end : printed.bytes (format + 2) ≡ 0
  format_end =
      written_outside digits m str (format + 2) (ground (arith, digits_fit))
      ∙ subst (λ a. m a ≡ 0) (omega arith) directive.1.1

  abbrev loop : ℕ → Writer → ℕ → ℕ → Printed
  loop = format_loop (suc (suc f)) argument

  loop_directive :
      loop (suc (suc f)) start format 0
      ≡ add_length
          (snprintulong (suc (suc f)) start (argument 0))
          (λ w. loop (suc f) w (format + 2) 1)
  unfolding format_loop print_directive
  loop_directive = rw (directive.0, directive.1.0)

  loop_end : loop (suc f) printed (format + 2) 1 ≡ (0, printed)
  unfolding format_loop
  loop_end = rw format_end

  loop-printed : (loop (suc (suc f)) start format 0).1 ≡ printed
  loop-printed = rw (loop_directive, snprintulong-printed, loop_end)

  format_string-printed :
      (format_string (suc (suc f)) argument m str size format).1.bytes
      ≡ update (written m str digits) (str + length digits) 0
  unfolding format_string
  format_string-printed = rw (lt→ltb 0 size (omega arith), loop-printed)

  read_back :
      ato_ul (suc (suc f)) (format_string (suc (suc f)) argument m str size format).1.bytes str
      ≡ some (argument 0)
  read_back =
      ap (λ b. ato_ul (suc (suc f)) b str) format_string-printed
      ∙ ato_ul-digits (suc f) _ str digits (Text-written m str digits)
          (AllDigits-decimal (suc (suc f)) (argument 0)) (omega (arith, digits_fit))
      ∙ ap some (
          value-decimal (suc (suc f)) (argument 0) fits
            (omega (arith, ulong_power (suc (suc f)) (omega arith))))

-- RtlFormatString with the format "%u", which lies outside of the buffer, prints an ULONG into a
-- buffer of at least 11 bytes so that RtlAtoUL reads the same number back from the buffer; eleven
-- rounds of the loops are enough.
pub ato_ul-format_string :
    (fuel : ℕ) (argument : ℕ → ℕ) (m : Bytes) (str size format : Ptr)
    → Text m format (37 ∷ 117 ∷ [])
    → (format + 2 < str) ⊎ (str + size ≤ format)
    → argument 0 < ulong_mod
    → 11 ≤ size
    → 11 ≤ fuel
    → ato_ul fuel (format_string fuel argument m str size format).1.bytes str ≡ some (argument 0)
ato_ul-format_string zero argument m str size format t apart fits room enough = absurd (omega arith)
ato_ul-format_string (suc zero) argument m str size format t apart fits room enough =
    absurd (omega arith)
ato_ul-format_string (suc (suc f)) argument m str size format t apart fits room enough =
    read_back f argument m str size format t apart fits room (omega arith)
