-- ===== src/Apps/ChangePrio/Split.antt =====
-- base/apps/changeprio.c: the arguments of the program as two strings of digits.
use arcos_os.Prelude.{
  ℕ, suc, ◌+◌, ◌<◌, ◌≡◌, ◌≢◌, refl, sym, ap, ◌∙◌, subst, some, false, ◌==◌, List, ◌∷◌, ◌++◌, length,
  arith, update, update_self, update_ne, inl, inr, Bool-cases, ==→eq, ne→==,
}
use arcos_os.Types.{Ptr}
use arcos_os.Rtl.Memory.{Bytes}
use arcos_os.Rtl.Text.{Text}
use arcos_os.Rtl.Strings.{app_is_digit, ato_ul}
use arcos_os.Rtl.Format.Digits.{AllDigits, value}
use arcos_os.Rtl.Format.RoundTrip.{ato_ul-digits}
use arcos_os.Apps.{Call, Memory, User, ok}
use arcos_os.Apps.ChangePrio.{Addresses, split_args}
use arcos_os.Apps.ChangePrio.Parse.{
  Chars, AllPlain, Chars-append, Chars-frame, Chars-Text, digit-is, past_digits-found,
  first_digit-found, second_number-found, with_bytes, split_at,
}

split_at-other : (m : Bytes) (stop end a : Ptr) → a ≢ stop → a ≢ end → split_at m stop end a ≡ m a
split_at-other m stop end a ns ne =
    let same = update_ne m stop 0 a ns in
    elim (Bool-cases (m end == 0)) [
      | inl z ↦ rw z same
      | inr nz ↦ rw nz (update_ne (update m stop 0) end 0 a ne ∙ same)
    ]

split_at-stop : (m : Bytes) (stop end : Ptr) → stop < end → split_at m stop end stop ≡ 0
split_at-stop m stop end lt =
    let same = update_self m stop 0 in
    elim (Bool-cases (m end == 0)) [
      | inl z ↦ rw z same
      | inr nz ↦
          rw nz (update_ne (update m stop 0) end 0 stop (λ e. absurd (omega (arith, lt, e))) ∙ same)
    ]

split_at-end : (m : Bytes) (stop end : Ptr) → stop < end → split_at m stop end end ≡ 0
split_at-end m stop end lt = elim (Bool-cases (m end == 0)) [
  | inl z ↦ rw z (update_ne m stop 0 end (λ e. absurd (omega (arith, lt, e))) ∙ ==→eq (m end) 0 z)
  | inr nz ↦ rw nz (update_self (update m stop 0) end 0)
]

split_at-before :
    (m : Bytes) (stop end p : Ptr) (xs : List ℕ)
    → p + length xs ≡ stop
    → stop < end
    → Chars m p xs
    → Text (split_at m stop end) p xs
split_at-before m stop end p xs at lt c =
    Chars-Text (split_at m stop end) p xs
      (Chars-frame m (split_at m stop end) p xs
        (λ a lo hi.
          split_at-other m stop end a (λ e. absurd (omega (arith, hi, e, at)))
            (λ e. absurd (omega (arith, hi, e, at, lt))))
        c)
      (subst (λ q. split_at m stop end q ≡ 0) (sym at) (split_at-stop m stop end lt))

split_at-behind :
    (m : Bytes) (stop end p : Ptr) (xs : List ℕ)
    → p + length xs ≡ end
    → stop < p
    → Chars m p xs
    → Text (split_at m stop end) p xs
split_at-behind m stop end p xs at lt c =
    Chars-Text (split_at m stop end) p xs
      (Chars-frame m (split_at m stop end) p xs
        (λ a lo hi.
          split_at-other m stop end a (λ e. absurd (omega (arith, lo, e, lt)))
            (λ e. absurd (omega (arith, hi, e, at))))
        c)
      (subst (λ q. split_at m stop end q ≡ 0) (sym at)
        (split_at-end m stop end (omega (arith, at, lt))))

module _ {W : Type 0} (serve : Call → Memory → W → ℕ × Memory × W) (rounds : ℕ) (at : Addresses)
    (u : User W) (pre xs apart ys : List ℕ) (x s y : ℕ) where
  abbrev m : Bytes
  m = u.memory.bytes

  abbrev first : Ptr
  first = at.args + length pre

  abbrev stop : Ptr
  stop = suc first + length xs

  abbrev second : Ptr
  second = suc stop + length apart

  abbrev end : Ptr
  end = suc second + length ys

  pub split_args-numbers :
      Chars m at.args (pre ++ ((x ∷ xs) ++ ((s ∷ apart) ++ (y ∷ ys))))
      → AllPlain pre
      → AllDigits (x ∷ xs)
      → AllPlain (s ∷ apart)
      → AllDigits (y ∷ ys)
      → app_is_digit (m end) ≡ false
      → length pre + length xs + length apart + length ys < rounds
      → (u' : User W) × (split_args serve (suc rounds) at u ≡ ok (first, second) u')
        × (ato_ul (suc rounds) u'.memory.bytes first ≡ some (value 0 (x ∷ xs)))
        × (ato_ul (suc rounds) u'.memory.bytes second ≡ some (value 0 (y ∷ ys)))
        × (u'.calls ≡ u.calls)
  unfolding split_args
  split_args-numbers chars plain digits plain' digits' ends f =
      let (c, c1) = Chars-append m at.args pre ((x ∷ xs) ++ ((s ∷ apart) ++ (y ∷ ys))) chars in
      let (cx, c2) = Chars-append m first (x ∷ xs) ((s ∷ apart) ++ (y ∷ ys)) c1 in
      let at_stop : first + suc (length xs) ≡ stop = omega arith in
      let (cs, c3) =
        Chars-append m stop (s ∷ apart) (y ∷ ys)
          (subst (λ q. Chars m q ((s ∷ apart) ++ (y ∷ ys))) at_stop c2) in
      let at_second : stop + suc (length apart) ≡ second = omega arith in
      let cy : Chars m second (y ∷ ys) = subst (λ q. Chars m q (y ∷ ys)) at_second c3 in
      let at_x : m first ≡ x = cx.0 in
      let at_s : m stop ≡ s = cs.0 in
      let one =
        first_digit-found serve (suc rounds) at u pre c plain
          (ap app_is_digit at_x ∙ digit-is x digits.0 digits.1) (omega (arith, f)) in
      let two =
        past_digits-found (suc rounds) m (suc first) xs cx.1 digits.2
          (ap app_is_digit at_s ∙ plain'.1) (omega (arith, f)) in
      let three =
        second_number-found serve (suc rounds) at u stop apart y ys cs.1 plain'.2 cy.0 digits'.0
          digits'.1 cy.1 digits'.2 ends (omega (arith, f)) (omega (arith, f)) in
      (
        with_bytes u (split_at m stop end),
        rw (one, two, at_s, ne→== s 0 plain'.0, three) refl,
        ato_ul-digits rounds (split_at m stop end) first (x ∷ xs)
            (split_at-before m stop end first (x ∷ xs) at_stop (omega arith) cx) digits
            (omega (arith, f)),
        ato_ul-digits rounds (split_at m stop end) second (y ∷ ys)
            (split_at-behind m stop end second (y ∷ ys) (omega arith) (omega arith) cy) digits'
            (omega (arith, f)),
        refl,
      )
