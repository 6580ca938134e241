-- ===== src/Apps/ChangePrio/Parse.antt =====
-- base/apps/changeprio.c: how the arguments are taken apart.
use arcos_os.Prelude.{
  ℕ, zero, suc, ◌+◌, ◌≤◌, ◌<◌, ◌≡◌, ◌≢◌, refl, sym, ap, ◌∙◌, subst, some, true, false, ◌==◌,
  if◌then◌else◌, List, [], ◌∷◌, ◌++◌, length, arith, update, update_ne, ne→==, inl, inr, Bool-cases,
}
use arcos_os.Types.{Ptr}
use arcos_os.Rtl.Memory.{Bytes}
use arcos_os.Rtl.Text.{Text}
use arcos_os.Rtl.Strings.{app_is_digit}
use arcos_os.Rtl.Format.Digits.{AllDigits}
use arcos_os.Apps.{Call, Memory, User, ok}
use arcos_os.Apps.ChangePrio.{to_digit, past_digits, Addresses, first_digit, second_number}

-- The characters of the list stand from `p` on.
abbrev pub Chars : Bytes → Ptr → List ℕ → Type 0
Chars m p [] = Unit {0}
Chars m p (c ∷ cs) = (m p ≡ c) × Chars m (suc p) cs

-- No character is a digit or the terminator.
abbrev pub AllPlain : List ℕ → Type 0
AllPlain [] = Unit {0}
AllPlain (c ∷ cs) = (c ≢ 0) × (app_is_digit c ≡ false) × AllPlain cs

pub Chars-append :
    (m : Bytes) (p : Ptr) (xs ys : List ℕ)
    → Chars m p (xs ++ ys)
    → Chars m p xs × Chars m (p + length xs) ys
Chars-append m p [] ys c = (tt, subst (λ q. Chars m q ys) (omega arith) c)
Chars-append m p (x ∷ xs) ys c =
    let (a, b) = Chars-append m (suc p) xs ys c.1 in
    ((c.0, a), subst (λ q. Chars m q ys) (omega arith) b)

pub Chars-frame :
    (m m' : Bytes) (p : Ptr) (xs : List ℕ)
    → ((a : Ptr) → p ≤ a → a < p + length xs → m' a ≡ m a)
    → Chars m p xs
    → Chars m' p xs
Chars-frame m m' p [] same c = tt
Chars-frame m m' p (x ∷ xs) same c = (
  same p (omega arith) (omega arith) ∙ c.0,
  Chars-frame m m' (suc p) xs (λ a lo hi. same a (omega arith) (omega arith)) c.1,
)

pub Chars-Text :
    (m : Bytes) (p : Ptr) (xs : List ℕ) → Chars m p xs → m (p + length xs) ≡ 0 → Text m p xs
Chars-Text m p [] c e = subst (λ q. m q ≡ 0) (omega arith) e
Chars-Text m p (x ∷ xs) c e =
    (c.0, Chars-Text m (suc p) xs c.1 (subst (λ q. m q ≡ 0) (omega arith) e))

pub digit-is : (c : ℕ) → 48 ≤ c → c < 58 → app_is_digit c ≡ true
unfolding app_is_digit
digit-is c lo hi = ground arith

pub zero_no_digit : app_is_digit 0 ≡ true → ⊥
unfolding app_is_digit
zero_no_digit e = cc

to_digit-found :
    (fuel : ℕ) (m : Bytes) (p : Ptr) (xs : List ℕ)
    → Chars m p xs
    → AllPlain xs
    → app_is_digit (m (p + length xs)) ≡ true
    → length xs < fuel
    → to_digit fuel m p ≡ some (p + length xs)
unfolding to_digit
to_digit-found zero m p xs c a e f = absurd (omega arith)
to_digit-found (suc fuel) m p [] c a e f =
    let at : p + 0 ≡ p = omega arith in
    rw (subst (λ q. app_is_digit (m q) ≡ true) at e) (ap some (sym at))
to_digit-found (suc fuel) m p (x ∷ xs) c a e f =
    let at : p + suc (length xs) ≡ suc p + length xs = omega arith in
    rw (c.0, a.1, ne→== x 0 a.0)
      (to_digit-found fuel m (suc p) xs c.1 a.2 (subst (λ q. app_is_digit (m q) ≡ true) at e)
          (omega arith)
        ∙ ap some (sym at))

pub past_digits-found :
    (fuel : ℕ) (m : Bytes) (p : Ptr) (xs : List ℕ)
    → Chars m p xs
    → AllDigits xs
    → app_is_digit (m (p + length xs)) ≡ false
    → length xs < fuel
    → past_digits fuel m p ≡ some (p + length xs)
unfolding past_digits
past_digits-found zero m p xs c a e f = absurd (omega arith)
past_digits-found (suc fuel) m p [] c a e f =
    let at : p + 0 ≡ p = omega arith in
    rw (subst (λ q. app_is_digit (m q) ≡ false) at e) (ap some (sym at))
past_digits-found (suc fuel) m p (x ∷ xs) c a e f =
    let at : p + suc (length xs) ≡ suc p + length xs = omega arith in
    rw (c.0, digit-is x a.0 a.1)
      (past_digits-found fuel m (suc p) xs c.1 a.2 (subst (λ q. app_is_digit (m q) ≡ false) at e)
          (omega arith)
        ∙ ap some (sym at))

abbrev pub with_bytes : {W : Type 0} → User W → Bytes → User W
with_bytes u b = record u { memory = record u.memory { bytes = b } }

-- The bytes where the strings end at `stop` and `end`.
abbrev pub split_at : Bytes → Ptr → Ptr → Bytes
split_at m stop end = if m end == 0 then update m stop 0 else update (update m stop 0) end 0

module _ {W : Type 0} (serve : Call → Memory → W → ℕ × Memory × W) (fuel : ℕ) (at : Addresses)
    (u : User W) where
  abbrev m : Bytes
  m = u.memory.bytes

  pub first_digit-found :
      (pre : List ℕ)
      → Chars m at.args pre
      → AllPlain pre
      → app_is_digit (m (at.args + length pre)) ≡ true
      → length pre < fuel
      → first_digit serve fuel at u ≡ ok (at.args + length pre) u
  unfolding first_digit
  first_digit-found [] c a e f =
      let same : at.args + 0 ≡ at.args = omega arith in
      rw (subst (λ q. app_is_digit (m q) ≡ true) same e) (ap (λ q. ok q u) (sym same))
  first_digit-found (x ∷ xs) c a e f =
      let same : at.args + suc (length xs) ≡ suc at.args + length xs = omega arith in
      let e' = subst (λ q. app_is_digit (m q) ≡ true) same e in
      let ne : m (suc at.args + length xs) ≢ 0 =
        λ z. zero_no_digit (ap app_is_digit (sym z) ∙ e') in
      rw
        (
          c.0,
          a.1,
          to_digit-found fuel m (suc at.args) xs c.1 a.2 e' (omega arith),
          ne→== (m (suc at.args + length xs)) 0 ne,
        )
        (ap (λ q. ok q u) (sym same))

  module _ (stop : Ptr) (ss : List ℕ) (b : ℕ) (bs : List ℕ) where
    abbrev second : Ptr
    second = suc stop + length ss

    abbrev end : Ptr
    end = suc second + length bs

    abbrev cut : Bytes
    cut = update m stop 0

    pub second_number-found :
        Chars m (suc stop) ss
        → AllPlain ss
        → m second ≡ b
        → 48 ≤ b
        → b < 58
        → Chars m (suc second) bs
        → AllDigits bs
        → app_is_digit (m end) ≡ false
        → length ss < fuel
        → length bs < fuel
        → second_number serve fuel at stop u ≡ ok second (with_bytes u (split_at m stop end))
    unfolding second_number
    second_number-found c plain at_b lo hi c' digits ends f f' =
        let same = λ (a : Ptr) (above : stop < a).
          update_ne m stop 0 a (λ e. absurd (omega (arith, e, above))) in
        let head : cut second ≡ b = same second (omega arith) ∙ at_b in
        let tail : cut end ≡ m end = same end (omega arith) in
        let found =
          to_digit-found fuel cut (suc stop) ss
            (Chars-frame m cut (suc stop) ss (λ a l h. same a (omega arith)) c) plain
            (rw head (digit-is b lo hi)) f in
        let past =
          past_digits-found fuel cut (suc second) bs
            (Chars-frame m cut (suc second) bs (λ a l h. same a (omega arith)) c') digits
            (rw tail ends) f' in
        rw (found, ne→== (cut second) 0 (λ e. absurd (omega (arith, e, head, lo))), past, tail)
          (elim (Bool-cases (m end == 0)) [ inl z ↦ rw z refl | inr nz ↦ rw nz refl ])
