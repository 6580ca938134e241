-- ===== src/Rtl/Compare.antt =====
-- base/rtl/string.c: RtlCompareStrings on strings seen as lists of characters.
use arcos_os.Prelude.{
  ℕ, zero, suc, ◌<◌, ◌≡◌, refl, sym, ap, ◌∙◌, inl, inr, false, some, List, [], ◌∷◌, ◌++◌, length,
  ◌==◌, ltb, if◌then◌else◌, arith, Bool-cases, eq→==, ne→==, ==→eq, lt→ltb, ◌↔◌,
}
use arcos_os.Types.{Ptr}
use arcos_os.Rtl.Memory.{Bytes}
use arcos_os.Rtl.Text.{Text, IsString}
use arcos_os.Rtl.Strings.{Comparison, below, same, above, compare_bytes, compare_strings}

-- How the characters `ss` of `src` compare to the characters `ds` of `dest`.
abbrev pub order_of : List ℕ → List ℕ → Comparison
order_of ss [] = same
order_of [] (d ∷ ds) = below
order_of (s ∷ ss) (d ∷ ds) = if s == d then order_of ss ds else compare_bytes s d

pub compare_strings-order :
    (fuel : ℕ) (m : Bytes) (src dest : Ptr) (ss ds : List ℕ)
    → Text m src ss
    → Text m dest ds
    → IsString ss
    → IsString ds
    → length ds < fuel
    → compare_strings fuel m src dest ≡ some (order_of ss ds)
unfolding compare_strings
compare_strings-order zero m src dest ss ds t u i j f = absurd (omega arith)
compare_strings-order (suc fuel) m src dest ss [] t u i j f = rw u
compare_strings-order (suc fuel) m src dest [] (d ∷ ds) t u i j f =
    rw (t, u.0, ne→== d 0 j.0, ne→== 0 d (λ e. j.0 (sym e)), lt→ltb 0 d (ground (arith, j.0)))
compare_strings-order (suc fuel) m src dest (s ∷ ss) (d ∷ ds) t u i j f =
    rw (t.0, u.0, ne→== d 0 j.0)
      (elim (Bool-cases (s == d)) [
        | inl hit ↦
            rw hit (
              compare_strings-order fuel m (suc src) (suc dest) ss ds t.1 u.1 i.1 j.1 (omega arith))
        | inr miss ↦ rw miss
      ])

compare_bytes-ne : (a b : ℕ) → (a == b) ≡ false → compare_bytes a b ≡ same → ⊥
compare_bytes-ne a b ne e = elim (Bool-cases (ltb a b)) [
  | inl lt ↦ below_same (rw (ne, lt) at e)
  | inr ge ↦ above_same (rw (ne, ge) at e)
]
  where
    below_same : below ≡ same → ⊥
    below_same e = cc

    above_same : above ≡ same → ⊥
    above_same e = cc

order_of-prefix : (ss ds : List ℕ) → order_of ss ds ≡ same → (rest : List ℕ) × (ss ≡ ds ++ rest)
order_of-prefix ss [] e = (ss, refl)
order_of-prefix [] (d ∷ ds) e = cc
order_of-prefix (s ∷ ss) (d ∷ ds) e = elim (Bool-cases (s == d)) [
  | inl hit ↦ let (rest, r) = order_of-prefix ss ds (rw hit at e) in (rest, rw (==→eq s d hit, r))
  | inr miss ↦
      let differ : order_of (s ∷ ss) (d ∷ ds) ≡ compare_bytes s d = rw miss in
      absurd (compare_bytes-ne s d miss (sym differ ∙ e))
]

order_of-append : (ds rest : List ℕ) → order_of (ds ++ rest) ds ≡ same
order_of-append [] rest = refl
order_of-append (d ∷ ds) rest = rw (eq→== d d refl) (order_of-append ds rest)

some_eq : {a b : Comparison} → some a ≡ some b → a ≡ b
some_eq e = cc

-- RtlCompareStrings returns 0 exactly when the second string is a prefix of the first one, be they
-- equal or not; it needs one round more than the second string has characters.
pub compare_strings-prefix :
    (fuel : ℕ) (m : Bytes) (src dest : Ptr) (ss ds : List ℕ)
    → Text m src ss
    → Text m dest ds
    → IsString ss
    → IsString ds
    → length ds < fuel
    → (compare_strings fuel m src dest ≡ some same) ↔ ((rest : List ℕ) × (ss ≡ ds ++ rest))
compare_strings-prefix fuel m src dest ss ds t u i j f =
    let run = compare_strings-order fuel m src dest ss ds t u i j f in
    (
      (λ e. order_of-prefix ss ds (some_eq (sym run ∙ e))),
      (λ (rest, e). run ∙ ap (λ xs. some (order_of xs ds)) e ∙ ap some (order_of-append ds rest)),
    )
