-- ===== src/Prelude/Lists.antt =====
-- Lists measured by native numbers, and lists of addresses: membership, removal, the last entry.
use Prim.Native.Nat.{ℕ, suc, ◌+◌, ◌≤◌}
use mathlib.Core.Path.{◌≡◌, refl}
use mathlib.Core.Logic.{◌≢◌, ◌⊎◌, inl, inr}
use mathlib.Core.Bool.{Bool, true, false, ◌||◌}
use mathlib.Core.List.{List, [], ◌∷◌, ◌++◌}
use native.Mathlib.Omega.{arith}
use arcos_os.Prelude.Tests.{◌==◌, if◌then◌else◌}

module _ {ℓ} {A : Type ℓ} where
  abbrev pub length : List A → ℕ
  length [] = 0
  length (_ ∷ xs) = suc (length xs)

  pub length-append : (xs ys : List A) → length (xs ++ ys) ≡ length xs + length ys
  length-append [] ys = omega arith
  length-append (x ∷ xs) ys = omega (arith, length-append xs ys)

pub List-cases {ℓ} :
    {A : Type ℓ} (xs : List A) → (xs ≡ []) ⊎ ((x : A) × (ys : List A) × (xs ≡ x ∷ ys))
List-cases [] = inl refl
List-cases (x ∷ xs) = inr (x, xs, refl)

abbrev pub has : ℕ → List ℕ → Bool
has a [] = false
has a (x ∷ xs) = (a == x) || has a xs

-- The list less the first entry that is `a`.
abbrev pub erase : ℕ → List ℕ → List ℕ
erase a [] = []
erase a (x ∷ xs) = if x == a then xs else x ∷ erase a xs

-- The last entry of `x ∷ xs`.
abbrev pub last_from : ℕ → List ℕ → ℕ
last_from x [] = x
last_from x (y ∷ ys) = last_from y ys

pub has-append : (a : ℕ) (xs ys : List ℕ) → has a (xs ++ ys) ≡ (has a xs || has a ys)
has-append a [] ys = refl
has-append a (x ∷ xs) ys = ground (arith, has-append a xs ys)

pub has-last_from : (x : ℕ) (xs : List ℕ) → has (last_from x xs) (x ∷ xs) ≡ true
has-last_from x [] = ground arith
has-last_from x (y ∷ ys) = ground (arith, has-last_from y ys)

pub last_from-append : (x y : ℕ) (xs : List ℕ) → last_from x (xs ++ y ∷ []) ≡ y
last_from-append x y [] = refl
last_from-append x y (z ∷ zs) = last_from-append z y zs

pub has-erase : (a b : ℕ) (xs : List ℕ) → has a xs ≡ false → has a (erase b xs) ≡ false
has-erase a b [] h = refl
has-erase a b (x ∷ xs) h = ground (arith, has-erase a b xs)

pub has-erase_ne : (a b : ℕ) (xs : List ℕ) → a ≢ b → has a (erase b xs) ≡ has a xs
has-erase_ne a b [] h = refl
has-erase_ne a b (x ∷ xs) h = ground (arith, has-erase_ne a b xs)

pub length-erase-le : (b : ℕ) (xs : List ℕ) → length (erase b xs) ≤ length xs
length-erase-le b [] = omega arith
length-erase-le b (x ∷ xs) = ground (arith, length-erase-le b xs)

pub last_from_of_append : (x y : ℕ) (xs zs : List ℕ) → xs ++ y ∷ [] ≡ x ∷ zs → last_from x zs ≡ y
last_from_of_append x y [] [] e = ground arith
last_from_of_append x y [] (z ∷ zs) e = cc
last_from_of_append x y (w ∷ ws) zs e =
    let e' : zs ≡ ws ++ y ∷ [] = cc in rw e' (last_from-append x y ws)

pub has-of_erase : (a b : ℕ) (xs : List ℕ) → has a (erase b xs) ≡ true → has a xs ≡ true
has-of_erase a b [] h = h
has-of_erase a b (x ∷ xs) h = ground (arith, has-of_erase a b xs)
