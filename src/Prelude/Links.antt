-- ===== src/Prelude/Links.antt =====
-- Linked lists as the addresses that a chain of links runs through.
use Prim.Native.Nat.{ℕ}
use mathlib.Core.Path.{◌≡◌, refl}
use mathlib.Core.Logic.{◌≢◌, inl, inr}
use mathlib.Core.Bool.{true, false}
use mathlib.Core.List.{List, [], ◌∷◌, ◌++◌}
use native.Mathlib.Omega.{arith}
use arcos_os.Prelude.Tests.{◌==◌, Bool-cases}
use arcos_os.Prelude.Lists.{has, last_from, has-append, has-last_from}

-- From `p` the links lead through the entries `xs`, none of them NULL, to `q`.
abbrev pub Links : (ℕ → ℕ) → ℕ → List ℕ → ℕ → Type 0
Links f p [] q = p ≡ q
Links f p (x ∷ xs) q = (p ≡ x) × (x ≢ 0) × Links f (f x) xs q

abbrev pub Distinct : List ℕ → Type 0
Distinct [] = Unit
Distinct (x ∷ xs) = (has x xs ≡ false) × Distinct xs

module _ (f f' : ℕ → ℕ) where
  pub Links-frame :
      (p q : ℕ) (xs : List ℕ)
      → Links f p xs q
      → ((a : ℕ) → has a xs ≡ true → f' a ≡ f a)
      → Links f' p xs q
  Links-frame p q [] c same = c
  Links-frame p q (x ∷ xs) c same = (
    c.0,
    c.1,
    rw (same x (ground arith)) (Links-frame (f x) q xs c.2 (λ a h. same a (ground arith))),
  )

  -- The last entry of `x ∷ xs` is linked to what follows with another start.
  pub Links-relink :
      (p x q r : ℕ) (xs ys zs : List ℕ)
      → Links f p (x ∷ (xs ++ ys)) q
      → Distinct (x ∷ (xs ++ ys))
      → ((a : ℕ) → has a (x ∷ xs) ≡ true → a ≢ last_from x xs → f' a ≡ f a)
      → Links f' (f' (last_from x xs)) zs r
      → Links f' p (x ∷ (xs ++ zs)) r
  Links-relink p x q r [] ys zs c d same tail = (c.0, c.1, tail)
  Links-relink p x q r (y ∷ xs) ys zs c d same tail =
      let ih = Links-relink (f x) y q r xs ys zs c.2 d.1 (λ a h. same a (ground arith)) tail in
      let apart : x ≢ last_from y xs =
        λ e. ground (arith, d.0, has-append x (y ∷ xs) ys, has-last_from y xs) in
      (c.0, c.1, rw (same x (ground arith) apart) ih)

pub Links-at :
    (f : ℕ → ℕ) (p x q : ℕ) (xs ys : List ℕ)
    → Links f p (x ∷ (xs ++ ys)) q
    → Links f (f (last_from x xs)) ys q
Links-at f p x q [] ys c = c.2
Links-at f p x q (y ∷ xs) ys c = Links-at f (f x) y q xs ys c.2

pub Links-ne : (f : ℕ → ℕ) (p q a : ℕ) (xs : List ℕ) → Links f p xs q → has a xs ≡ true → a ≢ 0
Links-ne f p q a [] c h e = cc
Links-ne f p q a (x ∷ xs) c h e = elim (Bool-cases (a == x)) [
  | inl hit ↦ c.1 (ground arith)
  | inr miss ↦ Links-ne f (f x) q a xs c.2 (ground arith) e
]

pub Distinct-end :
    (a : ℕ) (xs ys : List ℕ) → Distinct (xs ++ ys) → has a xs ≡ false → Distinct (xs ++ a ∷ [])
Distinct-end a [] ys d out = (refl, tt)
Distinct-end a (x ∷ xs) ys d out = (
  ground (arith, has-append x xs ys, has-append x xs (a ∷ []), d.0),
  Distinct-end a xs ys d.1 (ground arith),
)

pub Distinct-drop : (a : ℕ) (xs ys : List ℕ) → Distinct (xs ++ a ∷ ys) → Distinct (xs ++ ys)
Distinct-drop a [] ys d = d.1
Distinct-drop a (x ∷ xs) ys d =
    (ground (arith, has-append x xs (a ∷ ys), has-append x xs ys, d.0), Distinct-drop a xs ys d.1)

pub Distinct-out :
    (a : ℕ) (xs ys : List ℕ) → Distinct (xs ++ a ∷ ys) → (has a xs ≡ false) × (has a ys ≡ false)
Distinct-out a [] ys d = (refl, d.0)
Distinct-out a (x ∷ xs) ys d =
    let ih = Distinct-out a xs ys d.1 in (ground (arith, has-append x xs (a ∷ ys), d.0, ih.0), ih.1)

pub Distinct-apart :
    (a : ℕ) (xs ys : List ℕ) → Distinct (xs ++ ys) → has a xs ≡ true → has a ys ≡ false
Distinct-apart a [] ys d h = cc
Distinct-apart a (x ∷ xs) ys d h = elim (Bool-cases (a == x)) [
  | inl hit ↦ ground (arith, has-append x xs ys, d.0)
  | inr miss ↦ Distinct-apart a xs ys d.1 (ground arith)
]

pub last_from-behind : (x y : ℕ) (xs ys : List ℕ) → last_from x (xs ++ y ∷ ys) ≡ last_from y ys
last_from-behind x y [] ys = refl
last_from-behind x y (z ∷ xs) ys = last_from-behind z y xs ys

pub Distinct-behind :
    (xs ys : List ℕ) (a : ℕ) → Distinct (xs ++ ys) → has a ys ≡ true → has a xs ≡ false
Distinct-behind [] ys a d h = refl
Distinct-behind (x ∷ xs) ys a d h =
    ground (arith, d.0, has-append x xs ys, Distinct-behind xs ys a d.1)
