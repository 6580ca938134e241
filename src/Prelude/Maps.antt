-- ===== src/Prelude/Maps.antt =====
-- Typed memory: a map from addresses to structures.
use Prim.Native.Nat.{ℕ}
use mathlib.Core.Path.{◌≡◌, sym, subst, fun_ext}
use native.Mathlib.Decide.{ℕ_discrete}
use mathlib.Core.Logic.{◌≢◌}
use native.Mathlib.Omega.{arith}
use arcos_os.Prelude.Tests.{◌==◌, if◌then◌else◌}

module _ {ℓ} {A : Type ℓ} where
  unfoldable pub update : (ℕ → A) → ℕ → A → ℕ → A
  update f p v a = if a == p then v else f a

  pub update_self : (f : ℕ → A) (p : ℕ) (v : A) → update f p v p ≡ v
  unfolding update
  update_self f p v = ground arith

  pub update_ne : (f : ℕ → A) (p : ℕ) (v : A) (a : ℕ) → a ≢ p → update f p v a ≡ f a
  unfolding update
  update_ne f p v a h = ground arith

  -- What holds of the new entry and of each old one holds of the updated map.
  pub update_all {κ} :
      (P : ℕ → A → Type κ) (f : ℕ → A) (p : ℕ) (v : A)
      → P p v
      → ((a : ℕ) → a ≢ p → P a (f a))
      → (a : ℕ) → P a (update f p v a)
  update_all P f p v new old a = elim (ℕ_discrete a p) [
    | yes e ↦ subst (λ k. P k (update f p v k)) (sym e) (rw (update_self f p v) new)
    | no ne ↦ rw (update_ne f p v a ne) (old a ne)
  ]

  pub update_same : (f : ℕ → A) (p : ℕ) (v : A) → v ≡ f p → update f p v ≡ f
  unfolding update
  update_same f p v e = fun_ext λ a. ground arith

  pub update_twice : (f : ℕ → A) (p : ℕ) (v w : A) → update (update f p v) p w ≡ update f p w
  unfolding update
  update_twice f p v w = fun_ext λ a. ground arith
