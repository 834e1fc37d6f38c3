-- ===== src/Common/Update.antt =====
-- A function changed at one number: the memory of the program, by address.
use lockfree_stm.Common.Tests.{◌==◌, if◌then◌else◌}
use Prim.Native.Nat.{ℕ}
use mathlib.Core.Path.{◌≡◌, fun_ext}
use mathlib.Core.Logic.{◌≢◌}
use native.Mathlib.Omega.{arith}

module _ {ℓ} {A : Type ℓ} where
  unfoldable pub update : (ℕ → A) → ℕ → A → ℕ → A
  update f p a q = if p == q then a else f q

  pub update_self : (f : ℕ → A) (p : ℕ) (a : A) → update f p a p ≡ a
  unfolding update
  update_self f p a = ground arith

  pub update_ne : (f : ℕ → A) (p q : ℕ) (a : A) → p ≢ q → update f p a q ≡ f q
  unfolding update
  update_ne f p q a h = ground arith

  pub update-update : (f : ℕ → A) (p : ℕ) (a b : A) → update (update f p a) p b ≡ update f p b
  unfolding update
  update-update f p a b = fun_ext λ q. ground arith

  pub update_comm :
      (f : ℕ → A) (p q : ℕ) (a b : A)
      → p ≢ q
      → update (update f p a) q b ≡ update (update f q b) p a
  unfolding update
  update_comm f p q a b h = fun_ext λ r. ground arith

  pub update_same : (f : ℕ → A) (p : ℕ) (a : A) → f p ≡ a → update f p a ≡ f
  unfolding update
  update_same f p a e = fun_ext λ q. ground arith
