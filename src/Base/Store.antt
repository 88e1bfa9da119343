-- ===== src/Base/Store.antt =====
-- Objects at addresses: a store maps each address to the object that lies there.
use Prim.Native.Nat.{ℕ}
use mathlib.Core.Path.{◌≡◌}
use mathlib.Core.Logic.{◌≢◌}
use native.Mathlib.Omega.{arith}
use microthread.Base.Tests.{◌==◌, if◌then◌else◌}

-- A write at address `p`.
abbrev pub update {ℓ} : {A : Type ℓ} → (ℕ → A) → ℕ → A → ℕ → A
update f p v q = if p == q then v else f q

module _ {ℓ} {A : Type ℓ} (f : ℕ → A) where
  pub update_self : (p : ℕ) (v : A) → update f p v p ≡ v
  update_self p v = ground arith

  pub update_ne : (p q : ℕ) (v : A) → p ≢ q → update f p v q ≡ f q
  update_ne p q v h = ground arith
