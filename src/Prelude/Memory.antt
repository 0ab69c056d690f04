-- ===== src/Prelude/Memory.antt =====
-- Memory areas and tables as functions from an index, with updates at one index.
use Prim.Native.Nat.{ℕ}
use mathlib.Core.Path.{◌≡◌}
use mathlib.Core.Logic.{◌≢◌}
use native.Mathlib.Omega.{arith}
use ece344_os.Prelude.Tests.{◌==◌, if◌then◌else◌}

module _ {ℓ} {A : Type ℓ} where
  abbrev pub upd : (ℕ → A) → ℕ → A → ℕ → A
  upd f i x j = if j == i then x else f j

  pub upd_self : (f : ℕ → A) (i : ℕ) (x : A) → upd f i x i ≡ x
  upd_self f i x = ground arith

  pub upd_ne : (f : ℕ → A) (i j : ℕ) (x : A) → j ≢ i → upd f i x j ≡ f j
  upd_ne f i j x h = ground arith
