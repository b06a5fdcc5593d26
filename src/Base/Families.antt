-- ===== src/Base/Families.antt =====
-- Families indexed by numbers: one place changed, a sum over the first ones, and occurrences in a list.
use Prim.Native.Nat.{ℕ, zero, suc, ◌+◌, ◌<◌, ◌≤◌}
use mathlib.Core.Path.{◌≡◌, refl}
use mathlib.Core.Logic.{◌≢◌}
use mathlib.Core.List.{List, [], ◌∷◌, ◌++◌}
use native.Mathlib.Decide.{dec_lt}
use native.Mathlib.Omega.{arith}
use node_ffi.Base.Tests.{◌==◌, if◌then◌else◌}

module _ {ℓ} {A : Type ℓ} where
  abbrev pub set_at : ℕ → A → (ℕ → A) → ℕ → A
  set_at i a f j = if i == j then a else f j

  pub set_at_self : (i : ℕ) (a : A) (f : ℕ → A) → set_at i a f i ≡ a
  set_at_self i a f = ground arith

  pub set_at_other : (i j : ℕ) (a : A) (f : ℕ → A) → i ≢ j → set_at i a f j ≡ f j
  set_at_other i j a f h = ground arith

  -- `f 0 + ... + f (n - 1)`, each measured
  abbrev pub total : (A → ℕ) → ℕ → (ℕ → A) → ℕ
  total w zero f = 0
  total w (suc n) f = total w n f + w (f n)

  pub total-beyond :
      (w : A → ℕ) (n i : ℕ) (a : A) (f : ℕ → A) → n ≤ i → total w n (set_at i a f) ≡ total w n f
  total-beyond w zero i a f h = refl
  total-beyond w (suc n) i a f h = ground (arith, total-beyond w n i a f (omega arith))

  pub total-set_at :
      (w : A → ℕ) (n i : ℕ) (a : A) (f : ℕ → A)
      → i < n
      → total w n (set_at i a f) + w (f i) ≡ total w n f + w a
  total-set_at w zero i a f h = omega arith
  total-set_at w (suc n) i a f h = ground (arith, total-set_at w n i a f, total-beyond w n i a f)

  pub total-set_at_le :
      (w : A → ℕ) (n i : ℕ) (a : A) (f : ℕ → A)
      → w a ≤ w (f i)
      → total w n (set_at i a f) ≤ total w n f
  total-set_at_le w n i a f h = elim (dec_lt i n) [
    | yes l ↦ omega (arith, total-set_at w n i a f l)
    | no l ↦ omega (arith, total-beyond w n i a f (omega arith))
  ]

-- How often a number is in a list.
abbrev pub count : ℕ → List ℕ → ℕ
count i [] = 0
count i (x ∷ xs) = (if x == i then 1 else 0) + count i xs

pub count-append : (i : ℕ) (xs ys : List ℕ) → count i (xs ++ ys) ≡ count i xs + count i ys
count-append i [] ys = omega arith
count-append i (x ∷ xs) ys = omega (arith, count-append i xs ys)
