-- ===== src/Base/Index.antt =====
-- Numbers that lie less than `w` apart have different remainders by `w`.
use Prim.Native.Nat.{ℕ, ◌+◌, ◌*◌, ◌/◌, ◌%◌, ◌<◌, ◌≤◌}
use mathlib.Core.Logic.{◌≢◌}
use native.Mathlib.Decide.{dec_le}
use native.Mathlib.Nat.{div-add-mod}
use native.Mathlib.Omega.{arith}

mul_gap : (w q p : ℕ) → q < p → w * q + w ≤ w * p
mul_gap w q p h = grind arith

mul_mono : (w q p : ℕ) → p ≤ q → w * p ≤ w * q
mul_mono w q p h = grind arith

pub mod-ne : (w i j : ℕ) → i < j → j < i + w → i % w ≢ j % w
mod-ne w i j lt near e = elim (dec_le (j / w) (i / w)) [
  | yes h ↦ absurd (omega (arith, div-add-mod i w, div-add-mod j w, mul_mono w (i / w) (j / w) h))
  | no h ↦
      absurd
        (omega (arith, div-add-mod i w, div-add-mod j w, mul_gap w (i / w) (j / w) (omega arith)))
]

-- The same without the order of the two.
pub mod-ne_of_ne : (w i j : ℕ) → i ≢ j → j < i + w → i < j + w → i % w ≢ j % w
mod-ne_of_ne w i j ne near far e = elim (dec_le (i + 1) j) [
  | yes h ↦ mod-ne w i j (omega arith) near e
  | no h ↦ mod-ne w j i (omega arith) far (omega arith)
]
