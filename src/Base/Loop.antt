-- ===== src/Base/Loop.antt =====
-- A `while` loop with fuel, and its rule for total correctness.
use rcopy.Base.Outcome.{Result, ok, stop, out_of_fuel, Returns}
use Prim.Native.Nat.{ℕ, zero, suc, ◌<◌}
use native.Mathlib.Omega.{arith}

-- What one round of a loop decides: to go on from a state, or to leave with one.
pub data Turn {ℓ} (A : Type ℓ) : Type ℓ where
  again : A → Turn A
  leave : A → Turn A

unfoldable pub loop {ℓ} : {A : Type ℓ} → (A → Result (Turn A)) → ℕ → A → Result A
loop body zero s = stop out_of_fuel
loop body (suc fuel) s = elim (body s) [
  | ok (again t) ↦ loop body fuel t
  | ok (leave t) ↦ ok t
  | stop e ↦ stop e
]

-- A round keeps the invariant and lowers the measure, or leaves with the postcondition.
abbrev pub TurnOk {ℓ} : {A : Type ℓ} → (A → ℕ) → (A → Type 0) → (A → Type 0) → ℕ → Turn A → Type 0
TurnOk measure Inv Post m (again t) = Inv t × (measure t < m)
TurnOk measure Inv Post m (leave t) = Post t

module _ {ℓ} {A : Type ℓ} (measure : A → ℕ) (Inv Post : A → Type 0) (body : A → Result (Turn A))
    (keep : (s : A) → Inv s → Returns (TurnOk measure Inv Post (measure s)) (body s)) where
  -- With fuel above the measure the loop returns, and its result satisfies the postcondition.
  pub loop_total : (fuel : ℕ) (s : A) → measure s < fuel → Inv s → Returns Post (loop body fuel s)
  unfolding loop
  loop_total zero s m h = absurd (omega arith)
  loop_total (suc fuel) s m h = go (body s) (keep s h) (loop_total fuel)
    where
      go :
          (r : Result (Turn A))
          → Returns (TurnOk measure Inv Post (measure s)) r
          → ((t : A) → measure t < fuel → Inv t → Returns Post (loop body fuel t))
          → Returns Post
              (elim r [ ok (again t) ↦ loop body fuel t | ok (leave t) ↦ ok t | stop e ↦ stop e ])
      go (ok (again t)) k ih = ih t (omega arith) k.0
      go (ok (leave t)) k ih = k
      go (stop e) k ih = elim k [ ]
