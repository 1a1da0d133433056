-- ===== src/Base/Outcome.antt =====
-- Where a run of the C code ends without a value, and computations that may end so.
use mathlib.Core.Path.{◌≡◌, refl}
use mathlib.Core.Bool.{Bool, true, false}
use mathlib.Core.Option.{Option, none, some}

-- `exit_failure` is a call of `exit`. The others are undefined behaviour of C, each by its cause,
-- but for `out_of_fuel`, a bound of the model.
pub data Stop : Type 0 where
  exit_failure div_by_zero out_of_bounds uninitialised bad_length out_of_fuel : Stop

pub data Result {ℓ} (A : Type ℓ) : Type ℓ where
  ok : A → Result A
  stop : Stop → Result A

infixl 5 ◌>>=◌ ◌>>◌
abbrev pub ◌>>=◌ {ℓ κ} : {A : Type ℓ} {B : Type κ} → Result A → (A → Result B) → Result B
ok a >>= f = f a
stop e >>= f = stop e

abbrev pub ◌>>◌ {ℓ} : {B : Type ℓ} → Result (Unit {0}) → Result B → Result B
m >> k = m >>= λ _. k

abbrev pub guard : Bool → Stop → Result (Unit {0})
guard true e = ok tt
guard false e = stop e

abbrev pub present {ℓ} : {A : Type ℓ} → Stop → Option A → Result A
present e none = stop e
present e (some a) = ok a

-- The computation ends with a value, and the value satisfies `P`.
abbrev pub Returns {ℓ} : {A : Type ℓ} → (A → Type 0) → Result A → Type 0
Returns P (ok a) = P a
Returns P (stop e) = ⊥

pub bind_assoc {ℓ κ ι} :
    {A : Type ℓ} {B : Type κ} {C : Type ι} (m : Result A) (f : A → Result C) (g : A → Result B)
    (h : B → Result C)
    → ((a : A) → f a ≡ (g a >>= h))
    → (m >>= f) ≡ ((m >>= g) >>= h)
bind_assoc (ok a) f g h e = e a
bind_assoc (stop x) f g h e = refl

-- After the first part has returned, the second is run on its value.
pub Returns-bind {ℓ κ} :
    {A : Type ℓ} {B : Type κ} (P : A → Type 0) (Q : B → Type 0) (m : Result A) (f : A → Result B)
    → Returns P m
    → ((a : A) → P a → Returns Q (f a))
    → Returns Q (m >>= f)
Returns-bind P Q (ok a) f h k = k a h
Returns-bind P Q (stop e) f h k = elim h [ ]

pub Returns-weaken {ℓ} :
    {A : Type ℓ} (P Q : A → Type 0) (m : Result A)
    → Returns P m
    → ((a : A) → P a → Q a)
    → Returns Q m
Returns-weaken P Q (ok a) h k = k a h
Returns-weaken P Q (stop e) h k = elim h [ ]

pub Returns-eq {ℓ} :
    {A : Type ℓ} (P : A → Type 0) (m : Result A) → Returns P m → (a : A) × (m ≡ ok a) × P a
Returns-eq P (ok a) h = (a, refl, h)
Returns-eq P (stop e) h = elim h [ ]

pub ok-inj {ℓ} : {A : Type ℓ} (a b : A) → ok a ≡ ok b → a ≡ b
ok-inj a b e = cc
