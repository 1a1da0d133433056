-- ===== src/Base/Text.antt =====
-- C strings.
use mathlib.Core.Path.{◌≡◌, refl, ap}
use mathlib.Core.Bool.{Bool, true, false}
use mathlib.Core.List.{List, [], ◌∷◌}
use Prim.Native.Nat.{ℕ}
use rcopy.Base.Tests.{◌==◌, if◌then◌else◌}
use rcopy.Base.Every.{All}

-- The bytes of an array that a string function sees: those before the first zero.
abbrev pub c_string : List ℕ → List ℕ
c_string [] = []
c_string (b ∷ bs) = let rest = c_string bs in if b == 0 then [] else (b ∷ rest)

-- `strcmp(a, b) == 0` on strings without their terminators.
abbrev pub same_text : List ℕ → List ℕ → Bool
same_text [] [] = true
same_text [] (b ∷ bs) = false
same_text (a ∷ xs) [] = false
same_text (a ∷ xs) (b ∷ bs) = let rest = same_text xs bs in if a == b then rest else false

-- A string has no zero byte.
abbrev pub IsText : List ℕ → Type 0
IsText bs = All (λ b. (b == 0) ≡ false) bs

pub c_string-IsText : (bs : List ℕ) → IsText bs → c_string bs ≡ bs
c_string-IsText [] h = refl
c_string-IsText (b ∷ bs) (h, hs) = rw h (ap (λ l. b ∷ l) (c_string-IsText bs hs))
