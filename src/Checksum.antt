-- ===== src/Checksum.antt =====
-- What the program takes from the checksum routine `in_cksum` of the CPE464 library.
use rcopy.Base.{ℕ, ◌/◌, ◌%◌, ◌^◌, ◌≤◌, ◌<◌, ◌≡◌, List, ◌∷◌, length}

-- `in_cksum` yields a 16-bit value. Over a packet of at most 1407 bytes whose fifth and sixth
-- byte hold, low byte first, the checksum that the packet has with zeros there, it yields 0.
pub record Checksum : Type 0 where
  pub in_cksum : List ℕ → ℕ
  pub in_cksum-lt : (p : List ℕ) → in_cksum p < 2 ^ 16
  pub verifies :
      (a b c d : ℕ) (rest : List ℕ)
      → length rest ≤ 1401
      → let sum = in_cksum (a ∷ b ∷ c ∷ d ∷ 0 ∷ 0 ∷ rest) in
        in_cksum (a ∷ b ∷ c ∷ d ∷ sum % 256 ∷ sum / 2 ^ 8 % 256 ∷ rest) ≡ 0
