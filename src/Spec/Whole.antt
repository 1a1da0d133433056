-- ===== src/Spec/Whole.antt =====
-- A file of a whole number of full chunks.
use rcopy.Base.{
  ℕ, suc, ◌+◌, ◌*◌, ◌≤◌, ◌<◌, ◌≡◌, refl, arith, List, [], ◌∷◌, length, drop, length-drop, dec_le,
}

pub nil_of_length : (xs : List ℕ) → length xs ≡ 0 → xs ≡ []
nil_of_length [] e = refl
nil_of_length (x ∷ xs) e = absurd (omega arith)

pub lt_of_mul : (size n m : ℕ) → n * size < m * size → n < m
lt_of_mul size n m h = elim (dec_le m n) [
  | yes le ↦ let e : m * size ≤ n * size = grind arith in absurd (omega arith)
  | no lt ↦ omega arith
]

module _ (size : ℕ) (bytes : List ℕ) (count : ℕ) (whole : length bytes ≡ count * size) where
  pub full_chunk : (k : ℕ) → k < count → size ≤ length (drop (k * size) bytes)
  full_chunk k lt =
      let e : suc k * size ≤ count * size = grind arith in
      let f : suc k * size ≡ k * size + size = grind arith in
      omega (arith, length-drop (k * size) bytes)

  -- Where less than a chunk is left, all chunks of the file lie before.
  pub past_end : (k : ℕ) → length (drop (k * size) bytes) < size → count ≤ k
  past_end k short = elim (dec_le count k) [
    | yes le ↦ le
    | no lt ↦ absurd (omega (arith, full_chunk k (omega arith)))
  ]

  -- Where the file ends nothing is left.
  pub nothing_left : drop (count * size) bytes ≡ []
  nothing_left = nil_of_length _ (omega (arith, length-drop (count * size) bytes))
