-- ===== src/Internet.antt =====
-- The checksum of the Internet protocols (RFC 1071) over bytes, low byte first: a routine that
-- does what the program asks of `in_cksum`.
use rcopy.Base.{ℕ, suc, ◌+◌, ◌-◌, ◌*◌, ◌/◌, ◌%◌, ◌^◌, ◌≤◌, ◌<◌, ◌≡◌, arith, List, [], ◌∷◌, length}
use rcopy.Checksum.{Checksum}

-- The sum of the 16-bit words; an odd byte at the end is a word of its own.
word_sum : List ℕ → ℕ
word_sum [] = 0
word_sum (a ∷ []) = a % 256
word_sum (a ∷ b ∷ rest) = a % 256 + 256 * (b % 256) + word_sum rest

-- The carries are added back twice, and the complement is taken.
fold_once : ℕ → ℕ
fold_once s = s / 2 ^ 16 + s % 2 ^ 16

complement : ℕ → ℕ
unfolding fold_once
complement s = 65535 - fold_once (fold_once s) % 2 ^ 16

unfoldable pub internet_sum : List ℕ → ℕ
unfolding word_sum complement
internet_sum p = complement (word_sum p)

word_sum-le : (p : List ℕ) → word_sum p ≤ 65535 * length p
unfolding word_sum
word_sum-le [] = omega arith
word_sum-le (a ∷ []) = omega arith
word_sum-le (a ∷ b ∷ rest) = omega (arith, word_sum-le rest)

-- Two folds take a multiple of 65535 to 65535, and any sum to its remainder by that number.
fold-multiple : (m : ℕ) → m < 4096 → fold_once (fold_once (65535 * suc m)) ≡ 65535
unfolding fold_once
fold-multiple m h =
    let q : 65535 * suc m / 2 ^ 16 ≡ m = omega arith in
    let r : 65535 * suc m % 2 ^ 16 ≡ 65535 - m = omega arith in
    let f : 65535 * suc m / 2 ^ 16 + 65535 * suc m % 2 ^ 16 ≡ 65535 = omega arith in rw f

fold_remainder :
    (s : ℕ)
    → s < 2 ^ 27
    → (m : ℕ) × (m < 4096)
      × (s ≡ 65535 * m + fold_once (fold_once s))
      × (fold_once (fold_once s) ≤ 65535)
unfolding fold_once
fold_remainder s h =
    let f : ℕ = s / 2 ^ 16 + s % 2 ^ 16 in
    (s / 2 ^ 16 + f / 2 ^ 16, omega arith, omega arith, omega arith)

-- Adding the complement to the sum that it was taken of leaves nothing.
complement_fills : (s : ℕ) → s < 2 ^ 27 → complement (s + complement s) ≡ 0
unfolding complement
complement_fills s h =
    let (m, small, e, top) = fold_remainder s h in
    let total : s + (65535 - fold_once (fold_once s) % 2 ^ 16) ≡ 65535 * suc m = omega arith in
    rw (total, fold-multiple m small)

pub internet_sum-lt : (p : List ℕ) → internet_sum p < 2 ^ 16
unfolding internet_sum
internet_sum-lt p = omega arith

-- A word put into the place of a zero word is added to the sum.
sum_with :
    (a b c d : ℕ) (rest : List ℕ) (k : ℕ)
    → k < 2 ^ 16
    → word_sum (a ∷ b ∷ c ∷ d ∷ k % 256 ∷ k / 2 ^ 8 % 256 ∷ rest)
      ≡ word_sum (a ∷ b ∷ c ∷ d ∷ 0 ∷ 0 ∷ rest) + k
unfolding word_sum
sum_with a b c d rest k h = omega arith

pub internet_verifies :
    (a b c d : ℕ) (rest : List ℕ)
    → length rest ≤ 1401
    → let sum = internet_sum (a ∷ b ∷ c ∷ d ∷ 0 ∷ 0 ∷ rest) in
      internet_sum (a ∷ b ∷ c ∷ d ∷ sum % 256 ∷ sum / 2 ^ 8 % 256 ∷ rest) ≡ 0
unfolding internet_sum
internet_verifies a b c d rest h =
    let s = word_sum (a ∷ b ∷ c ∷ d ∷ 0 ∷ 0 ∷ rest) in
    let same : word_sum (a ∷ b ∷ c ∷ d ∷ complement s % 256 ∷ complement s / 2 ^ 8 % 256 ∷ rest)
        ≡ s + complement s =
      sum_with a b c d rest (complement s) (internet_sum-lt (a ∷ b ∷ c ∷ d ∷ 0 ∷ 0 ∷ rest)) in
    rw same (complement_fills s (omega (arith, word_sum-le (a ∷ b ∷ c ∷ d ∷ 0 ∷ 0 ∷ rest))))

abbrev pub internet : Checksum
internet = record {
  in_cksum = internet_sum;
  in_cksum-lt = internet_sum-lt;
  verifies = internet_verifies;
}
