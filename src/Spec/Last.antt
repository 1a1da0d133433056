-- ===== src/Spec/Last.antt =====
-- Where the transfer of a file ends. What is left behind its full chunks goes out as a data packet
-- when it is read into the first window, and otherwise with the packet that ends the file.
use rcopy.Base.{ℕ, zero, suc, ◌+◌, ◌*◌, ◌≤◌, ◌<◌, ◌≡◌, arith, List, length, dec_le, dec_lt}

pub record EndsAt (window size : ℕ) (bytes : List ℕ) (top : ℕ) : Type 0 where
  pub before : (k : ℕ) → k < top → k * size < length bytes
  pub past : length bytes < top * size + size
  pub early : top < window → length bytes ≤ top * size
  pub late : window < top → top * size ≤ length bytes

mul_le : (size m n : ℕ) → m ≤ n → m * size ≤ n * size
mul_le size m n le = grind arith

mul_suc : (size m : ℕ) → (m + 1) * size ≡ m * size + size
mul_suc size m = grind arith

-- A file of whole chunks ends behind them.
pub whole-EndsAt :
    (window size : ℕ) (bytes : List ℕ) (count : ℕ)
    → 0 < size
    → length bytes ≡ count * size
    → EndsAt window size bytes count
whole-EndsAt window size bytes count pos whole = record {
  before = λ k lt. omega (arith, mul_le size (k + 1) count (omega arith), mul_suc size k);
  past = omega arith;
  early = λ h. omega arith;
  late = λ h. omega arith;
}

module _ {window size : ℕ} {bytes : List ℕ} {top : ℕ} (at : EndsAt window size bytes top) where
  -- Data sent from the first window.
  pub early_data : (k : ℕ) → k < window → k * size < length bytes → k < top
  early_data k first inside = elim (dec_le top k) [
    | no lt ↦ omega arith
    | yes le ↦ absurd (omega (arith, at.early (omega arith), mul_le size top k le))
  ]

  -- A full chunk.
  pub full_data : (k : ℕ) → k * size + size ≤ length bytes → k < top
  full_data k full = elim (dec_le top k) [
    | no lt ↦ omega arith
    | yes le ↦ absurd (omega (arith, at.past, mul_le size top k le))
  ]

  -- The end that is sent with the first window.
  pub early_end :
      (k : ℕ)
      → k ≤ window
      → length bytes ≤ k * size
      → ((j : ℕ) → j < k → j * size < length bytes)
      → k ≡ top
  early_end k first over inside = elim (dec_le top k) [
    | no lt ↦ absurd (omega (arith, at.before k (omega arith)))
    | yes le ↦ elim (dec_le k top) [
      | yes ge ↦ omega arith
      | no gt ↦ absurd (omega (arith, at.early (omega arith), inside top (omega arith)))
    ]
  ]

  -- The end that is sent later.
  pub late_end :
      (k : ℕ) → window ≤ k → k * size ≤ length bytes → length bytes < k * size + size → k ≡ top
  late_end k later full short = elim (dec_le top k) [
    | no lt ↦ absurd (
        omega (arith, at.late (omega arith), mul_le size (k + 1) top (omega arith), mul_suc size k))
    | yes le ↦ elim (dec_le k top) [
      | yes ge ↦ omega arith
      | no gt ↦
          absurd (omega (arith, at.past, mul_le size (top + 1) k (omega arith), mul_suc size top))
    ]
  ]

-- The number of full chunks.
full_chunks : (size : ℕ) → 0 < size → (n : ℕ) → (k : ℕ) × (k * size ≤ n) × (n < k * size + size)
full_chunks size pos zero = (0, omega arith, omega arith)
full_chunks size pos (suc n) =
    let (k, low, high) = full_chunks size pos n in
    elim (dec_lt (suc n) (k * size + size)) [
      | yes within ↦ (k, omega arith, within)
      | no past ↦ (k + 1, omega (arith, mul_suc size k), omega (arith, mul_suc size k, pos))
    ]

-- The transfer of every file ends at some number.
pub EndsAt-exists :
    (window size : ℕ) (bytes : List ℕ) → 0 < size → (top : ℕ) × EndsAt window size bytes top
EndsAt-exists window size bytes pos =
    let (k, low, high) = full_chunks size pos (length bytes) in
    elim (dec_le (length bytes) (k * size)) [
      | yes exact ↦ (k, whole-EndsAt window size bytes k pos (omega arith))
      | no more ↦ elim (dec_lt k window) [
        | yes early ↦ (
          k + 1,
          record {
            before = λ j lt. omega (arith, mul_le size j k (omega arith));
            past = omega (arith, mul_suc size k);
            early = λ h. omega (arith, mul_suc size k);
            late = λ h. absurd (omega arith);
          },
        )
        | no late ↦ (
          k,
          record {
            before = λ j lt. omega (arith, mul_le size j k (omega arith));
            past = high;
            early = λ h. absurd (omega arith);
            late = λ h. low;
          },
        )
      ]
    ]
