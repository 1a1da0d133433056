-- ===== src/Spec.antt =====
-- What a transfer is for: the file cut into chunks of the buffer size, and the sizes for which the
-- code is meant.
pub mod Last
pub mod Whole
use rcopy.Base.{
  ℕ, zero, suc, ◌+◌, ◌*◌, ◌^◌, ◌≤◌, ◌<◌, ◌≡◌, arith, List, [], ◌++◌, length, take, drop,
  take-append-drop, drop-drop, append_assoc, length-take, ap, ◌∙◌,
}

-- Chunk `k` of the file: `size` bytes, fewer at its end, none past it.
abbrev pub chunk : ℕ → List ℕ → ℕ → List ℕ
chunk size bytes k = take size (drop (k * size) bytes)

-- The chunks before `n`, joined.
unfoldable pub chunks_until : ℕ → List ℕ → ℕ → List ℕ
chunks_until size bytes zero = []
chunks_until size bytes (suc n) = chunks_until size bytes n ++ chunk size bytes n

-- A window and a buffer size with which no operation of the code is undefined.
pub record IsConfig (window size : ℕ) : Type 0 where
  pub window_pos : 0 < window
  pub window_max : window < 2 ^ 31
  pub size_pos : 0 < size
  pub size_max : size ≤ 1400

pub window_fits : {window size : ℕ} → IsConfig window size → 0 + window < 2 ^ 32
window_fits c = omega (arith, c.window_max)

-- The chunks before `n` and the rest make up the file.
pub chunks_until-append-drop :
    (size : ℕ) (bytes : List ℕ) (n : ℕ) → chunks_until size bytes n ++ drop (n * size) bytes ≡ bytes
unfolding chunks_until
chunks_until-append-drop size bytes zero = let e : 0 * size ≡ 0 = omega arith in rw e
chunks_until-append-drop size bytes (suc n) =
    append_assoc (chunks_until size bytes n) (chunk size bytes n) (drop (suc n * size) bytes)
    ∙ ap (λ r. chunks_until size bytes n ++ r) rest
    ∙ chunks_until-append-drop size bytes n
  where
    next : suc n * size ≡ n * size + size
    next = grind arith

    rest : chunk size bytes n ++ drop (suc n * size) bytes ≡ drop (n * size) bytes
    rest =
        rw (next, ← drop-drop size (n * size) bytes) (take-append-drop size (drop (n * size) bytes))

-- A chunk is full unless the file ends before it does.
pub length-chunk :
    (size : ℕ) (bytes : List ℕ) (k : ℕ)
    → size ≤ length (drop (k * size) bytes)
    → length (chunk size bytes k) ≡ size
length-chunk size bytes k h = omega (arith, length-take size (drop (k * size) bytes))
