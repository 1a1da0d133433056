-- ===== src/Server/Transfer/Terms.antt =====
-- What is asked of the packets that a transfer sends and of the answers that it takes.
use rcopy.Base.{
  All, All-append, All-map, ℕ, suc, ◌+◌, ◌*◌, ◌^◌, ◌≤◌, ◌<◌, ◌≡◌, subst, sym, arith, Bool, true,
  false, ◌&&◌, ◌==◌, dec_le, List, [], ◌∷◌, ◌++◌, length,
}
use rcopy.Checksum.{Checksum}
use rcopy.Wire.{Datagram}
use rcopy.Server.Transfer.Packets.{Honest, data_packet}

-- A packet of sequence number `k`, with whatever bytes.
abbrev pub Labelled : Checksum → ℕ → Bool → Datagram → Type 0
Labelled ck k isEOF d =
    (body : List ℕ) × (length body ≤ 1400) × (d ≡ data_packet ck d.dest k isEOF body)

-- The numbers at which data packets and the packet that ends the file may stand: all at which the
-- first window, and the rounds after it, send them.
pub record Places (window size : ℕ) (bytes : List ℕ) : Type 1 where
  pub Place : ℕ → Bool → Type 0
  pub early_data : (k : ℕ) → k < window → k * size < length bytes → Place k false
  pub full_data : (k : ℕ) → k * size + size ≤ length bytes → Place k false
  pub early_end :
      (k : ℕ)
      → k ≤ window
      → length bytes ≤ k * size
      → ((j : ℕ) → j < k → j * size < length bytes)
      → Place k true
  pub late_end :
      (k : ℕ) → window ≤ k → k * size ≤ length bytes → length bytes < k * size + size → Place k true

abbrev pub anywhere : {window size : ℕ} {bytes : List ℕ} → Places window size bytes
anywhere = record {
  Place = λ k b. Unit;
  early_data = λ k lt inside. tt;
  full_data = λ k full. tt;
  early_end = λ k le over inside. tt;
  late_end = λ k le full short. tt;
}

-- How the numbers used are carried on: with another data packet, or with the end.
module _ (Place : ℕ → Bool → Type 0) where
  pub Placed-open :
      {n : ℕ} (q : ℕ) {ended : Bool}
      → ended ≡ false
      → ((k : ℕ) → k < n → Place k (ended && (k == q)))
      → (k : ℕ) → k < n
      → Place k false
  Placed-open q off placed k lt = subst (λ b. Place k (b && (k == q))) off (placed k lt)

  pub Placed-data :
      {n : ℕ}
      → ((k : ℕ) → k < n → Place k false)
      → Place n false
      → (k : ℕ) → k < n + 1
      → Place k false
  Placed-data {n} before now k lt = elim (dec_le (k + 1) n) [
    | yes below ↦ before k (omega arith)
    | no last ↦ let e : n ≡ k = omega arith in subst (λ j. Place j false) e now
  ]

  pub Placed-end :
      {n : ℕ}
      → ((k : ℕ) → k < n → Place k false)
      → Place n true
      → (k : ℕ) → k < n + 1
      → Place k (k == n)
  Placed-end {n} before now k lt = elim (dec_le (k + 1) n) [
    | yes below ↦
        let e : (k == n) ≡ false = ground arith in
        subst (λ b. Place k b) (sym e) (before k (omega arith))
    | no last ↦
        let e : (k == n) ≡ true = ground arith in
        let same : n ≡ k = omega arith in
        subst (λ b. Place k b) (sym e) (subst (λ j. Place j true) same now)
  ]

-- `Sent n` is what holds of each packet sent while `n` is the next sequence number: an honest packet
-- of a number before `n` has it, and keeps it. `Acked` holds of the numbers that an RR may have, and
-- `Finished` when the end may be acknowledged. The next sequence number has reached `since`.
pub record Terms (ck : Checksum) (window size : ℕ) (bytes : List ℕ) : Type 1 where
  pub places : Places window size bytes
  pub Sent : ℕ → Datagram → Type 0
  pub since : ℕ
  pub Acked : ℕ → Type 0
  pub Finished : Type 0
  pub tells : (n k : ℕ) (d : Datagram) → k < n → Honest ck places.Place size bytes k d → Sent n d
  pub grows : (n : ℕ) (d : Datagram) → Sent n d → Sent (suc n) d
  pub acked_fits : (k : ℕ) → Acked k → k + window < 2 ^ 32

module _ {ck : Checksum} {window size : ℕ} {bytes : List ℕ}
    (terms : Terms ck window size bytes) where
  open terms use {Sent, tells, grows}

  -- The packet of the next number has been sent behind the others.
  pub All-Sent-snoc :
      (n m : ℕ) (ds : List Datagram) (d : Datagram)
      → m ≡ suc n
      → All (Sent n) ds
      → Honest ck terms.places.Place size bytes n d
      → All (Sent m) (ds ++ (d ∷ []))
  All-Sent-snoc n m ds d e all h =
      subst (λ (k : ℕ). All (Sent k) (ds ++ (d ∷ []))) (sym e)
        (All-append (Sent (suc n)) ds (d ∷ []) (All-map (Sent n) (Sent (suc n)) (grows n) ds all)
          (tells (suc n) n d (omega arith) h, tt))
