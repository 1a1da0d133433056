-- ===== src/Server/Transfer/Packets.antt =====
-- What `transferData` sends: one packet of the child, and when a packet tells the truth.
use rcopy.Base.{
  All, All-map, ℕ, zero, suc, ◌+◌, ◌*◌, ◌%◌, ◌^◌, ◌≤◌, ◌<◌, ◌≡◌, arith, Bool, true, false, some,
  ◌⊎◌, List, [], ◌∷◌, ◌++◌, length, take, drop, get_elem?, ok,
}
use rcopy.Checksum.{Checksum}
use rcopy.Spec.{chunk}
use rcopy.Window.{Pane}
use rcopy.Window.Panes.{IsSized, pane_of, index_of, read_pane-eq}
use rcopy.Wire.{Address, Datagram, checked_packet}
use rcopy.Wire.RoundTrip.{build_pdu-eq}
use rcopy.Server.Transfer.{Transfer, data_header, send_data_packet, send_eof_packet}

-- One packet for each of the `n` sequence numbers from `i` on, in order.
abbrev pub EachOf : (ℕ → Datagram → Type 0) → ℕ → ℕ → List Datagram → Type 0
EachOf P i zero [] = Unit
EachOf P i zero (d ∷ ds) = ⊥
EachOf P i (suc n) [] = ⊥
EachOf P i (suc n) (d ∷ ds) = P i d × EachOf P (i + 1) n ds

pub EachOf-All :
    (P : ℕ → Datagram → Type 0) (i n : ℕ) (ds : List Datagram)
    → EachOf P i n ds
    → All (λ d. (k : ℕ) × (i ≤ k) × (k < i + n) × P k d) ds
EachOf-All P i zero [] h = tt
EachOf-All P i zero (d ∷ ds) h = elim h [ ]
EachOf-All P i (suc n) [] h = elim h [ ]
EachOf-All P i (suc n) (d ∷ ds) h = (
  (i, omega arith, omega arith, h.0),
  All-map _ _ (λ e (k, low, high, p). (k, omega arith, omega arith, p)) ds
      (EachOf-All P (i + 1) n ds h.1),
)

module _ (ck : Checksum) where
  -- The packet of `seq` with the given bytes.
  abbrev pub data_packet : Address → ℕ → Bool → List ℕ → Datagram
  data_packet to seq isEOF body = record {
    dest = to;
    packet = checked_packet ck (data_header seq isEOF) body;
  }

  -- The data packet of `k` carries chunk `k` at its front, and is no longer than the buffer. The
  -- packet that ends the file comes after the full chunks, and carries nothing, or the chunk, which is
  -- then shorter than the buffer. `Place` says at which numbers either may stand.
  pub data Honest (Place : ℕ → Bool → Type 0) (size : ℕ) (bytes : List ℕ) (k : ℕ) (d : Datagram)
      : Type 0 where
    carries :
        (body : List ℕ)
        → k < 2 ^ 32
        → length body ≤ size
        → d ≡ data_packet d.dest k false body
        → k * size < length bytes
        → take (length (chunk size bytes k)) body ≡ chunk size bytes k
        → Place k false
        → Honest Place size bytes k d
    ends :
        (body : List ℕ)
        → k < 2 ^ 32
        → length body ≤ 1400
        → d ≡ data_packet d.dest k true body
        → length (drop (k * size) bytes) < size
        → ((j : ℕ) → j < k → j * size < length bytes)
        → (body ≡ []) ⊎ (body ≡ chunk size bytes k)
        → Place k true
        → Honest Place size bytes k d

  -- A packet that is honest for some sequence number.
  abbrev pub Truthful : ℕ → List ℕ → Datagram → Type 0
  Truthful size bytes d = (k : ℕ) × Honest (λ n b. Unit) size bytes k d

  -- `send_data_packet` hands over the packet made of the pane of `seq`, whatever `seq` is.
  pub send_data_packet-eq :
      {window size : ℕ} (t : Transfer) (seq : ℕ) (isEOF : Bool) (n : ℕ)
      → IsSized window size t.wb
      → 0 < window
      → n ≤ 1400
      → (p : Pane) × (get_elem? t.wb.panes (seq % window) ≡ some p)
        × (send_data_packet ck t seq isEOF n
            ≡ ok (record t {
              sent = t.sent ++ (data_packet t.client seq isEOF (take n p.content) ∷ []);
            }))
  unfolding send_data_packet
  send_data_packet-eq t seq isEOF n s pos len =
      let (p, at, room) = pane_of s pos seq in
      (
        p,
        at,
        rw (
          index_of s pos seq,
          read_pane-eq t.wb _ p at,
          build_pdu-eq ck t.client (data_header seq isEOF) p.content n len (rw room len),
        ),
      )

  pub send_eof_packet-eq :
      (t : Transfer) (seq : ℕ)
      → send_eof_packet ck t seq
        ≡ ok (record t { sent = t.sent ++ (data_packet t.client seq true [] ∷ []) })
  unfolding send_eof_packet
  send_eof_packet-eq t seq =
      rw (build_pdu-eq ck t.client (data_header seq true) (0 ∷ []) 0 (omega arith) (omega arith))
