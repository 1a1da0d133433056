-- ===== src/Rcopy/Receive/Receiving.antt =====
-- The invariant of `stateFileReceive`: what the panes and the output file hold.
use rcopy.Base.{
  All, Bool, ℕ, suc, ◌+◌, ◌*◌, ◌%◌, ◌≤◌, ◌<◌, ◌≡◌, ◌≢◌, ◌⊎◌, true, false, some, List, [], ◌++◌,
  length, take, drop, get_elem?,
}
use rcopy.Checksum.{Checksum}
use rcopy.Spec.{chunk}
use rcopy.Window.{Pane, max_int_32}
use rcopy.Window.Panes.{IsSized}
use rcopy.Wire.{Address, Datagram, checked_packet}
use rcopy.Wire.Sent.{Has}
use rcopy.Rcopy.Receive.{
  Receive, rr_header, srej_header, eof_header, text_rr, text_srej, text_eof_ack,
}

-- An acknowledgement that asks for nothing past `n`, an SREJ only for a number that satisfies
-- `Asked`, and the end only if it has been taken.
pub data Reply (ck : Checksum) (Asked : ℕ → Type 0) (eof : Bool) (n : ℕ) (d : Datagram)
    : Type 0 where
  rr : (k : ℕ) → k ≤ n → d.packet ≡ checked_packet ck (rr_header k) text_rr → Reply ck Asked eof n d
  srej :
      (k : ℕ)
      → k ≤ n
      → Asked k
      → d.packet ≡ checked_packet ck (srej_header k) text_srej
      → Reply ck Asked eof n d
  done : eof ≡ true → d.packet ≡ checked_packet ck eof_header text_eof_ack → Reply ck Asked eof n d

-- What is known of the other side: the numbers that an SREJ may ask for, those at which data may
-- come, and those at which the end may.
pub record Peer : Type 1 where
  pub Asked : ℕ → Type 0
  pub Chunk : ℕ → Type 0
  pub End : ℕ → Type 0

abbrev pub anyone : Peer
anyone = record { Asked = λ k. Unit; Chunk = λ k. Unit; End = λ k. Unit }

-- The end has been acknowledged to `server`.
abbrev pub HasAck : Checksum → Address → List Datagram → Type 0
HasAck ck server sent =
    (x : Datagram) × Has x sent
    × (x.packet ≡ checked_packet ck eof_header text_eof_ack)
    × (x.dest ≡ server)

module _ (window size : ℕ) (bytes : List ℕ) where
  -- Chunk `k` begins inside the file, and stands at the front of `block`.
  abbrev pub Fronts : ℕ → List ℕ → Type 0
  Fronts k block =
      (k * size < length bytes) × (take (length (chunk size bytes k)) block ≡ chunk size bytes k)

  -- What comes with the packet that ends the file: nothing, or the last chunk, which is not full.
  abbrev pub IsLast : ℕ → List ℕ → Type 0
  IsLast n last =
      (length (drop (n * size) bytes) < size) × ((last ≡ []) ⊎ (last ≡ chunk size bytes n))

module _ (window size : ℕ) (bytes : List ℕ) (Chunk : ℕ → Type 0) where
  -- A block of the output for chunk `k`, of full size.
  abbrev pub IsBlock : ℕ → List ℕ → Type 0
  IsBlock k block = (length block ≡ size) × Chunk k × Fronts window size bytes k block

  -- The output consists of a block for each chunk before `n`, in order.
  pub data Delivered : ℕ → List ℕ → Type 0 where
    nothing : Delivered 0 []
    next :
        {n : ℕ} {out : List ℕ}
        → Delivered n out
        → (block : List ℕ) → IsBlock n block
        → Delivered (suc n) (out ++ block)

  -- A pane that has taken a packet is the pane of its number, and has its chunk at the front.
  abbrev pub Stored : ℕ → ℕ → Pane → Type 0
  Stored bound i p =
      (p.seq_num % window ≡ i)
      × (p.seq_num < bound)
      × Chunk p.seq_num
      × Fronts window size bytes p.seq_num p.content

  abbrev pub AllStored : ℕ → List Pane → Type 0
  AllStored bound panes =
      (i : ℕ) (p : Pane) → get_elem? panes i ≡ some p → (p.seq_num ≡ max_int_32) ⊎ Stored bound i p

module _ (window size : ℕ) (bytes : List ℕ) where
  -- The packet expected is not in its pane.
  abbrev pub IsGap : ℕ → List Pane → Type 0
  IsGap n panes = (p : Pane) → get_elem? panes (n % window) ≡ some p → p.seq_num ≢ n

  -- `since` is a number that the one expected has reached.
  pub record Receiving (ck : Checksum) (peer : Peer) (since : ℕ) (s : Receive) : Type 0 where
    pub sized : IsSized window size s.wb
    pub grown : since ≤ s.expected_seq
    pub same_window : s.windowsize ≡ window
    pub stored : AllStored window size bytes peer.Chunk (s.expected_seq + window) s.wb.panes
    pub gap : IsGap s.expected_seq s.wb.panes
    pub written : s.eof ≡ false → Delivered window size bytes peer.Chunk s.expected_seq s.output
    pub finished :
        s.eof ≡ true
        → (out : List ℕ) × (last : List ℕ) × (s.output ≡ out ++ last)
          × Delivered window size bytes peer.Chunk s.expected_seq out
          × IsLast window size bytes s.expected_seq last
    pub ended : s.eof ≡ true → peer.End s.expected_seq
    pub told : s.eof ≡ true → HasAck ck s.server s.sent
    pub replies : All (Reply ck peer.Asked s.eof s.expected_seq) s.sent
