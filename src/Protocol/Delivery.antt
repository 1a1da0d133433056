-- ===== src/Protocol/Delivery.antt =====
-- A packet of one side as the other reads it.
use rcopy.Base.{
  ◌+◌, ℕ, ◌≤◌, ◌<◌, ◌^◌, ◌≡◌, sym, ap, ◌∙◌, arith, List, length, drop, take_all, ok, ok-inj,
}
use rcopy.Checksum.{Checksum}
use rcopy.Net.{received}
use rcopy.Wire.{PduHeader, checked_packet, read_header, header_size}
use rcopy.Wire.RoundTrip.{read_header-checked_packet, in_cksum-checked_packet, drop-checked_packet}

module _ (ck : Checksum) where
  open ck use {in_cksum}

  -- A packet of header `h` and content `body` passes the checksum test and is read as it was written.
  pub record Reads (h : PduHeader) (body packet : List ℕ) : Type 0 where
    pub some_bytes : 0 < length (received packet)
    pub intact : in_cksum (received packet) ≡ 0
    pub checksum : ℕ
    pub header :
        read_header (received packet)
        ≡ ok (record { seq = h.seq; checksum = checksum; flag = h.flag })
    pub content : drop header_size (received packet) ≡ body

  length-checked_packet :
      (h : PduHeader) (body : List ℕ) → length (checked_packet ck h body) ≡ length body + 7
  unfolding checked_packet
  length-checked_packet h body = omega arith

  received-checked_packet :
      (h : PduHeader) (body : List ℕ)
      → length body ≤ 1400
      → received (checked_packet ck h body) ≡ checked_packet ck h body
  unfolding checked_packet
  received-checked_packet h body len = take_all 1407 (checked_packet ck h body) (omega arith)

  pub checked_packet-Reads :
      (h : PduHeader) (body packet : List ℕ)
      → packet ≡ checked_packet ck h body
      → h.checksum ≡ 0
      → h.seq < 2 ^ 32
      → h.flag < 256
      → length body ≤ 1400
      → Reads h body packet
  checked_packet-Reads h body packet e blank hs hf len =
      let whole = ap (λ (l : List ℕ). received l) e ∙ received-checked_packet h body len in
      let (c, header) = read_header-checked_packet ck h body hs hf in
      record {
        some_bytes = omega (arith, ap length whole, length-checked_packet h body);
        intact = ap in_cksum whole ∙ in_cksum-checked_packet ck h body blank len;
        checksum = c;
        header = ap read_header whole ∙ header;
        content = ap (drop header_size) whole ∙ drop-checked_packet ck h body;
      }

  -- No other header can be read from it.
  pub Reads-unique :
      (h g : PduHeader) (body packet : List ℕ)
      → Reads h body packet
      → read_header (received packet) ≡ ok g
      → (h.seq ≡ g.seq) × (h.flag ≡ g.flag)
  Reads-unique h g body packet r e =
      let same = ok-inj _ g (sym r.header ∙ e) in
      (ap (λ (x : PduHeader). x.seq) same, ap (λ (x : PduHeader). x.flag) same)
