-- ===== src/Wire/RoundTrip.antt =====
-- A packet that `sendPdu` has laid out, read back by a receiver.
use rcopy.Base.{
  drop, refl, Option, length-take, ℕ, ◌-◌, ◌/◌, ◌%◌, ◌^◌, ◌≤◌, ◌<◌, ◌≡◌, ap, arith, some, List, [],
  ◌∷◌, length, take, ok,
}
use native.Mathlib.Nat.{mod-eq_of_lt}
use rcopy.Checksum.{Checksum}
use rcopy.Wire.{
  header_size, send_pdu, PduHeader, htonl, read_header, Address, with_header, checked_packet,
  build_pdu, value16, value32,
}

-- Four bytes joined and split again.
digits_of_value32 :
    (a b c d : ℕ)
    → a < 256
    → b < 256
    → c < 256
    → d < 256
    → let x = value32 a b c d in
      (x % 256 ≡ a) × (x / 2 ^ 8 % 256 ≡ b) × (x / 2 ^ 16 % 256 ≡ c) × (x / 2 ^ 24 % 256 ≡ d)
digits_of_value32 a b c d ha hb hc hd = omega arith

pub value32_of_digits :
    (x : ℕ)
    → x < 2 ^ 32
    → value32 (x % 256) (x / 2 ^ 8 % 256) (x / 2 ^ 16 % 256) (x / 2 ^ 24 % 256) ≡ x
value32_of_digits x h = omega arith

pub htonl-lt : (x : ℕ) → htonl x < 2 ^ 32
unfolding htonl
htonl-lt x = omega arith

-- `ntohl` is the same function, and it undoes `htonl`.
pub htonl-htonl : (x : ℕ) → x < 2 ^ 32 → htonl (htonl x) ≡ x
unfolding htonl
htonl-htonl x h =
    let d =
      digits_of_value32 (x / 2 ^ 24 % 256) (x / 2 ^ 16 % 256) (x / 2 ^ 8 % 256) (x % 256)
        (omega arith) (omega arith) (omega arith) (omega arith) in
    rw (d.0, d.1, d.2, d.3) (value32_of_digits x h)

module _ (ck : Checksum) where
  open ck use {in_cksum, in_cksum-lt, verifies}

  -- The header that a receiver copies out of a packet is the one that was sent.
  pub read_header-checked_packet :
      (h : PduHeader) (body : List ℕ)
      → h.seq < 2 ^ 32
      → h.flag < 256
      → (c : ℕ) × (read_header (checked_packet ck h body)
          ≡ ok (record { seq = h.seq; checksum = c; flag = h.flag }))
  unfolding read_header checked_packet
  read_header-checked_packet h body hs hf =
      let sum = in_cksum (with_header h body) % 2 ^ 16 in
      (value16 (sum % 256) (sum / 2 ^ 8 % 256), rw (value32_of_digits h.seq hs, mod-eq_of_lt hf))

  verifies_filled :
      (a b c d sum : ℕ) (rest : List ℕ)
      → sum < 2 ^ 16
      → length rest ≤ 1401
      → sum ≡ in_cksum (a ∷ b ∷ c ∷ d ∷ 0 ∷ 0 ∷ rest)
      → in_cksum (a ∷ b ∷ c ∷ d ∷ sum % 2 ^ 16 % 256 ∷ sum % 2 ^ 16 / 2 ^ 8 % 256 ∷ rest) ≡ 0
  verifies_filled a b c d sum rest lt len e = rw (mod-eq_of_lt lt, e) (verifies a b c d rest len)

  -- The checksum test of a receiver passes.
  pub in_cksum-checked_packet :
      (h : PduHeader) (body : List ℕ)
      → h.checksum ≡ 0
      → length body ≤ 1400
      → in_cksum (checked_packet ck h body) ≡ 0
  unfolding checked_packet
  in_cksum-checked_packet h body hc hb =
      verifies_filled (h.seq % 256) (h.seq / 2 ^ 8 % 256) (h.seq / 2 ^ 16 % 256)
        (h.seq / 2 ^ 24 % 256) _ (h.flag % 256 ∷ body) (in_cksum-lt _) (omega arith)
        (ap
          (λ (k : ℕ). in_cksum (
            h.seq % 256
            ∷ h.seq / 2 ^ 8 % 256
            ∷ h.seq / 2 ^ 16 % 256
            ∷ h.seq / 2 ^ 24 % 256
            ∷ k % 256
            ∷ k / 2 ^ 8 % 256
            ∷ h.flag % 256
            ∷ body))
          hc)

  pub drop-checked_packet :
      (h : PduHeader) (body : List ℕ) → drop header_size (checked_packet ck h body) ≡ body
  unfolding checked_packet
  drop-checked_packet h body = refl

  pub build_pdu-eq :
      (to : Address) (h : PduHeader) (payload : List ℕ) (len : ℕ)
      → len ≤ 1400
      → len ≤ length payload
      → build_pdu ck (some to) h (some payload) len
        ≡ ok (record { dest = to; packet = checked_packet ck h (take len payload) } ∷ [])
  unfolding build_pdu
  build_pdu-eq to h payload len hl hp = ground arith

  pub build_pdu_too_long :
      (to : Address) (h : PduHeader) (payload : List ℕ) (len : ℕ)
      → 1400 < len
      → len < 2 ^ 31 - 7
      → build_pdu ck (some to) h (some payload) len ≡ ok []
  unfolding build_pdu
  build_pdu_too_long to h payload len hl hp = ground arith

-- For a header with checksum 0 and fields in range, and a length of at most 1400 bytes that the
-- payload has: `sendPdu` hands one packet over, to the address given. The packet passes the
-- receiver's checksum test, its header has the same sequence number and flag, and behind the
-- header stand exactly the payload's first bytes, as many as were asked for.
pub packet_received :
    (ck : Checksum) (reply : Option ℕ) (to : Address) (h : PduHeader) (payload : List ℕ) (len : ℕ)
    → h.checksum ≡ 0
    → h.seq < 2 ^ 32
    → h.flag < 256
    → len ≤ 1400
    → len ≤ length payload
    → (p : List ℕ) × (send_pdu ck reply (some to) h (some payload) len
        ≡ ok (reply, record { dest = to; packet = p } ∷ []))
      × (ck.in_cksum p ≡ 0)
      × ((c : ℕ) × (read_header p ≡ ok (record { seq = h.seq; checksum = c; flag = h.flag })))
      × (drop header_size p ≡ take len payload)
unfolding send_pdu
packet_received ck reply to h payload len blank hs hf short enough = (
  checked_packet ck h (take len payload),
  rw (build_pdu-eq ck to h payload len short enough),
  in_cksum-checked_packet ck h (take len payload) blank (omega (arith, length-take len payload)),
  read_header-checked_packet ck h (take len payload) hs hf,
  drop-checked_packet ck h (take len payload),
)
