-- ===== src/Wire.antt =====
-- helperFunctions.h and helperFunctions.c: the header of a packet, its bytes in memory, and
-- `sendPdu`, which lays a packet out and hands it to `sendtoErr`. The host is little-endian.
pub mod RoundTrip
pub mod Sent
use rcopy.Base.{
  ℕ, ◌+◌, ◌*◌, ◌/◌, ◌%◌, ◌^◌, ◌≤◌, ◌<◌, Option, none, some, List, [], ◌∷◌, ◌++◌, length, take, ltb,
  leb, if◌then◌else◌, Result, ok, stop, out_of_bounds, uninitialised, bad_length, guard, ◌>>=◌,
  ◌>>◌,
}
use rcopy.Checksum.{Checksum}

-- `pdu_header`, packed: `seq` and `checksum` as the host reads the fields.
pub record PduHeader : Type 0 where
  pub seq : ℕ
  pub checksum : ℕ
  pub flag : ℕ

abbrev pub header_size : ℕ
header_size = 7

abbrev pub max_pdu_size : ℕ
max_pdu_size = 1407

abbrev pub max_filename : ℕ
max_filename = 100

abbrev pub max_attempts : ℕ
max_attempts = 10

-- The `uint16_t` and the `uint32_t` that bytes in memory stand for.
abbrev pub value16 : ℕ → ℕ → ℕ
value16 a b = a + 2 ^ 8 * b

abbrev pub value32 : ℕ → ℕ → ℕ → ℕ → ℕ
value32 a b c d = a + 2 ^ 8 * b + 2 ^ 16 * c + 2 ^ 24 * d

-- `htonl` on a little-endian host: the four bytes in the opposite order.
unfoldable pub htonl : ℕ → ℕ
htonl x = value32 (x / 2 ^ 24 % 256) (x / 2 ^ 16 % 256) (x / 2 ^ 8 % 256) (x % 256)

-- `memcpy` of a `uint32_t`, and a `uint32_t` read through a pointer.
unfoldable pub bytes32 : ℕ → List ℕ
bytes32 x = x % 256 ∷ x / 2 ^ 8 % 256 ∷ x / 2 ^ 16 % 256 ∷ x / 2 ^ 24 % 256 ∷ []

-- `memcpy(packet, &header, sizeof(pdu_header))` and the bytes behind it.
abbrev pub with_header : PduHeader → List ℕ → List ℕ
with_header h body =
    h.seq % 256
    ∷ h.seq / 2 ^ 8 % 256
    ∷ h.seq / 2 ^ 16 % 256
    ∷ h.seq / 2 ^ 24 % 256
    ∷ h.checksum % 256
    ∷ h.checksum / 2 ^ 8 % 256
    ∷ h.flag % 256
    ∷ body

-- `memcpy(&header, packet, sizeof(pdu_header))` on a buffer in which that many bytes have been
-- received. In a shorter datagram the rest of the header is whatever the buffer held before.
unfoldable pub read_header : List ℕ → Result PduHeader
read_header (a ∷ b ∷ c ∷ d ∷ e ∷ f ∷ g ∷ body) =
    ok (record { seq = value32 a b c d; checksum = value16 e f; flag = g })
read_header _ = stop uninitialised

-- What the socket calls name a peer by.
abbrev pub Address : Type 0
Address = ℕ

-- A packet handed to `sendtoErr`, with its destination.
pub record Datagram : Type 0 where
  pub dest : Address
  pub packet : List ℕ

-- `memcpy(packet + header_size, payload, payload_len)`, if there is something to copy.
unfoldable pub copy_payload : Option (List ℕ) → ℕ → Result (List ℕ)
copy_payload none len = if ltb 0 len then stop uninitialised else ok []
copy_payload (some payload) len =
    if leb len (length payload) then ok (take len payload) else stop out_of_bounds

module _ (ck : Checksum) where
  open ck use {in_cksum}

  -- The packet with the checksum of its own bytes put into the header.
  unfoldable pub checked_packet : PduHeader → List ℕ → List ℕ
  checked_packet header body =
      with_header (record header { checksum = in_cksum (with_header header body) % 2 ^ 16 }) body

  -- `sendPdu` up to its call of `sendtoErr`: the packets handed over, none if it returns -1 first.
  -- A length that is negative as an `int` is outside the model.
  unfoldable pub build_pdu :
      Option Address → PduHeader → Option (List ℕ) → ℕ → Result (List Datagram)
  unfolding copy_payload checked_packet
  build_pdu dest header payload payload_len = do
    guard (ltb (payload_len + header_size) (2 ^ 31)) bad_length
    if ltb max_pdu_size (header_size + payload_len) then ok [] else elim dest [
      | none ↦ ok []
      | some to ↦ copy_payload payload payload_len >>= λ body.
          ok (record { dest = to; packet = checked_packet header body } ∷ [])
    ]

  -- `sendPdu`. `reply` is what `sendtoErr` returns if it is called, `none` for a negative number.
  unfoldable pub send_pdu :
      Option ℕ
      → Option Address
      → PduHeader
      → Option (List ℕ)
      → ℕ
      → Result (Option ℕ × List Datagram)
  unfolding build_pdu
  send_pdu reply dest header payload payload_len = do
    handed ← build_pdu dest header payload payload_len
    ok (elim handed [ [] ↦ none | _ ∷ _ ↦ reply ], handed)

  -- `sendAck`
  unfoldable pub send_ack :
      Option ℕ → Option Address → ℕ → Option (List ℕ) → Result (Option ℕ × List Datagram)
  unfolding send_pdu
  send_ack reply dest seq ack_payload =
      send_pdu reply dest (record { seq = htonl seq; checksum = 0; flag = 9 }) ack_payload
        (elim ack_payload [ none ↦ 0 | some text ↦ length text ])
