-- ===== src/Rcopy/Handshake.antt =====
-- rcopy.c: `sendFilename` and `stateHandshake`. Calls of `printf` are left out. Each round of the
-- handshake takes what its wait brings from a list; the wait that only delays the next round takes
-- nothing.
use rcopy.Base.{
  ℕ, ◌+◌, ◌%◌, true, false, Option, none, some, List, [], ◌∷◌, ◌++◌, length, take, drop, ltb, leb,
  ◌==◌, if◌then◌else◌, Result, ok, stop, exit_failure, out_of_bounds, guard, ◌>>=◌, ◌>>◌, c_string,
  same_text,
}
use rcopy.Checksum.{Checksum}
use rcopy.Net.{Event, timeout, arrival, received}
use rcopy.Wire.{
  PduHeader, Address, Datagram, htonl, bytes32, read_header, send_pdu, max_attempts, header_size,
}

-- `rcopy_state_t`
pub data RcopyState : Type 0 where
  state_init state_handshake state_file_receive state_done : RcopyState

-- The fields of `RcopyContext` that the handshake uses, and the packets handed to `sendtoErr`.
pub record Handshake : Type 0 where
  pub server : Address
  pub filename : List ℕ
  pub windowsize : ℕ
  pub buffersize : ℕ
  pub attempts : ℕ
  pub sent : List Datagram

abbrev pub text_ok : List ℕ
text_ok = b'O' ∷ b'k' ∷ []

abbrev pub filename_header : PduHeader
filename_header = record { seq = htonl 0; checksum = 0; flag = 8 }

-- The payload: both sizes, as `uint32_t`, and the name behind its length, a `uint8_t`.
unfoldable pub filename_payload : List ℕ → ℕ → ℕ → List ℕ
filename_payload filename buffersize windowsize =
    bytes32 (htonl windowsize)
    ++ bytes32 (htonl buffersize)
    ++ (length filename % 256 ∷ take (length filename % 256) filename)

-- The most that goes into `ackPayload` before its terminating zero.
abbrev pub max_ack : ℕ
max_ack = 1393

module _ (ck : Checksum) where
  -- The program ends if `sendPdu` fails. `sent_bytes` is what `sendtoErr` returns.
  unfoldable pub send_filename : Option ℕ → Handshake → Result Handshake
  send_filename sent_bytes s = do
    let pdu = filename_payload s.filename s.buffersize s.windowsize
    (bytes, handed) ← send_pdu ck sent_bytes (some s.server) filename_header (some pdu) (length pdu)
    elim bytes [ none ↦ stop exit_failure | some n ↦ ok (record s { sent = s.sent ++ handed }) ]

  -- A packet with the flag 9: `Ok` leads to the file, anything else ends the program.
  unfoldable pub on_ack : Handshake → Address → List ℕ → Result Handshake
  on_ack s src payload = do
    guard (leb (length payload) max_ack) out_of_bounds
    if same_text (c_string payload) text_ok
        then ok (record s { server = src })
        else stop exit_failure

  -- One more attempt, on a new socket; `resolved` is the address that the server's name has.
  abbrev pub retry : Address → Handshake → Handshake
  retry resolved s = record s { attempts = s.attempts + 1; server = resolved }

  -- What is done with what the wait has brought. `none` for the state means another round.
  unfoldable pub on_answer : Address → Handshake → Event → Result (Option RcopyState × Handshake)
  on_answer resolved s timeout = ok (none, retry resolved s)
  on_answer resolved s (arrival src bytes) =
      let pdu = received bytes in
      if ltb 0 (length pdu)
      then (do
        header ← read_header pdu
        if header.flag == 9
            then (on_ack s src (drop header_size pdu) >>= λ u. ok (some state_file_receive, u))
            else ok (none, retry resolved s))
      else ok (none, retry resolved s)

  -- A round of the loop.
  unfoldable pub handshake_turn :
      Option ℕ → Address → Handshake → Event → Result (Option RcopyState × Handshake)
  handshake_turn sent_bytes resolved s e =
      send_filename sent_bytes s >>= λ u. on_answer resolved u e

  -- The loop over what its waits bring. It stands still when the list is used up.
  unfoldable pub handshake_loop :
      Option ℕ → Address → List Event → Handshake → Result (Option RcopyState × Handshake)
  handshake_loop sent_bytes resolved [] s =
      ok (if ltb s.attempts max_attempts then none else some state_done, s)
  handshake_loop sent_bytes resolved (e ∷ es) s = elim (ltb s.attempts max_attempts) [
    | true ↦ handshake_turn sent_bytes resolved s e >>= λ r. elim r.0 [
      | some state ↦ ok r
      | none ↦ handshake_loop sent_bytes resolved es r.1
    ]
    | false ↦ ok (some state_done, s)
  ]

  -- `stateHandshake`, which sets the attempts to 0 first.
  unfoldable pub state_handshake_run :
      Option ℕ → Address → List Event → Handshake → Result (Option RcopyState × Handshake)
  state_handshake_run sent_bytes resolved events s =
      handshake_loop sent_bytes resolved events (record s { attempts = 0 })
