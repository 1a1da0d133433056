-- ===== src/Rcopy/Receive.antt =====
-- rcopy.c, `stateFileReceive` and the functions that acknowledge. Calls of `printf` are left out.
-- The loop that waits for packets takes what happens at each wait as a list.
pub mod Advance
pub mod Correct
pub mod Deliver
pub mod GiveUp
pub mod Silence
pub mod Output
pub mod Prefix
pub mod Receiving
pub mod Replies
pub mod Data
pub mod Round
pub mod Stray
use rcopy.Base.{
  ℕ, ◌+◌, ◌%◌, Bool, true, false, not, ◌&&◌, ◌||◌, some, List, [], ◌∷◌, ◌++◌, length, take, drop,
  u32, ltb, leb, ◌==◌, if◌then◌else◌, Result, ok, stop, exit_failure, out_of_bounds, suc, ◌>>=◌,
}
use rcopy.Base.Loop.{Turn, again, leave, loop}
use rcopy.Checksum.{Checksum}
use rcopy.Net.{Event, timeout, arrival, received}
use rcopy.Wire.{
  PduHeader, Address, Datagram, htonl, read_header, build_pdu, max_attempts, header_size,
}
use rcopy.Window.{WindowBuffer, Malloc, init_window, pane_index, read_pane, write_pane}

-- The local variables of `stateFileReceive`, the fields of `RcopyContext` that it uses, the bytes
-- written to the output file, and the packets handed to `sendtoErr` so far, oldest first.
pub record Receive : Type 0 where
  pub server : Address
  pub windowsize : ℕ
  pub attempts : ℕ
  pub eof : Bool
  pub wb : WindowBuffer
  pub expected_seq : ℕ
  pub output : List ℕ
  pub sent : List Datagram

abbrev pub text_rr : List ℕ
text_rr = b'R' ∷ b'R' ∷ []

abbrev pub text_srej : List ℕ
text_srej = b'S' ∷ b'R' ∷ b'E' ∷ b'J' ∷ []

abbrev pub text_eof_ack : List ℕ
text_eof_ack = b'E' ∷ b'O' ∷ b'F' ∷ b'_' ∷ b'A' ∷ b'C' ∷ b'K' ∷ []

abbrev pub rr_header : ℕ → PduHeader
rr_header seq = record { seq = htonl seq; checksum = 0; flag = 5 }

abbrev pub srej_header : ℕ → PduHeader
srej_header seq = record { seq = htonl seq; checksum = 0; flag = 6 }

-- `sendEOF` puts 0 in the place of the sequence number.
abbrev pub eof_header : PduHeader
eof_header = record { seq = htonl 0; checksum = 0; flag = 10 }

-- A round of the loop that writes the packet expected and those buffered behind it.
unfoldable pub deliver_round : Receive → Result (Turn Receive)
deliver_round s = do
  i ← pane_index s.wb s.expected_seq
  p ← read_pane s.wb i
  if p.seq_num == s.expected_seq
      then (if leb s.wb.buffer_size (length p.content)
          then ok (
              again (record s {
                output = s.output ++ take s.wb.buffer_size p.content;
                expected_seq = u32 (s.expected_seq + 1);
              }))
          else stop out_of_bounds)
      else ok (leave s)

unfoldable pub deliver : Receive → Result Receive
deliver s = loop deliver_round (suc s.wb.window_size) s

-- The test of the main loop.
abbrev pub receive_runs : Receive → Bool
receive_runs s = not s.eof && ltb s.attempts max_attempts

module _ (ck : Checksum) where
  open ck use {in_cksum}

  reply : Receive → PduHeader → List ℕ → Result Receive
  reply s header text = do
    handed ← build_pdu ck (some s.server) header (some text) (length text)
    ok (record s { sent = s.sent ++ handed })

  -- `sendRR`, `sendSREJ` and `sendEOF`
  unfoldable pub send_rr : Receive → ℕ → Result Receive
  unfolding reply
  send_rr s seq = reply s (rr_header seq) text_rr

  unfoldable pub send_srej : Receive → ℕ → Result Receive
  unfolding reply
  send_srej s seq = reply s (srej_header seq) text_srej

  unfoldable pub send_eof : Receive → Result Receive
  unfolding reply
  send_eof s = reply s eof_header text_eof_ack

  -- A packet with the flag 10.
  unfoldable pub on_eof : Receive → ℕ → List ℕ → Result Receive
  on_eof s seqNum payload =
      if seqNum == s.expected_seq
      then (send_eof (record s { output = s.output ++ payload }) >>= λ u.
          ok (record u { eof = true }))
      else send_srej s s.expected_seq

  -- A packet whose sequence number lies in the window.
  unfoldable pub on_data : Receive → ℕ → List ℕ → Result Receive
  on_data s seqNum payload = do
    i ← pane_index s.wb seqNum
    wb ← write_pane s.wb i seqNum payload
    let u = record s { wb = wb }
    if seqNum == s.expected_seq
        then (deliver u >>= λ v. send_rr v v.expected_seq)
        else send_srej u u.expected_seq

  -- What is done with a packet that has passed the checksum test.
  unfoldable pub on_packet : Receive → List ℕ → Result Receive
  on_packet s packet = do
    header ← read_header packet
    let seqNum = htonl header.seq
    let payload = drop header_size packet
    if header.flag == 10
        then on_eof s seqNum payload
        else if leb s.expected_seq seqNum && ltb seqNum (u32 (s.expected_seq + s.windowsize))
        then on_data s seqNum payload
        else if ltb seqNum s.expected_seq
        then send_rr s s.expected_seq
        else send_srej s s.expected_seq

  -- The body of the main loop.
  unfoldable pub receive_turn : Receive → Event → Result Receive
  receive_turn s timeout = send_rr (record s { attempts = s.attempts + 1 }) s.expected_seq
  receive_turn s (arrival src bytes) =
      let packet = received bytes in
      let u = record s { attempts = 0 } in
      if in_cksum packet == 0 then on_packet u packet else send_srej u u.expected_seq

  -- The main loop over what happens at its waits. It stands still when the list is used up.
  unfoldable pub receive_loop : List Event → Receive → Result Receive
  receive_loop [] s = ok s
  receive_loop (e ∷ es) s = elim (receive_runs s) [
    | true ↦ receive_turn s e >>= λ u. receive_loop es u
    | false ↦ ok s
  ]

  -- `stateFileReceive`, which goes on to STATE_DONE. `opened` says whether `fopen` succeeded.
  unfoldable pub state_file_receive :
      Malloc → Bool → Address → ℕ → ℕ → Bool → List Event → Result Receive
  state_file_receive malloc opened server windowsize buffersize eof events =
      if opened
      then (do
        wb ← init_window malloc windowsize buffersize
        let start : Receive = record {
          server = server;
          windowsize = windowsize;
          attempts = 0;
          eof = eof;
          wb = wb;
          expected_seq = 0;
          output = [];
          sent = [];
        }
        receive_loop events start)
      else stop exit_failure
