-- ===== src/Server/Transfer.antt =====
-- server.c, `transferData` and the functions that it sends packets with. Calls of `printf` are
-- left out. The loop that waits for packets takes what happens at each wait as a list.
pub mod Advance
pub mod Correct
pub mod Faults
pub mod GiveUp
pub mod Initial
pub mod Packets
pub mod Refill
pub mod Reference
pub mod Repeats
pub mod Resend
pub mod Send
pub mod Round
pub mod Start
pub mod Serving
pub mod Terms
use rcopy.Base.{
  ℕ, zero, suc, ◌+◌, ◌-◌, Bool, true, false, not, ◌&&◌, ◌||◌, Option, none, some, List, [], ◌∷◌,
  ◌++◌, length, u32, ltb, ◌==◌, if◌then◌else◌, Result, ok, ◌>>=◌,
}
use rcopy.Base.Loop.{Turn, again, leave, loop}
use rcopy.Checksum.{Checksum}
use rcopy.Net.{Event, timeout, arrival, received, File, fread, after_fread}
use rcopy.Wire.{PduHeader, Address, Datagram, htonl, read_header, build_pdu, max_attempts}
use rcopy.Window.{
  WindowBuffer, Malloc, init_window, slide_window, pane_index, read_pane, write_pane,
}

-- The local variables of `transferData`, the fields of the child that it changes, and the packets
-- handed to `sendtoErr` so far, oldest first.
pub record Transfer : Type 0 where
  pub client : Address
  pub attempts : ℕ
  pub wb : WindowBuffer
  pub file : File
  pub next_seq : ℕ
  pub base : ℕ
  pub eof_seq : ℕ
  pub eof_sent : Bool
  pub eof_acked : Bool
  pub sent : List Datagram

-- `.flag = isEOF ? 10 : 16`
abbrev pub data_header : ℕ → Bool → PduHeader
data_header seq isEOF = record { seq = htonl seq; checksum = 0; flag = if isEOF then 10 else 16 }

-- `fread` into pane `i`, and its sequence number; with the count of bytes read.
unfoldable pub read_chunk : Transfer → ℕ → Result (Transfer × ℕ)
read_chunk t i =
    let got = fread t.file t.wb.buffer_size in
    write_pane t.wb i t.next_seq got >>= λ wb.
    ok (record t { wb = wb; file = after_fread t.file t.wb.buffer_size }, length got)

-- The test of the main loop.
abbrev pub transfer_runs : Transfer → Bool
transfer_runs t = not t.eof_acked && ltb t.attempts max_attempts

module _ (ck : Checksum) where
  open ck use {in_cksum}

  unfoldable pub send_data_packet : Transfer → ℕ → Bool → ℕ → Result Transfer
  send_data_packet t seq isEOF bytesRead = do
    i ← pane_index t.wb seq
    p ← read_pane t.wb i
    handed ← build_pdu ck (some t.client) (data_header seq isEOF) (some p.content) bytesRead
    ok (record t { sent = t.sent ++ handed })

  -- The payload `""` is its terminating zero byte.
  unfoldable pub send_eof_packet : Transfer → ℕ → Result Transfer
  send_eof_packet t seq = do
    handed ← build_pdu ck (some t.client) (data_header seq true) (some (0 ∷ [])) 0
    ok (record t { sent = t.sent ++ handed })

  -- A round of the first loop of `transferData`.
  initial_send : Transfer → ℕ → Result Transfer
  initial_send t bytesRead =
      if ltb 0 bytesRead
      then (send_data_packet t t.next_seq t.eof_sent bytesRead >>= λ u.
          ok (record u { next_seq = u32 (u.next_seq + 1) }))
      else ok t

  initial_end : Transfer → ℕ → Result (Turn Transfer)
  initial_end t bytesRead =
      if bytesRead == 0 || t.file.eof
      then (send_eof_packet t t.next_seq >>= λ u. ok (
          leave
            (record u { eof_sent = true; eof_seq = u.next_seq; next_seq = u32 (u.next_seq + 1) })))
      else ok (again t)

  unfoldable pub initial_round : Transfer → Result (Turn Transfer)
  unfolding initial_send initial_end
  initial_round t =
      if ltb t.next_seq t.wb.window_size && not t.file.eof
      then (do
        (u, bytesRead) ← read_chunk t t.next_seq
        v ← initial_send u bytesRead
        initial_end v bytesRead)
      else ok (leave t)

  unfoldable pub send_next_data : Transfer → Result Transfer
  send_next_data t = do
    i ← pane_index t.wb t.next_seq
    (u, bytesRead) ← read_chunk t i
    let last = ltb bytesRead u.wb.buffer_size || u.file.eof
    let v = record u {
      eof_sent = last || u.eof_sent;
      eof_seq = if last then u.next_seq else u.eof_seq;
    }
    w ← send_data_packet v v.next_seq (v.eof_sent && (v.next_seq == v.eof_seq)) bytesRead
    ok (record w { next_seq = u32 (w.next_seq + 1) })

  -- The loop that sends while the window is open. `next_seq` grows by one a round.
  unfoldable pub refill_round : Transfer → Result (Turn Transfer)
  refill_round t =
      if ltb t.next_seq (u32 (t.base + t.wb.window_size)) && not t.eof_sent
      then (send_next_data t >>= λ u. ok (again u))
      else ok (leave t)

  unfoldable pub refill : Transfer → Result Transfer
  refill t = loop refill_round (suc (u32 (t.base + t.wb.window_size) - t.next_seq)) t

  -- The packet of `i` as it is sent again.
  unfoldable pub resend : Transfer → ℕ → Result Transfer
  resend t i =
      let isEOF = t.eof_sent && (i == t.eof_seq) in
      send_data_packet t i isEOF (if isEOF then 0 else t.wb.buffer_size)

  -- The loop of `retransmit_packets`, for the next `n` sequence numbers from `i`.
  unfoldable pub resend_from : ℕ → ℕ → Transfer → Result Transfer
  resend_from zero i t = ok t
  resend_from (suc n) i t = resend t i >>= λ u. resend_from n (i + 1) u

  unfoldable pub retransmit_packets : Transfer → Result Transfer
  retransmit_packets t = resend_from (t.next_seq - t.base) t.base t

  unfoldable pub on_rr : Transfer → ℕ → Result Transfer
  on_rr t ackSeq =
      if ltb t.base ackSeq
      then refill (record t { wb = slide_window t.wb (ackSeq - t.base); base = ackSeq })
      else ok t

  -- The branch on the flag of a packet that has passed the checksum test.
  unfoldable pub on_packet : Transfer → List ℕ → Result Transfer
  on_packet t buffer = do
    header ← read_header buffer
    let ackSeq = htonl header.seq
    if header.flag == 5
        then on_rr t ackSeq
        else if header.flag == 6
        then resend t ackSeq
        else if header.flag == 10
        then ok (record t { eof_acked = true })
        else ok t

  -- The body of the main loop.
  unfoldable pub transfer_turn : Transfer → Event → Result Transfer
  transfer_turn t timeout = retransmit_packets (record t { attempts = t.attempts + 1 })
  transfer_turn t (arrival src bytes) =
      let buffer = received bytes in
      let u = record t { attempts = 0; client = src } in
      if ltb 0 (length buffer) && (in_cksum buffer == 0) then on_packet u buffer else ok u

  -- The main loop over what happens at its waits. It stands still when the list is used up.
  unfoldable pub transfer_loop : List Event → Transfer → Result Transfer
  transfer_loop [] t = ok t
  transfer_loop (e ∷ es) t = elim (transfer_runs t) [
    | true ↦ transfer_turn t e >>= λ u. transfer_loop es u
    | false ↦ ok t
  ]

  unfoldable pub initial_window : Transfer → Result Transfer
  initial_window t = loop initial_round (suc t.wb.window_size) t

  -- `transferData` on a file that `fopen` has opened, or not (`none`). What it sends and where it
  -- stands is the result; the window is freed and the file closed.
  unfoldable pub transfer_data :
      Malloc → Option File → Address → ℕ → ℕ → ℕ → List Event → Result (Option Transfer)
  transfer_data malloc none client attempts winSize bufSize events = ok none
  transfer_data malloc (some file) client attempts winSize bufSize events = do
    wb ← init_window malloc winSize bufSize
    let start : Transfer = record {
      client = client;
      attempts = attempts;
      wb = wb;
      file = file;
      next_seq = 0;
      base = 0;
      eof_seq = 0;
      eof_sent = false;
      eof_acked = false;
      sent = [];
    }
    t ← initial_window start
    u ← transfer_loop events t
    ok (some u)
