-- ===== src/Examples/Joining.antt =====
-- Tests of both programs at once: a child and a client that copy a file of two chunks.
mod Copying
mod Odd
mod Witness
use rcopy.Base.{
  All, ℕ, zero, suc, ◌+◌, length, ◌*◌, ◌≤◌, ◌≡◌, ◌⊎◌, inl, inr, refl, arith, true, false, List, [],
  ◌∷◌, ◌++◌, drop, ok,
}
use rcopy.Base.Loop.{loop}
use rcopy.Internet.{internet, internet_sum}
use rcopy.Net.{arrival}
use rcopy.Window.{init_window, reset_panes, pane_index, read_pane, write_pane, slide_window}
use rcopy.Wire.{Datagram, htonl, read_header, copy_payload, checked_packet, build_pdu}
use rcopy.Server.Transfer.{
  Transfer, read_chunk, send_data_packet, send_eof_packet, initial_round, initial_window,
  transfer_turn, on_rr, resend, refill, refill_round, send_next_data,
}
use rcopy.Server.Transfer as ServerOf
use rcopy.Rcopy.Receive as ClientOf
use rcopy.Rcopy.Receive.{
  Receive, receive_turn, on_data, on_eof, deliver, deliver_round, send_rr, send_eof, send_srej,
}
use rcopy.Protocol.{System, Leads, Reach, begins, next, child_turn, client_turn, brings}
use rcopy.Protocol.Agree.{SentFor}
use rcopy.Protocol.Correct.{child_returns, client_returns, copied, acknowledged, stale_or_honest}
use rcopy.Protocol.Complete.{can_complete}
use rcopy.Examples.{heap, heap-IsAllocator, small_file, small_config}

abbrev Reached : System → Type 0
Reached = Reach internet heap heap 2 2 small_file

-- Packet `n` of those sent.
abbrev nth : List Datagram → ℕ → Datagram
nth [] n = record { dest = 0; packet = [] }
nth (d ∷ ds) zero = d
nth (d ∷ ds) (suc n) = nth ds n

-- The child has sent both chunks.
abbrev first : (s : System) × Reached s
unfolding init_window reset_panes initial_window initial_round loop read_chunk send_data_packet
    send_eof_packet pane_index read_pane write_pane copy_payload checked_packet build_pdu
    internet_sum htonl
first = (_, begins _ _ 9 5 0 _ refl refl refl)

-- The client takes the second, and asks for the first.
abbrev asked : (s : System) × Reached s
unfolding read_header copy_payload checked_packet build_pdu internet_sum htonl init_window
    reset_panes initial_window initial_round loop read_chunk send_data_packet send_eof_packet
    pane_index read_pane write_pane first receive_turn ClientOf.on_packet on_data on_eof deliver
    deliver_round send_rr send_eof send_srej transfer_turn ServerOf.on_packet on_rr resend refill
    refill_round send_next_data slide_window
asked = (
  _,
  next first.1 (
      client_turn (arrival 5 (nth first.0.child.sent 1).packet) _ refl (brings 5 _ (inr (inl refl)))
        refl),
)

-- The child sends the first again.
abbrev repeated : (s : System) × Reached s
unfolding read_header copy_payload checked_packet build_pdu internet_sum htonl init_window
    reset_panes initial_window initial_round loop read_chunk send_data_packet send_eof_packet
    pane_index read_pane write_pane first receive_turn ClientOf.on_packet on_data on_eof deliver
    deliver_round send_rr send_eof send_srej transfer_turn ServerOf.on_packet on_rr resend refill
    refill_round send_next_data slide_window asked
repeated = (
  _,
  next asked.1 (
      child_turn (arrival 9 (nth asked.0.client.sent 0).packet) _ refl (brings 9 _ (inl refl))
        refl),
)

-- The client takes it, and both are delivered.
abbrev delivered : (s : System) × Reached s
unfolding read_header copy_payload checked_packet build_pdu internet_sum htonl init_window
    reset_panes initial_window initial_round loop read_chunk send_data_packet send_eof_packet
    pane_index read_pane write_pane first receive_turn ClientOf.on_packet on_data on_eof deliver
    deliver_round send_rr send_eof send_srej transfer_turn ServerOf.on_packet on_rr resend refill
    refill_round send_next_data slide_window asked repeated
delivered = (
  _,
  next repeated.1 (
      client_turn (arrival 5 (nth repeated.0.child.sent 2).packet) _ refl
        (brings 5 _ (inr (inr (inl refl)))) refl),
)

-- The child slides its window and sends the end.
abbrev ending : (s : System) × Reached s
unfolding read_header copy_payload checked_packet build_pdu internet_sum htonl init_window
    reset_panes initial_window initial_round loop read_chunk send_data_packet send_eof_packet
    pane_index read_pane write_pane first receive_turn ClientOf.on_packet on_data on_eof deliver
    deliver_round send_rr send_eof send_srej transfer_turn ServerOf.on_packet on_rr resend refill
    refill_round send_next_data slide_window asked repeated delivered
ending = (
  _,
  next delivered.1 (
      child_turn (arrival 9 (nth delivered.0.client.sent 1).packet) _ refl
        (brings 9 _ (inr (inl refl))) refl),
)

-- The client takes the end.
abbrev complete : (s : System) × Reached s
unfolding read_header copy_payload checked_packet build_pdu internet_sum htonl init_window
    reset_panes initial_window initial_round loop read_chunk send_data_packet send_eof_packet
    pane_index read_pane write_pane first receive_turn ClientOf.on_packet on_data on_eof deliver
    deliver_round send_rr send_eof send_srej transfer_turn ServerOf.on_packet on_rr resend refill
    refill_round send_next_data slide_window asked repeated delivered ending
complete = (
  _,
  next ending.1 (
      client_turn (arrival 5 (nth ending.0.child.sent 3).packet) _ refl
        (brings 5 _ (inr (inr (inr (inl refl))))) refl),
)

-- The child hears of it.
abbrev over : (s : System) × Reached s
unfolding read_header copy_payload checked_packet build_pdu internet_sum htonl init_window
    reset_panes initial_window initial_round loop read_chunk send_data_packet send_eof_packet
    pane_index read_pane write_pane first receive_turn ClientOf.on_packet on_data on_eof deliver
    deliver_round send_rr send_eof send_srej transfer_turn ServerOf.on_packet on_rr resend refill
    refill_round send_next_data slide_window asked repeated delivered ending complete
over = (
  _,
  next complete.1 (
      child_turn (arrival 9 (nth complete.0.client.sent 2).packet) _ refl
        (brings 9 _ (inr (inr (inl refl)))) refl),
)
