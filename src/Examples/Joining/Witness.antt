-- ===== src/Examples/Joining/Witness.antt =====
-- Tests of the theorems on both programs, at states of one run.
use rcopy.Base.{All, ◌*◌, ◌≤◌, ◌≡◌, ◌⊎◌, inl, inr, refl, arith, true, false, ◌++◌, drop, ok}
use rcopy.Base.Loop.{loop}
use rcopy.Internet.{internet, internet_sum}
use rcopy.Net.{arrival}
use rcopy.Window.{init_window, reset_panes, pane_index, read_pane, write_pane, slide_window}
use rcopy.Wire.{htonl, read_header, copy_payload, checked_packet, build_pdu}
use rcopy.Server.Transfer.{
  Transfer, transfer_data, read_chunk, send_data_packet, send_eof_packet, initial_round,
  initial_window, transfer_turn, on_rr, resend, refill, refill_round, send_next_data,
}
use rcopy.Server.Transfer as ServerOf
use rcopy.Rcopy.Receive as ClientOf
use rcopy.Rcopy.Receive.{
  Receive, state_file_receive, receive_turn, on_data, on_eof, deliver, deliver_round, send_rr,
  send_eof, send_srej,
}
use rcopy.Protocol.{System, Leads, brings}
use rcopy.Protocol.Agree.{SentFor}
use rcopy.Protocol.Correct.{child_returns, client_returns, copied, acknowledged, stale_or_honest}
use rcopy.Protocol.Routed.{IsRouted}
use rcopy.Protocol.Complete.{can_complete}
use rcopy.Spec.Last.{EndsAt, whole-EndsAt}
use rcopy.Examples.{heap, heap-IsAllocator, small_file, small_config}
use rcopy.Examples.Joining.{nth, first, asked, repeated, delivered, ending, complete, over}

ends_at_2 : EndsAt 2 2 small_file 2
ends_at_2 = whole-EndsAt 2 2 small_file 2 (omega arith) refl

output_complete : (over.0.client.output ≡ small_file) × (over.0.child.eof_acked ≡ true)
unfolding read_header copy_payload checked_packet build_pdu internet_sum htonl init_window
    reset_panes initial_window initial_round loop read_chunk send_data_packet send_eof_packet
    pane_index read_pane write_pane first receive_turn ClientOf.on_packet on_data on_eof deliver
    deliver_round send_rr send_eof send_srej transfer_turn ServerOf.on_packet on_rr resend refill
    refill_round send_next_data slide_window asked repeated delivered ending complete over
output_complete = (refl, refl)

child_returns_example :
    (u : Transfer) × (transfer_turn internet asked.0.child
        (arrival 9 (nth asked.0.client.sent 0).packet)
      ≡ ok u)
unfolding read_header copy_payload checked_packet build_pdu internet_sum htonl init_window
    reset_panes initial_window initial_round loop read_chunk send_data_packet send_eof_packet
    pane_index read_pane write_pane first receive_turn ClientOf.on_packet on_data on_eof deliver
    deliver_round send_rr send_eof send_srej transfer_turn ServerOf.on_packet on_rr resend refill
    refill_round send_next_data slide_window asked
child_returns_example =
    child_returns internet small_config small_file 2 ends_at_2 (omega arith) heap heap
      heap-IsAllocator heap-IsAllocator asked.0 (arrival 9 (nth asked.0.client.sent 0).packet)
      asked.1 (brings 9 _ (inl refl))

client_returns_example :
    (u : Receive) × (receive_turn internet repeated.0.client
        (arrival 5 (nth repeated.0.child.sent 2).packet)
      ≡ ok u)
unfolding read_header copy_payload checked_packet build_pdu internet_sum htonl init_window
    reset_panes initial_window initial_round loop read_chunk send_data_packet send_eof_packet
    pane_index read_pane write_pane first receive_turn ClientOf.on_packet on_data on_eof deliver
    deliver_round send_rr send_eof send_srej transfer_turn ServerOf.on_packet on_rr resend refill
    refill_round send_next_data slide_window asked repeated
client_returns_example =
    client_returns internet small_config small_file 2 ends_at_2 (omega arith) heap heap
      heap-IsAllocator heap-IsAllocator repeated.0 (arrival 5 (nth repeated.0.child.sent 2).packet)
      repeated.1 refl (brings 5 _ (inr (inr (inl refl))))

copied_example :
    ((complete.0.client.eof ≡ true) × (complete.0.client.output ≡ small_file))
    ⊎ ((complete.0.client.eof ≡ false)
        × (complete.0.client.output ++ drop (complete.0.client.expected_seq * 2) small_file
            ≡ small_file))
copied_example =
    copied internet small_config small_file 2 refl (omega arith) heap heap heap-IsAllocator
      heap-IsAllocator complete.0 complete.1

acknowledged_example :
    (over.0.child.base ≤ over.0.client.expected_seq)
    × ((over.0.child.eof_acked ≡ false) ⊎ (over.0.client.output ≡ small_file))
acknowledged_example =
    acknowledged internet small_config small_file 2 refl (omega arith) heap heap heap-IsAllocator
      heap-IsAllocator over.0 over.1

stale_or_honest_example :
    All
      (SentFor internet small_config small_file 2 ends_at_2 over.0.client.expected_seq
        over.0.child.next_seq)
      over.0.child.sent
stale_or_honest_example =
    stale_or_honest internet small_config small_file 2 ends_at_2 (omega arith) heap heap
      heap-IsAllocator heap-IsAllocator over.0 over.1

can_complete_example :
    (t : System) × (path : Leads internet first.0 t) × IsRouted internet 9 5 path
    × (t.child.eof_acked ≡ true)
    × (t.client.eof ≡ true)
    × (t.client.output ≡ small_file)
unfolding read_header copy_payload checked_packet build_pdu internet_sum htonl init_window
    reset_panes initial_window initial_round loop read_chunk send_data_packet send_eof_packet
    pane_index read_pane write_pane first receive_turn ClientOf.on_packet on_data on_eof deliver
    deliver_round send_rr send_eof send_srej transfer_turn ServerOf.on_packet on_rr resend refill
    refill_round send_next_data slide_window
can_complete_example =
    can_complete internet small_config small_file 2 refl (omega arith) heap heap heap-IsAllocator
      heap-IsAllocator 9 5 first.0 first.1 (inr (omega arith)) (omega arith) (refl, refl)
