-- ===== src/Examples/Joining/Odd.antt =====
-- Tests of both programs with a file of three bytes, in buffers of two: the second chunk is not full.
use rcopy.Base.{
  ◌≤◌, ◌&&◌, ◌==◌, ℕ, zero, suc, ◌*◌, ◌<◌, ◌≡◌, ◌⊎◌, inl, inr, refl, arith, true, false, List, [],
  ◌∷◌, length, drop,
}
use rcopy.Base.Loop.{loop}
use rcopy.Internet.{internet, internet_sum}
use rcopy.Net.{arrival}
use rcopy.Spec.Last.{EndsAt}
use rcopy.Window.{init_window, reset_panes, pane_index, read_pane, write_pane}
use rcopy.Wire.{htonl, read_header, copy_payload, checked_packet, build_pdu}
use rcopy.Server.Transfer.{
  read_chunk, send_data_packet, send_eof_packet, initial_round, initial_window,
}
use rcopy.Rcopy.Receive as ClientOf
use rcopy.Rcopy.Receive.{
  receive_turn, on_data, on_eof, deliver, deliver_round, send_rr, send_eof, send_srej,
}
use rcopy.Rcopy.Receive.Prefix.{IsCopy, IsWritten}
use rcopy.Protocol.{stay, go, System, Leads, Reach, begins, next, client_turn, brings}
use rcopy.Protocol.Correct.{copied_any}
use rcopy.Protocol.Abstract.{Moves, blank}
use rcopy.Protocol.Refine.{view, refines_copying}
use rcopy.Protocol.Bounds.{window_kept}
use rcopy.Protocol.Complete.{can_end}
use rcopy.Protocol.Routed.{IsRouted}
use rcopy.Server.Transfer.Serving.{Holds}
use rcopy.Examples.{heap, heap-IsAllocator, small_config}
use rcopy.Examples.Joining.{nth}

abbrev odd_file : List ℕ
odd_file = b'a' ∷ b'b' ∷ b'c' ∷ []

-- The last chunk goes out with the first window, as a data packet.
odd_end : EndsAt 2 2 odd_file 2
odd_end = record {
  before = before;
  past = omega arith;
  early = λ h. omega arith;
  late = λ h. absurd (omega arith);
}
  where
    before : (k : ℕ) → k < 2 → k * 2 < 3
    before zero lt = omega arith
    before (suc zero) lt = omega arith
    before (suc (suc k)) lt = absurd (omega arith)

abbrev OddReached : System → Type 0
OddReached = Reach internet heap heap 2 2 odd_file

-- The child has sent both chunks and the end.
abbrev odd_first : (s : System) × OddReached s
unfolding init_window reset_panes initial_window initial_round loop read_chunk send_data_packet
    send_eof_packet pane_index read_pane write_pane copy_payload checked_packet build_pdu
    internet_sum htonl
odd_first = (_, begins _ _ 9 5 0 _ refl refl refl)

-- The client takes the first chunk, and then the second.
abbrev odd_one : (s : System) × OddReached s
unfolding read_header copy_payload checked_packet build_pdu internet_sum htonl init_window
    reset_panes initial_window initial_round loop read_chunk send_data_packet send_eof_packet
    pane_index read_pane write_pane odd_first receive_turn ClientOf.on_packet on_data on_eof deliver
    deliver_round send_rr send_eof send_srej
odd_one = (
  _,
  next odd_first.1 (
      client_turn (arrival 5 (nth odd_first.0.child.sent 0).packet) _ refl (brings 5 _ (inl refl))
        refl),
)

abbrev odd_two : (s : System) × OddReached s
unfolding read_header copy_payload checked_packet build_pdu internet_sum htonl init_window
    reset_panes initial_window initial_round loop read_chunk send_data_packet send_eof_packet
    pane_index read_pane write_pane odd_first receive_turn ClientOf.on_packet on_data on_eof deliver
    deliver_round send_rr send_eof send_srej odd_one
odd_two = (
  _,
  next odd_one.1 (
      client_turn (arrival 5 (nth odd_one.0.child.sent 1).packet) _ refl
        (brings 5 _ (inr (inl refl))) refl),
)

-- A byte of the client's pane is left over at the end of the output.
odd_output : odd_two.0.client.output ≡ b'a' ∷ b'b' ∷ b'c' ∷ 0xee ∷ []
unfolding read_header copy_payload checked_packet build_pdu internet_sum htonl init_window
    reset_panes initial_window initial_round loop read_chunk send_data_packet send_eof_packet
    pane_index read_pane write_pane odd_first receive_turn ClientOf.on_packet on_data on_eof deliver
    deliver_round send_rr send_eof send_srej odd_one odd_two
odd_output = refl

window_kept_example :
    (odd_two.0.child.wb.lower ≡ 0)
    × (odd_two.0.child.wb.upper ≡ 1)
    × ((1 < odd_two.0.child.base)
        ⊎ (odd_two.0.child.next_seq ≤ 1)
        ⊎ ((odd_two.0.child.eof_sent && (1 == odd_two.0.child.eof_seq)) ≡ true)
        ⊎ Holds 2 2 odd_file odd_two.0.child.wb.panes 1)
unfolding read_header copy_payload checked_packet build_pdu internet_sum htonl init_window
    reset_panes initial_window initial_round loop read_chunk send_data_packet send_eof_packet
    pane_index read_pane write_pane odd_first receive_turn ClientOf.on_packet on_data on_eof deliver
    deliver_round send_rr send_eof send_srej odd_one odd_two
window_kept_example =
    window_kept internet small_config odd_file 2 odd_end (omega arith) heap heap heap-IsAllocator
      heap-IsAllocator odd_two.0 1 odd_two.1

path : Leads internet odd_one.0 odd_two.0
unfolding read_header copy_payload checked_packet build_pdu internet_sum htonl init_window
    reset_panes initial_window initial_round loop read_chunk send_data_packet send_eof_packet
    pane_index read_pane write_pane odd_first receive_turn ClientOf.on_packet on_data on_eof deliver
    deliver_round send_rr send_eof send_srej odd_one odd_two
path = go stay (
    client_turn (arrival 5 (nth odd_one.0.child.sent 1).packet) _ refl (brings 5 _ (inr (inl refl)))
      refl)

refines_copying_example :
    Moves 2 blank (view odd_one.0)
    × Moves 2 (view odd_one.0) (view odd_two.0)
    × IsWritten 2 odd_file (view odd_two.0).written odd_two.0.client.output
refines_copying_example =
    refines_copying internet small_config odd_file 2 odd_end (omega arith) heap heap
      heap-IsAllocator heap-IsAllocator odd_one.0 odd_two.0 odd_one.1 path

copied_any_example :
    IsCopy 2 odd_file odd_two.0.client.expected_seq odd_two.0.client.output
    × ((odd_two.0.client.eof ≡ false)
        ⊎ (length (drop (odd_two.0.client.expected_seq * 2) odd_file) < 2))
    × ((odd_two.0.child.eof_acked ≡ false) ⊎ (odd_two.0.client.eof ≡ true))
copied_any_example =
    copied_any internet small_config odd_file 2 odd_end (omega arith) heap heap heap-IsAllocator
      heap-IsAllocator odd_two.0 odd_two.1

can_end_example :
    (t : System) × (path : Leads internet odd_two.0 t) × IsRouted internet 9 5 path
    × (t.child.eof_acked ≡ true)
    × (t.client.eof ≡ true)
    × IsCopy 2 odd_file t.client.expected_seq t.client.output
    × (length (drop (t.client.expected_seq * 2) odd_file) < 2)
unfolding read_header copy_payload checked_packet build_pdu internet_sum htonl init_window
    reset_panes initial_window initial_round loop read_chunk send_data_packet send_eof_packet
    pane_index read_pane write_pane odd_first receive_turn ClientOf.on_packet on_data on_eof deliver
    deliver_round send_rr send_eof send_srej odd_one odd_two
can_end_example =
    can_end internet small_config odd_file 2 odd_end (omega arith) heap heap heap-IsAllocator
      heap-IsAllocator 9 5 odd_two.0 odd_two.1 (inr (omega arith)) (omega arith) (refl, refl)
