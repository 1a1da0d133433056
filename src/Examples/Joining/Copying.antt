-- ===== src/Examples/Joining/Copying.antt =====
-- Tests of both programs from the request on.
use rcopy.Base.{pos, ◌≡◌, inl, inr, refl, arith, true, false, [], ◌∷◌}
use rcopy.Base.Loop.{loop}
use rcopy.Internet.{internet, internet_sum}
use rcopy.Net.{arrival}
use rcopy.Window.{init_window, reset_panes, pane_index, read_pane, write_pane, slide_window}
use rcopy.Wire.{htonl, read_header, copy_payload, checked_packet, build_pdu}
use rcopy.Server.Transfer.{
  read_chunk, send_data_packet, send_eof_packet, initial_round, initial_window, transfer_turn,
  on_rr, resend, refill, refill_round, send_next_data, transfer_runs,
}
use rcopy.Server.Transfer as ServerOf
use rcopy.Rcopy.Receive as ClientOf
use rcopy.Rcopy.Receive.{
  receive_turn, on_data, on_eof, deliver, deliver_round, send_rr, send_eof, send_srej,
}
use rcopy.Rcopy.Program.{Arguments}
use rcopy.Protocol.{System, Leads, stay, go, client_turn, brings}
use rcopy.Protocol.Routed.{IsRouted, Leads-trans}
use rcopy.Rcopy.Handshake.{state_done}
use rcopy.Session.{IsServed, IsStart, Runs, come_to}
use rcopy.Session.Correct.{programs_run, programs_copy}
use rcopy.Examples.{heap, heap-IsAllocator, small_file, small_config}
use rcopy.Examples.Meeting.{every_file, only_file, idle}
use rcopy.Examples.Joining.{nth, first, asked}

-- A client that wants the file `abc` with a window of 2 and buffers of 2 bytes.
abbrev wanting : Arguments
wanting = record {
  server_filename = b'a' ∷ b'b' ∷ b'c' ∷ [];
  rcopy_filename = b'd' ∷ [];
  windowsize = pos 2;
  buffersize = pos 2;
  remote_machine = b'h' ∷ [];
  port_number = pos 8;
}

there : IsServed every_file only_file small_file (b'a' ∷ b'b' ∷ b'c' ∷ [])
there = record {
  text = (refl, (refl, (refl, tt)));
  short = omega arith;
  there = refl;
  opens = refl;
}

ready : IsStart internet heap heap 2 2 small_file 9 5 first.0
unfolding read_header copy_payload checked_packet build_pdu internet_sum htonl init_window
    reset_panes initial_window initial_round loop read_chunk send_data_packet send_eof_packet
    pane_index read_pane write_pane first
ready = record { wb = _; cwb = _; made = refl; client_made = refl; filled = refl; waiting = refl }

-- The client takes the second packet, and asks for the first.
path : Leads internet first.0 asked.0
unfolding read_header copy_payload checked_packet build_pdu internet_sum htonl init_window
    reset_panes initial_window initial_round loop read_chunk send_data_packet send_eof_packet
    pane_index read_pane write_pane first receive_turn ClientOf.on_packet on_data on_eof deliver
    deliver_round send_rr send_eof send_srej transfer_turn ServerOf.on_packet on_rr resend refill
    refill_round send_next_data slide_window asked
path = go stay (
    client_turn (arrival 5 (nth first.0.child.sent 1).packet) _ refl (brings 5 _ (inr (inl refl)))
      refl)

programs_run_example : Runs internet every_file only_file heap heap 19 9 wanting idle 9 8 5 3 path
programs_run_example =
    programs_run internet every_file only_file heap heap 19 9 wanting small_config small_file there
      idle 9 8 5 3 (omega arith) first.0 asked.0 ready path

programs_copy_example :
    (u : System) × (further : Leads internet asked.0 u) × IsRouted internet 9 5 further
    × (come_to u.client ≡ state_done)
    × (transfer_runs u.child ≡ false)
    × Runs internet every_file only_file heap heap 19 9 wanting idle 9 8 5 3
        (Leads-trans internet path further)
    × (u.child.eof_acked ≡ true)
    × (u.client.output ≡ small_file)
unfolding read_header copy_payload checked_packet build_pdu internet_sum htonl init_window
    reset_panes initial_window initial_round loop read_chunk send_data_packet send_eof_packet
    pane_index read_pane write_pane first receive_turn ClientOf.on_packet on_data on_eof deliver
    deliver_round send_rr send_eof send_srej transfer_turn ServerOf.on_packet on_rr resend refill
    refill_round send_next_data slide_window asked
programs_copy_example =
    programs_copy internet every_file only_file heap heap 19 9 wanting small_config small_file there
      idle 9 8 5 3 (omega arith) 2 first.0 asked.0 refl (omega arith) heap-IsAllocator
      heap-IsAllocator ready path (inr (omega arith)) (omega arith) (refl, refl)
