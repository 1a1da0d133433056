-- ===== src/Examples/Stray.antt =====
-- Test of a late answer to the file name.
use rcopy.Base.{
  ℕ, zero, suc, length, ap, sym, eq_of_some, ◌<◌, ◌≡◌, refl, arith, some, [], ◌∷◌, take, get_elem?,
  replicate, ok,
}
use rcopy.Internet.{internet, internet_sum}
use rcopy.Net.{arrival}
use rcopy.Window.{Pane, WindowBuffer, max_int_32}
use rcopy.Window.Panes.{IsSized, IsBlank}
use rcopy.Wire.{htonl, read_header, checked_packet, copy_payload}
use rcopy.Rcopy.Handshake.{text_ok}
use rcopy.Server.Client.{ack_header}
use rcopy.Rcopy.Receive.{Receive, receive_turn}
use rcopy.Rcopy.Receive.Round.{starting}
use rcopy.Rcopy.Receive.Stray.{late_answer}
use rcopy.Examples.{small_config}

abbrev empty_pane : Pane
empty_pane = record { seq_num = max_int_32; content = replicate 1400 0 }

abbrev empty_window : WindowBuffer
empty_window = record {
  panes = empty_pane ∷ empty_pane ∷ [];
  window_size = 2;
  buffer_size = 2;
  lower = 0;
  curr_index = 0;
  upper = 1;
}

empty-IsSized : IsSized 2 2 empty_window
empty-IsSized = record { window_size = refl; buffer_size = refl; count = refl; room = room }
  where
    room : (i : ℕ) (p : Pane) → get_elem? empty_window.panes i ≡ some p → length p.content ≡ 1400
    room zero p e = ap (λ (q : Pane). length q.content) (sym (eq_of_some e))
    room (suc zero) p e = ap (λ (q : Pane). length q.content) (sym (eq_of_some e))
    room (suc (suc i)) p e = cc

empty-IsBlank : IsBlank empty_window
empty-IsBlank zero p e = ap (λ (q : Pane). q.seq_num) (sym (eq_of_some e))
empty-IsBlank (suc zero) p e = ap (λ (q : Pane). q.seq_num) (sym (eq_of_some e))
empty-IsBlank (suc (suc i)) p e = cc

late_answer_example :
    (u : Receive) × (receive_turn internet
        (starting 2 empty_window 5)
        (arrival 8 (checked_packet internet ack_header text_ok))
      ≡ ok u)
    × (0 < u.expected_seq)
    × (take 2 u.output ≡ text_ok)
unfolding read_header htonl checked_packet copy_payload internet_sum
late_answer_example =
    late_answer internet small_config empty_window 5 8 (checked_packet internet ack_header text_ok)
      _ empty-IsSized empty-IsBlank (omega arith) refl refl refl refl refl
