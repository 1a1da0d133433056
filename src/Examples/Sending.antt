-- ===== src/Examples/Sending.antt =====
-- Tests of the server's side.
use rcopy.Base.{
  All, zero, suc, replicate, Returns, get_elem?, eq_of_some, sym, ap, ℕ, ◌+◌, ◌*◌, ◌≡◌, ◌⊎◌, refl,
  arith, false, none, some, List, [], ◌∷◌, length, stop, exit_failure, ok,
}
use rcopy.Internet.{internet}
use rcopy.Net.{Event, timeout, arrival, File}
use rcopy.Wire.{read_header, htonl}
use rcopy.Window.{Pane}
use rcopy.Server.Transfer.{
  Transfer, transfer_data, transfer_loop, transfer_runs, retransmit_packets,
}
use rcopy.Server.Transfer.GiveUp.{silent_loop}
use rcopy.Server.Transfer.Resend.{AddsEach, retransmit-AddsEach}
use rcopy.Server.Transfer.Packets.{Truthful}
use rcopy.Server.Transfer.Serving.{Serving, HoldsLast}
use rcopy.Server.Transfer.Correct.{transfer_safe, transfer-Truthful}
use rcopy.Server.Transfer.Reference.{IsReference, sends-IsReference}
use rcopy.Examples.{heap, heap-IsAllocator, small_file, small_config, rr_1}

abbrev events : List Event
events = timeout ∷ arrival 9 rr_1 ∷ []

transfer_safe_example :
    let file : File = record { rest = small_file; eof = false } in
    let run = transfer_data internet heap (some file) 9 0 2 2 events in
    ((heap 2 ≡ none) × (run ≡ stop exit_failure))
    ⊎ ((u : Transfer) × (run ≡ ok (some u)) × Serving 2 2 small_file u)
unfolding read_header htonl
transfer_safe_example =
    transfer_safe internet small_config small_file heap 9 0 events heap-IsAllocator
      (λ wb t made ready running. (
        tt,
        λ u turned runs. (
          λ intact.
              (_, refl, (λ five ahead. omega arith), (λ six. absurd (omega arith)), λ ten. tt),
          λ v more. tt,
        ),
      ))

transfer-Truthful_example :
    let file : File = record { rest = small_file; eof = false } in
    let run = transfer_data internet heap (some file) 9 0 2 2 events in
    ((heap 2 ≡ none) × (run ≡ stop exit_failure))
    ⊎ ((u : Transfer) × (run ≡ ok (some u)) × All (Truthful internet 2 small_file) u.sent)
unfolding read_header htonl
transfer-Truthful_example =
    transfer-Truthful internet small_config small_file heap 9 0 events heap-IsAllocator
      (λ wb t made ready running. (
        tt,
        λ u turned runs. (
          λ intact.
              (_, refl, (λ five ahead. omega arith), (λ six. absurd (omega arith)), λ ten. tt),
          λ v more. tt,
        ),
      ))

-- A child that has sent its first window of the small file, and heard nothing for four seconds.
-- What is left of the file is `tail`.
abbrev pub filled_before : List ℕ → Transfer
filled_before tail = record {
  client = 9;
  attempts = 4;
  wb = record {
    panes =
        record { seq_num = 0; content = b'a' ∷ b'b' ∷ replicate 1398 0 }
        ∷ record { seq_num = 1; content = b'c' ∷ b'd' ∷ replicate 1398 0 }
        ∷ [];
    window_size = 2;
    buffer_size = 2;
    lower = 0;
    curr_index = 0;
    upper = 1;
  };
  file = record { rest = tail; eof = false };
  next_seq = 2;
  base = 0;
  eof_seq = 0;
  eof_sent = false;
  eof_acked = false;
  sent = [];
}

pub filled_before-Serving :
    (tail : List ℕ) → Serving 2 2 (b'a' ∷ b'b' ∷ b'c' ∷ b'd' ∷ tail) (filled_before tail)
filled_before-Serving tail = record {
  sized = record { window_size = refl; buffer_size = refl; count = refl; room = room };
  framed = (refl, omega arith);
  filled = 2;
  held = held;
  reach = omega arith;
  fits = omega arith;
  inside = λ k lt h. omega arith;
  reading = λ e. (refl, refl, refl);
  ended = λ e. cc;
}
  where
    room :
        (i : ℕ) (p : Pane)
        → get_elem? (filled_before tail).wb.panes i ≡ some p
        → length p.content ≡ 1400
    room zero p e = ap (λ (q : Pane). length q.content) (sym (eq_of_some e))
    room (suc zero) p e = ap (λ (q : Pane). length q.content) (sym (eq_of_some e))
    room (suc (suc i)) p e = cc

    held : HoldsLast 2 2 (b'a' ∷ b'b' ∷ b'c' ∷ b'd' ∷ tail) (filled_before tail).wb.panes 2
    held zero lt near = (_, refl, refl)
    held (suc zero) lt near = (_, refl, refl)
    held (suc (suc k)) lt near = absurd (omega arith)

abbrev filled : Transfer
filled = filled_before []

filled-Serving : Serving 2 2 small_file filled
filled-Serving = filled_before-Serving []

silent_loop_example :
    Returns
      (λ u. (transfer_runs u ≡ false) × (length u.sent ≡ 0 + 6 * 2))
      (transfer_loop internet (replicate 6 timeout) filled)
silent_loop_example =
    silent_loop internet small_config small_file 6 filled filled-Serving (omega arith) refl refl

retransmit-AddsEach_example :
    Returns
      (AddsEach internet small_config small_file (λ k b. Unit) 0 2 filled)
      (retransmit_packets internet filled)
retransmit-AddsEach_example =
    retransmit-AddsEach internet small_config small_file filled filled-Serving (omega arith)

sends-IsReference_example :
    let file : File = record { rest = small_file; eof = false } in
    let run = transfer_data internet heap (some file) 9 0 2 2 events in
    ((heap 2 ≡ none) × (run ≡ stop exit_failure))
    ⊎ ((u : Transfer) × (run ≡ ok (some u))
        × All (IsReference internet small_config small_file 2 refl) u.sent)
unfolding read_header htonl
sends-IsReference_example =
    sends-IsReference internet small_config small_file 2 refl heap 9 0 events heap-IsAllocator
      (λ wb t made ready running. (
        tt,
        λ u turned runs. (
          λ intact.
              (_, refl, (λ five ahead. omega arith), (λ six. absurd (omega arith)), λ ten. tt),
          λ v more. tt,
        ),
      ))
