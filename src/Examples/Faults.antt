-- ===== src/Examples/Faults.antt =====
-- Tests of what goes wrong with sizes taken unchecked, and with packets sent again.
use rcopy.Base.{
  ℕ, true, List, take, ◌++◌, ok, Returns, ◌≡◌, refl, arith, some, [], ◌∷◌, false, replicate, stop,
  div_by_zero, out_of_bounds,
}
use rcopy.Internet.{internet, internet_sum}
use rcopy.Net.{arrival}
use rcopy.Wire.{read_header, htonl}
use rcopy.Server.Transfer.{Transfer, transfer_data, transfer_turn, resend, send_next_data}
use rcopy.Server.Transfer.Packets.{data_packet}
use rcopy.Server.Transfer.Repeats.{unsent_repeated, last_chunk_dropped}
use rcopy.Examples.Sending.{filled_before, filled_before-Serving}
use rcopy.Server.Transfer.Faults.{zero_window, large_buffer}
use rcopy.Examples.{small_config, dirty, heap, heap-IsAllocator, small_file, rr_1}

zero_window_example :
    transfer_data internet heap
      (some (record { rest = small_file; eof = false }))
      9
      0
      0
      2
      (arrival 9 rr_1 ∷ [])
    ≡ stop div_by_zero
unfolding read_header htonl internet_sum
zero_window_example =
    zero_window internet heap small_file 9 0 2 [] 9 rr_1 _ [] refl (omega arith) (omega arith) refl
      refl refl (omega arith)

large_buffer_example :
    transfer_data internet heap
      (some (record { rest = replicate 1401 7; eof = false }))
      9
      0
      2
      1401
      []
    ≡ stop out_of_bounds
large_buffer_example =
    large_buffer internet heap (replicate 1401 7) 9 0 2 1401 (replicate 2 dirty) [] heap-IsAllocator
      refl (omega arith) (omega arith) (omega arith)

-- The child has sent the chunks `ab` and `cd`, and `e` is left.
abbrev five_bytes : List ℕ
five_bytes = b'a' ∷ b'b' ∷ b'c' ∷ b'd' ∷ b'e' ∷ []

abbrev at_e : Transfer
at_e = filled_before (b'e' ∷ [])

-- An SREJ for packet 2.
abbrev srej_2 : List ℕ
srej_2 = 0 ∷ 0 ∷ 0 ∷ 2 ∷ 0x5d ∷ 0x65 ∷ 6 ∷ b'S' ∷ b'R' ∷ b'E' ∷ b'J' ∷ []

unsent_repeated_example :
    (body : List ℕ) × (transfer_turn internet at_e (arrival 8 srej_2)
      ≡ ok (record at_e {
        attempts = 0;
        client = 8;
        sent = data_packet internet 8 2 false body ∷ [];
      }))
    × (take 2 body ≡ b'a' ∷ b'b' ∷ [])
unfolding read_header htonl internet_sum
unsent_repeated_example =
    unsent_repeated internet small_config five_bytes at_e 8 srej_2 _
      (filled_before-Serving (b'e' ∷ [])) refl (omega arith) (omega arith) refl refl refl refl

last_chunk_dropped_example :
    (u : Transfer) × (send_next_data internet at_e ≡ ok u)
    × (u.sent ≡ data_packet internet 9 2 true (b'e' ∷ []) ∷ [])
    × Returns
        (λ v. v.sent ≡ u.sent ++ (data_packet internet 9 2 true [] ∷ []))
        (resend internet u 2)
last_chunk_dropped_example =
    last_chunk_dropped internet small_config five_bytes at_e (filled_before-Serving (b'e' ∷ []))
      refl (omega arith)
