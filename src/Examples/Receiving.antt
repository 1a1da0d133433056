-- ===== src/Examples/Receiving.antt =====
-- Tests of the client's side and of the packets.
use rcopy.Base.{
  replicate, ℕ, ◌+◌, ◌*◌, ◌≤◌, ◌<◌, length, ◌≡◌, ◌⊎◌, refl, arith, true, false, none, some, List,
  [], ◌∷◌, ◌++◌, drop, stop, exit_failure, ok,
}
use rcopy.Internet.{internet}
use rcopy.Net.{Event, timeout, arrival}
use rcopy.Wire.{read_header, htonl, send_pdu, header_size}
use rcopy.Wire.RoundTrip.{packet_received, htonl-htonl}
use rcopy.Rcopy.Receive.{Receive, receive_loop, receive_runs, state_file_receive}
use rcopy.Rcopy.Receive.Correct.{receive_correct, receive_length}
use rcopy.Rcopy.Receive.Round.{starting}
use rcopy.Rcopy.Receive.GiveUp.{after_silence, client_gives_up}
use rcopy.Examples.{dirty, heap, heap-IsAllocator, small_file, small_config, data_0}

abbrev events : List Event
events = arrival 9 data_0 ∷ timeout ∷ []

receive_correct_example :
    let run = state_file_receive internet heap true 9 2 2 false events in
    ((heap 2 ≡ none) × (run ≡ stop exit_failure))
    ⊎ ((s : Receive) × (run ≡ ok s)
        × (((s.eof ≡ true) × (s.output ≡ small_file))
            ⊎ ((s.eof ≡ false) × (s.output ++ drop (s.expected_seq * 2) small_file ≡ small_file))))
unfolding read_header htonl
receive_correct_example =
    receive_correct internet small_config small_file 2 refl heap 9 events heap-IsAllocator
      (λ wb made running. (
        λ intact. (
          omega arith,
          (_, refl, (λ ten. absurd (omega arith)), λ other low high. (omega arith, refl)),
        ),
        λ u turned runs. (tt, λ v more. tt),
      ))

packet_received_example :
    (p : List ℕ) × (send_pdu internet
        (some 9)
        (some 5)
        (record { seq = 1; checksum = 0; flag = 16 })
        (some small_file)
        3
      ≡ ok (some 9, record { dest = 5; packet = p } ∷ []))
    × (internet.in_cksum p ≡ 0)
    × ((c : ℕ) × (read_header p ≡ ok (record { seq = 1; checksum = c; flag = 16 })))
    × (drop header_size p ≡ b'a' ∷ b'b' ∷ b'c' ∷ [])
packet_received_example =
    packet_received internet (some 9) 5 (record { seq = 1; checksum = 0; flag = 16 }) small_file 3
      refl (omega arith) (omega arith) (omega arith) (omega arith)

htonl-htonl_example : htonl (htonl 0x0102_0304) ≡ 0x0102_0304
htonl-htonl_example = htonl-htonl 0x0102_0304 (omega arith)

-- A file that ends inside a chunk.
abbrev odd_file : List ℕ
odd_file = b'a' ∷ b'b' ∷ b'c' ∷ []

receive_length_example :
    let run = state_file_receive internet heap true 9 2 2 false events in
    ((heap 2 ≡ none) × (run ≡ stop exit_failure))
    ⊎ ((s : Receive) × (run ≡ ok s)
        × (((s.eof ≡ false) × (length s.output ≡ s.expected_seq * 2))
            ⊎ ((s.eof ≡ true)
                × (length (drop (s.expected_seq * 2) odd_file) < 2)
                × (s.expected_seq * 2 ≤ length s.output)
                × (length s.output < s.expected_seq * 2 + 2))))
unfolding read_header htonl
receive_length_example =
    receive_length internet small_config odd_file heap 9 events heap-IsAllocator (λ wb made running.
      (
        λ intact. (
          omega arith,
          (_, refl, (λ ten. absurd (omega arith)), λ other low high. (omega arith, refl)),
        ),
        λ u turned runs. (tt, λ v more. tt),
      ))

-- A client that has heard nothing for seven seconds.
abbrev waiting : Receive
waiting =
    record (starting 2
      (record {
        panes = dirty ∷ dirty ∷ [];
        window_size = 2;
        buffer_size = 2;
        lower = 0;
        curr_index = 0;
        upper = 1;
      })
      9) { attempts = 7 }

client_gives_up_example :
    (receive_loop internet (replicate 3 timeout ++ events) waiting
      ≡ ok (after_silence internet 3 waiting))
    × (receive_runs (after_silence internet 3 waiting) ≡ false)
client_gives_up_example = client_gives_up internet 3 waiting events refl refl
