-- ===== src/Rcopy/Receive/Correct.antt =====
-- `stateFileReceive` as a whole: what has become of the file when it returns.
use rcopy.Base.{
  ℕ, ◌+◌, ◌*◌, ◌≤◌, ◌<◌, ◌≡◌, ◌⊎◌, inl, inr, true, false, none, List, ◌++◌, length, drop, ok, stop,
  exit_failure,
}
use rcopy.Checksum.{Checksum}
use rcopy.Net.{Event}
use rcopy.Spec.{IsConfig}
use rcopy.Window.{Malloc, IsAllocator, WindowBuffer, init_window}
use rcopy.Wire.{Address}
use rcopy.Rcopy.Receive.{Receive, state_file_receive}
use rcopy.Rcopy.Receive.Receiving.{anyone}
use rcopy.Rcopy.Receive.Round.{FairRun, starting, state_file_receive-Receiving}
use rcopy.Rcopy.Receive.Output.{output_correct, length-output}

-- For a file of `count` full chunks, window and buffer sizes in range, an allocator that gives what
-- it is asked for, and events whose intact packets are fair (a full header; a packet that ends the
-- file, if it has the number expected, comes where less than a chunk of the file is left, and
-- brings that or nothing; any other packet that falls into the window brings its chunk; the numbers
-- of the window stay below the one that marks an empty pane): `stateFileReceive` ends the program
-- for want of memory, or returns without a fault. Then the output is the file if the packet that
-- ends it was taken, and otherwise the front of the file, as far as the number expected says.
pub receive_correct :
    (ck : Checksum) {window size : ℕ} (c : IsConfig window size) (bytes : List ℕ) (count : ℕ)
    → length bytes ≡ count * size
    → (malloc : Malloc) (server : Address) (events : List Event) → IsAllocator malloc
    → ((wb : WindowBuffer)
        → init_window malloc window size ≡ ok wb
        → FairRun ck c bytes events (starting window wb server))
    → let run = state_file_receive ck malloc true server window size false events in
      ((malloc window ≡ none) × (run ≡ stop exit_failure))
      ⊎ ((s : Receive) × (run ≡ ok s)
          × (((s.eof ≡ true) × (s.output ≡ bytes))
              ⊎ ((s.eof ≡ false) × (s.output ++ drop (s.expected_seq * size) bytes ≡ bytes))))
receive_correct ck c bytes count whole malloc server events a fair =
    elim (state_file_receive-Receiving ck c bytes malloc server events a fair) [
      | inl stopped ↦ inl stopped
      | inr (s, e, r) ↦ inr (s, e, output_correct c bytes count whole ck anyone 0 s r)
    ]

-- For window and buffer sizes in range, a file of any length, an allocator that gives what it is
-- asked for, and events whose intact packets are fair (a full header; a packet that ends the file,
-- if it has the number expected, comes where less than a chunk of the file is left, and brings that
-- or nothing; any other packet that falls into the window brings its chunk; the numbers of the
-- window stay below the one that marks an empty pane): `stateFileReceive` ends the program for want
-- of memory, or returns without a fault. Then the output has the size of as many full buffers as
-- the number expected says, even if the last chunk was shorter, and after the packet that ends the
-- file less than a buffer more; less than a buffer of the file is left then.
pub receive_length :
    (ck : Checksum) {window size : ℕ} (c : IsConfig window size) (bytes : List ℕ) (malloc : Malloc)
    (server : Address) (events : List Event)
    → IsAllocator malloc
    → ((wb : WindowBuffer)
        → init_window malloc window size ≡ ok wb
        → FairRun ck c bytes events (starting window wb server))
    → let run = state_file_receive ck malloc true server window size false events in
      ((malloc window ≡ none) × (run ≡ stop exit_failure))
      ⊎ ((s : Receive) × (run ≡ ok s)
          × (((s.eof ≡ false) × (length s.output ≡ s.expected_seq * size))
              ⊎ ((s.eof ≡ true)
                  × (length (drop (s.expected_seq * size) bytes) < size)
                  × (s.expected_seq * size ≤ length s.output)
                  × (length s.output < s.expected_seq * size + size))))
receive_length ck c bytes malloc server events a fair =
    elim (state_file_receive-Receiving ck c bytes malloc server events a fair) [
      | inl stopped ↦ inl stopped
      | inr (s, e, r) ↦ inr (s, e, length-output c bytes ck anyone 0 s r)
    ]
