-- ===== src/Server/Transfer/Faults.antt =====
-- What becomes of a transfer with sizes that `processClient` takes from the packet unchecked.
use rcopy.Base.{
  ℕ, ◌+◌, ◌<◌, ◌≡◌, refl, arith, true, false, some, List, ◌∷◌, length, get_elem?_of_lt, take,
  length-take, inl, inr, u32, ltb, leb, lt→ltb, ok, stop, div_by_zero, out_of_bounds,
}
use rcopy.Base.Loop.{loop}
use rcopy.Checksum.{Checksum}
use rcopy.Net.{Event, arrival, received}
use rcopy.Window.{
  Malloc, IsAllocator, Pane, pane_index, init_window, slide_window, write_pane, read_pane,
}
use rcopy.Window.Panes.{init_window_lem}
use rcopy.Wire.{Address, PduHeader, htonl, read_header}
use rcopy.Wire.RoundTrip.{htonl-lt}
use rcopy.Server.Transfer.{
  transfer_data, initial_window, initial_round, read_chunk, transfer_loop, transfer_turn, on_packet,
  on_rr, refill, refill_round, send_next_data,
}

-- For a window size of 0, an allocator that has a block for it, fewer than ten attempts made, and as
-- the first event an intact packet of full header that acknowledges a number above 0, whatever the
-- file, the buffer size and the events that follow: `transferData` divides by zero.
pub zero_window :
    (ck : Checksum) (malloc : Malloc) (bytes : List ℕ) (client attempts size : ℕ)
    (block : List Pane) (src : Address) (packet : List ℕ) (h : PduHeader) (events : List Event)
    → malloc 0 ≡ some block
    → attempts < 10
    → 0 < length (received packet)
    → ck.in_cksum (received packet) ≡ 0
    → read_header (received packet) ≡ ok h
    → h.flag ≡ 5
    → 0 < htonl h.seq
    → transfer_data ck malloc
        (some (record { rest = bytes; eof = false }))
        client
        attempts
        0
        size
        (arrival src packet ∷ events)
      ≡ stop div_by_zero
unfolding transfer_data init_window initial_window loop initial_round transfer_loop transfer_turn
    on_packet on_rr refill refill_round send_next_data pane_index slide_window
zero_window ck malloc bytes client attempts size block src packet h events room few some_bytes
      intact read five ahead =
    let runs : ltb attempts 10 ≡ true = lt→ltb _ _ few in
    let heard : ltb 0 (length (received packet)) ≡ true = lt→ltb _ _ some_bytes in
    let up : ltb 0 (htonl h.seq) ≡ true = lt→ltb _ _ ahead in
    let limit : ltb 0 (u32 (htonl h.seq + 0)) ≡ true = lt→ltb _ _ (omega (arith, htonl-lt h.seq)) in
    rw
      (
        room, transfer_loop, runs, transfer_turn, heard, intact, on_packet, read, five, on_rr, up,
        refill, loop, refill_round, limit,
      )
      refl

-- For a window of at least one packet, a buffer size above 1400, an allocator that gives what it is
-- asked for and has a block for the window, and a file of more than 1400 bytes, whatever the events:
-- `transferData` writes past the end of a pane.
pub large_buffer :
    (ck : Checksum) (malloc : Malloc) (bytes : List ℕ) (client attempts window size : ℕ)
    (block : List Pane) (events : List Event)
    → IsAllocator malloc
    → malloc window ≡ some block
    → 0 < window
    → 1400 < size
    → 1400 < length bytes
    → transfer_data ck malloc
        (some (record { rest = bytes; eof = false }))
        client
        attempts
        window
        size
        events
      ≡ stop out_of_bounds
unfolding transfer_data initial_window loop initial_round read_chunk write_pane read_pane
large_buffer ck malloc bytes client attempts window size block events a room some_window large
      long =
    elim (init_window_lem malloc window size a) [
      | inl (nothing, failed) ↦ absurd cc
      | inr (wb, e, sized, blank) ↦
          let (p, at) = get_elem?_of_lt wb.panes 0 (omega (arith, sized.count)) in
          let below : ltb 0 wb.window_size ≡ true = lt→ltb _ _ (omega (arith, sized.window_size)) in
          let wide : leb (length (take wb.buffer_size bytes)) 1400 ≡ false =
            ground (arith, length-take wb.buffer_size bytes, sized.buffer_size) in
          rw
            (
              e, initial_window, loop, initial_round, below, read_chunk, write_pane, read_pane, at,
              wide,
            )
            refl
    ]
