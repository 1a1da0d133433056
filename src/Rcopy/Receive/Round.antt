-- ===== src/Rcopy/Receive/Round.antt =====
-- One round of the main loop of `stateFileReceive`, and the whole loop.
use rcopy.Base.{
  ℕ, ◌+◌, ◌%◌, ◌≤◌, ◌<◌, ◌≡◌, ◌≢◌, ◌⊎◌, inl, inr, refl, arith, Bool, true, false, ◌&&◌, List, [],
  ◌∷◌, length, drop, length-take, length-drop, u32, leb, ltb, ◌==◌, ==_iff, Bool-cases, ok, stop,
  exit_failure, Returns, Returns-eq, none,
}
use rcopy.Checksum.{Checksum}
use rcopy.Net.{Event, timeout, arrival, received}
use rcopy.Spec.{IsConfig}
use rcopy.Window.{Malloc, IsAllocator, WindowBuffer, max_int_32, init_window}
use rcopy.Window.Panes.{IsSized, IsBlank, init_window_lem}
use rcopy.Wire.{PduHeader, Address, htonl, read_header, header_size}
use rcopy.Rcopy.Receive.{
  Receive, on_packet, receive_turn, receive_runs, receive_loop, state_file_receive,
}
use rcopy.Rcopy.Receive.Receiving.{Peer, anyone, IsLast, Fronts, nothing}
use rcopy.Rcopy.Receive.Replies.{
  IsReceiving, Receiving-with, rr-Receiving, srej-Receiving, on_eof-Receiving,
}
use rcopy.Rcopy.Receive.Data.{on_data-Receiving}

-- The state in which `stateFileReceive` comes to its loop.
abbrev pub starting : ℕ → WindowBuffer → Address → Receive
starting window wb server = record {
  server = server;
  windowsize = window;
  attempts = 0;
  eof = false;
  wb = wb;
  expected_seq = 0;
  output = [];
  sent = [];
}

module _ (ck : Checksum) {window size : ℕ} (c : IsConfig window size) (bytes : List ℕ) where
  open ck use {in_cksum}

  -- A packet of full header. The one that ends the file brings the end, and any other that falls
  -- into the window brings its chunk of the file.
  abbrev pub FairPacket : Receive → List ℕ → Type 0
  FairPacket s packet =
      (h : PduHeader) × (read_header packet ≡ ok h)
      × (h.flag ≡ 10
          → htonl h.seq ≡ s.expected_seq
          → IsLast window size bytes s.expected_seq (drop header_size packet))
      × (h.flag ≢ 10
          → s.expected_seq ≤ htonl h.seq
          → htonl h.seq < s.expected_seq + window
          → Fronts window size bytes (htonl h.seq) (drop header_size packet))

  -- What passes the checksum test is fair; nothing is asked of the rest. The sequence numbers of
  -- the window stay below the one that marks an empty pane.
  abbrev pub Fair : Receive → Event → Type 0
  Fair s timeout = Unit
  Fair s (arrival src packet) =
      in_cksum (received packet) ≡ 0
      → (s.expected_seq + window < max_int_32) × FairPacket s (received packet)

  -- Every event that the loop comes to is fair in the state that it meets.
  abbrev pub FairRun : List Event → Receive → Type 0
  FairRun [] s = Unit
  FairRun (e ∷ es) s =
      receive_runs s ≡ true → Fair s e × ((u : Receive) → receive_turn ck s e ≡ ok u → FairRun es u)

pub runs_open : (s : Receive) → receive_runs s ≡ true → s.eof ≡ false
runs_open s h = ground arith

module _ (ck : Checksum) {window size : ℕ} (c : IsConfig window size) (bytes : List ℕ) (peer : Peer)
    (since : ℕ) where
  open ck use {in_cksum}

  -- Where the packet may be answered by an SREJ, it may ask for the packet expected, and data and the
  -- end come at numbers at which they may.
  abbrev pub MayAsk : Receive → Event → Type 0
  MayAsk s timeout = Unit
  MayAsk s (arrival src packet) =
      (in_cksum (received packet) ≢ 0 → peer.Asked s.expected_seq)
      × (in_cksum (received packet) ≡ 0
          → (h : PduHeader) → read_header (received packet) ≡ ok h
          → (h.flag ≡ 10 → htonl h.seq ≢ s.expected_seq → peer.Asked s.expected_seq)
            × (h.flag ≢ 10 → s.expected_seq < htonl h.seq → peer.Asked s.expected_seq)
            × (h.flag ≢ 10 → s.expected_seq ≤ htonl h.seq → peer.Chunk (htonl h.seq))
            × (h.flag ≡ 10 → htonl h.seq ≡ s.expected_seq → peer.End s.expected_seq))

  on_packet-Receiving :
      (s : Receive) (packet : List ℕ)
      → IsReceiving ck c bytes peer since s
      → s.eof ≡ false
      → length packet ≤ 1407
      → s.expected_seq + window < max_int_32
      → FairPacket ck c bytes s packet
      → ((h : PduHeader)
          → read_header packet ≡ ok h
          → (h.flag ≡ 10 → htonl h.seq ≢ s.expected_seq → peer.Asked s.expected_seq)
            × (h.flag ≢ 10 → s.expected_seq < htonl h.seq → peer.Asked s.expected_seq)
            × (h.flag ≢ 10 → s.expected_seq ≤ htonl h.seq → peer.Chunk (htonl h.seq))
            × (h.flag ≡ 10 → htonl h.seq ≡ s.expected_seq → peer.End s.expected_seq))
      → Returns (IsReceiving ck c bytes peer since) (on_packet ck s packet)
  unfolding on_packet
  on_packet-Receiving s packet r open_yet short fits (h, e, last, front) ask =
      rw e (elim (Bool-cases (h.flag == 10)) [
        | inl ten ↦ rw ten (
            on_eof-Receiving ck c bytes peer since s (htonl h.seq) (drop header_size packet) r
              open_yet (last ((==_iff h.flag 10).0 ten)) ((ask h e).3 ((==_iff h.flag 10).0 ten))
              ((ask h e).0 ((==_iff h.flag 10).0 ten)))
        | inr other ↦ rw other (elim (Bool-cases inside) [
          | inl within ↦
              let (low, high) = bounds within in
              rw within (
                on_data-Receiving ck c bytes peer since s r open_yet (htonl h.seq)
                  (drop header_size packet) low high (omega (arith, length-drop header_size packet))
                  fits ((ask h e).2 (λ ten. not_ten other ten) low)
                  (front (λ ten. not_ten other ten) low high)
                  ((ask h e).1 (λ ten. not_ten other ten)))
          | inr outside ↦ rw outside (elim (Bool-cases (ltb (htonl h.seq) s.expected_seq)) [
            | inl old ↦ rw old (rr-Receiving ck c bytes peer since s r)
            | inr ahead ↦ rw ahead (
                srej-Receiving ck c bytes peer since s r
                  ((ask h e).1 (λ ten. not_ten other ten) (past outside ahead)))
          ])
        ])
      ])
    where
      inside : Bool
      inside =
          leb s.expected_seq (htonl h.seq)
          && ltb (htonl h.seq) (u32 (s.expected_seq + s.windowsize))

      bounds :
          inside ≡ true → (s.expected_seq ≤ htonl h.seq) × (htonl h.seq < s.expected_seq + window)
      bounds within = ground (arith, r.same_window)

      past :
          inside ≡ false → ltb (htonl h.seq) s.expected_seq ≡ false → s.expected_seq < htonl h.seq
      past outside ahead = ground (arith, r.same_window, c.window_pos, c.window_max)

      not_ten : (h.flag == 10) ≡ false → h.flag ≢ 10
      not_ten other ten = ground arith

  -- A round of the main loop keeps the invariant.
  pub receive_turn-Receiving :
      (s : Receive) (e : Event)
      → IsReceiving ck c bytes peer since s
      → s.eof ≡ false
      → Fair ck c bytes s e
      → MayAsk s e
      → Returns (IsReceiving ck c bytes peer since) (receive_turn ck s e)
  unfolding receive_turn
  receive_turn-Receiving s timeout r open_yet f ask =
      rr-Receiving ck c bytes peer since (record s { attempts = s.attempts + 1 })
        (Receiving-with ck c bytes peer since s (s.attempts + 1) s.sent r r.told r.replies)
  receive_turn-Receiving s (arrival src packet) r open_yet f ask =
      let heard : IsReceiving ck c bytes peer since (record s { attempts = 0 }) =
        Receiving-with ck c bytes peer since s 0 s.sent r r.told r.replies in
      elim (Bool-cases (in_cksum (received packet) == 0)) [
        | inl intact ↦
            let (fits, fair) = f ((==_iff _ 0).0 intact) in
            rw intact (
              on_packet-Receiving (record s { attempts = 0 }) (received packet) heard open_yet
                (omega (arith, length-take 1407 packet)) fits fair (ask.1 ((==_iff _ 0).0 intact)))
        | inr corrupt ↦ rw corrupt (
            srej-Receiving ck c bytes peer since (record s { attempts = 0 }) heard
              (ask.0 (broken corrupt)))
      ]
    where
      broken : (in_cksum (received packet) == 0) ≡ false → in_cksum (received packet) ≢ 0
      broken corrupt intact = ground arith

  pub starting-Receiving :
      (wb : WindowBuffer) (server : Address)
      → IsSized window size wb
      → IsBlank wb
      → since ≤ 0
      → IsReceiving ck c bytes peer since (starting window wb server)
  starting-Receiving wb server s blank z = record {
    sized = s;
    grown = z;
    same_window = refl;
    stored = λ i p at. inl (blank i p at);
    gap = λ p at e. omega (arith, blank (0 % window) p at);
    written = λ e. nothing;
    finished = λ e. cc;
    ended = λ e. cc;
    told = λ e. cc;
    replies = tt;
  }

module _ (ck : Checksum) {window size : ℕ} (c : IsConfig window size) (bytes : List ℕ) where
  open ck use {in_cksum}

  -- With nothing asked of the SREJs.
  pub free : (s : Receive) (e : Event) → MayAsk ck c bytes anyone 0 s e
  free s timeout = tt
  free s (arrival src packet) =
      (λ bad. tt, λ intact h e. ((λ ten ne. tt), (λ n10 lt. tt), (λ n10 low. tt), (λ ten here. tt)))

  pub receive_loop-Receiving :
      (es : List Event) (s : Receive)
      → IsReceiving ck c bytes anyone 0 s
      → FairRun ck c bytes es s
      → Returns (IsReceiving ck c bytes anyone 0) (receive_loop ck es s)
  unfolding receive_loop
  receive_loop-Receiving [] s r f = r
  receive_loop-Receiving (e ∷ es) s r f = elim (Bool-cases (receive_runs s)) [
    | inr over ↦ rw (over, receive_loop) r
    | inl runs ↦
        let (u, eq, ru) = Returns-eq (IsReceiving ck c bytes anyone 0) (receive_turn ck s e) (
          receive_turn-Receiving ck c bytes anyone 0 s e r (runs_open s runs) (f runs).0
            (free s e)) in
        rw (runs, receive_loop, eq) (receive_loop-Receiving es u ru ((f runs).1 u eq))
  ]

  -- A whole reception over fair events: the program ends for want of memory, or it runs without a
  -- fault, ends each of its loops, and keeps the invariant.
  pub state_file_receive-Receiving :
      (malloc : Malloc) (server : Address) (events : List Event)
      → IsAllocator malloc
      → ((wb : WindowBuffer)
          → init_window malloc window size ≡ ok wb
          → FairRun ck c bytes events (starting window wb server))
      → let run = state_file_receive ck malloc true server window size false events in
        ((malloc window ≡ none) × (run ≡ stop exit_failure))
        ⊎ ((s : Receive) × (run ≡ ok s) × IsReceiving ck c bytes anyone 0 s)
  unfolding state_file_receive
  state_file_receive-Receiving malloc server events a fair =
      elim (init_window_lem malloc window size a) [
        | inl (e, no_memory) ↦ inl (e, rw no_memory)
        | inr (wb, e, s, blank) ↦
            let (u, eu, ru) =
              Returns-eq (IsReceiving ck c bytes anyone 0)
                (receive_loop ck events (starting window wb server))
                (receive_loop-Receiving events (starting window wb server)
                  (starting-Receiving ck c bytes anyone 0 wb server s blank (omega arith))
                  (fair wb e)) in
            inr (u, rw (e, eu), ru)
      ]
