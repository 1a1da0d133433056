-- ===== src/Protocol/Correct.antt =====
-- A whole transfer of a file, from one program to the other.
use rcopy.Base.{
  All, Bool-cases, ℕ, ◌+◌, ◌*◌, ◌≤◌, ◌<◌, ◌≡◌, ◌⊎◌, inl, inr, sym, subst, ◌∙◌, arith, true, false,
  List, ◌++◌, length, drop, Returns, Returns-eq, ok, ok-inj,
}
use rcopy.Checksum.{Checksum}
use rcopy.Net.{Event}
use rcopy.Spec.{IsConfig, window_fits}
use rcopy.Spec.Last.{EndsAt, whole-EndsAt}
use rcopy.Window.{Malloc, IsAllocator, WindowBuffer, init_window, max_int_32}
use rcopy.Window.Panes.{init_window-IsFramed, IsSized, IsBlank, init_window_lem}
use rcopy.Wire.{Address}
use rcopy.Server.Transfer.{Transfer, transfer_turn, initial_window}
use rcopy.Server.Transfer.Start as Server
use rcopy.Server.Transfer.Start.{initial_window-Good, starting-Filling}
use rcopy.Rcopy.Receive.{Receive, receive_runs, receive_turn}
use rcopy.Rcopy.Receive.Round as Client
use rcopy.Rcopy.Receive.Round.{starting-Receiving}
use rcopy.Rcopy.Receive.Output.{output_correct}
use rcopy.Rcopy.Receive.Prefix.{IsCopy, output-IsCopy}
use rcopy.Protocol.{System, ToChild, ToClient, Step, Reach, child_turn, client_turn, begins, next}
use rcopy.Protocol.Agree.{child_at, SentFor, Agree, serving_terms}
use rcopy.Protocol.Turns.{child_turn-Agree, client_turn-Agree}

module _ (malloc : Malloc) (window size : ℕ) (a : IsAllocator malloc) where
  -- What an allocation that has succeeded has made.
  made :
      (wb : WindowBuffer)
      → init_window malloc window size ≡ ok wb
      → IsSized window size wb × IsBlank wb
  made wb e = elim (init_window_lem malloc window size a) [
    | inl (nothing, failed) ↦ absurd cc
    | inr (w, e', sized, blank) ↦
        subst (λ (v : WindowBuffer). IsSized window size v × IsBlank v) (ok-inj w wb (sym e' ∙ e))
          (sized, blank)
  ]

module _ (ck : Checksum) {window size : ℕ} (c : IsConfig window size) (bytes : List ℕ) (top : ℕ)
    (at : EndsAt window size bytes top) (small : top + window < max_int_32)
    (server_malloc client_malloc : Malloc) (sa : IsAllocator server_malloc)
    (ca : IsAllocator client_malloc) where
  abbrev pub Reached : System → Type 0
  Reached s = Reach ck server_malloc client_malloc window size bytes s

  pub begins-Agree :
      (wb cwb : WindowBuffer) (client server : Address) (attempts : ℕ) (t : Transfer)
      → init_window server_malloc window size ≡ ok wb
      → init_window client_malloc window size ≡ ok cwb
      → initial_window ck (Server.starting bytes wb client attempts) ≡ ok t
      → Agree ck c bytes top at (record { child = t; client = Client.starting window cwb server })
        × (t.base ≡ 0)
  begins-Agree wb cwb client server attempts t e ce ready =
      let (sized, blank) = made server_malloc window size sa wb e in
      let (csized, cblank) = made client_malloc window size ca cwb ce in
      let terms = serving_terms ck c bytes top at 0 0 0 false in
      let (u, eu, filled) =
        Returns-eq (Server.Filled ck c bytes terms)
          (initial_window ck (Server.starting bytes wb client attempts))
          (initial_window-Good ck c bytes terms (Server.starting bytes wb client attempts) (
            starting-Filling ck c bytes terms wb client attempts sized
              (init_window-IsFramed server_malloc window size wb c.window_pos c.window_max e)
              (omega arith) (omega arith, window_fits c, omega arith))) in
      let filled_t =
        subst (λ (v : Transfer). Server.Filled ck c bytes terms v) (ok-inj u t (sym eu ∙ ready))
          filled in
      (
        record {
          serving = filled_t.0;
          hearing =
              starting-Receiving ck c bytes (child_at top t.next_seq) 0 cwb server csized cblank
                (omega arith);
          refilled = filled_t.2;
        },
        filled_t.1,
      )

  abbrev ChildKeeps : System → Transfer → Type 0
  ChildKeeps s u = Agree ck c bytes top at (record s { child = u }) × (s.child.base ≤ u.base)

  abbrev ClientKeeps : System → Receive → Type 0
  ClientKeeps s u =
      Agree ck c bytes top at (record s { client = u }) × (s.client.expected_seq ≤ u.expected_seq)

  -- A step keeps the agreement, and neither side falls back.
  pub Step-Agree :
      {s t : System}
      → Step ck s t
      → Agree ck c bytes top at s
      → Agree ck c bytes top at t
        × (s.child.base ≤ t.child.base)
        × (s.client.expected_seq ≤ t.client.expected_seq)
  Step-Agree {s} (child_turn e u runs h turned) a =
      let (b, far) =
        subst (λ r. Returns (ChildKeeps s) r) turned
          (child_turn-Agree ck c bytes top at small s e a h) in
      (b, far, omega arith)
  Step-Agree {s} (client_turn e u runs h turned) a =
      let (b, far) =
        subst (λ r. Returns (ClientKeeps s) r) turned
          (client_turn-Agree ck c bytes top at small s e a runs h) in
      (b, omega arith, far)

  pub Reach-Agree : {s : System} → Reached s → Agree ck c bytes top at s
  Reach-Agree (begins wb cwb client server attempts t e ce ready) =
      (begins-Agree wb cwb client server attempts t e ce ready).0
  Reach-Agree (next r step) = (Step-Agree step (Reach-Agree r)).0

  -- For any file, with the number at which its transfer ends, window and buffer sizes in range with
  -- the numbers of the window behind that number below the one that marks an empty pane, and
  -- allocators that give what they are asked for: in every state that a child and a client reach
  -- over a network that loses, repeats, delays and reorders packets, and corrupts them in ways that
  -- the checksum test finds, where no corrupt packet reaches a client whose packet expected has not
  -- been sent, the child's next round returns without a fault, whatever it hears: nothing, a packet
  -- of the client, or bytes that do not pass the checksum test.
  pub child_returns :
      (s : System) (e : Event)
      → Reached s
      → ToChild ck s e
      → (u : Transfer) × (transfer_turn ck s.child e ≡ ok u)
  child_returns s e r h =
      let (u, eq, g) =
        Returns-eq (ChildKeeps s) (transfer_turn ck s.child e)
          (child_turn-Agree ck c bytes top at small s e (Reach-Agree r) h) in
      (u, eq)

  -- For any file, with the number at which its transfer ends, window and buffer sizes in range with
  -- the numbers of the window behind that number below the one that marks an empty pane, and
  -- allocators that give what they are asked for: in every state that a child and a client reach
  -- over a network that loses, repeats, delays and reorders packets, and corrupts them in ways that
  -- the checksum test finds, where no corrupt packet reaches a client whose packet expected has not
  -- been sent, the client's next round, if its loop runs, returns without a fault, whatever it
  -- hears: nothing, a packet of the child, or, while the packet expected has been sent, bytes that
  -- do not pass the checksum test.
  pub client_returns :
      (s : System) (e : Event)
      → Reached s
      → receive_runs s.client ≡ true
      → ToClient ck s e
      → (u : Receive) × (receive_turn ck s.client e ≡ ok u)
  client_returns s e r runs h =
      let (u, eq, g) =
        Returns-eq (ClientKeeps s) (receive_turn ck s.client e)
          (client_turn-Agree ck c bytes top at small s e (Reach-Agree r) runs h) in
      (u, eq)

  -- For any file, with the number at which its transfer ends, window and buffer sizes in range with
  -- the numbers of the window behind that number below the one that marks an empty pane, and
  -- allocators that give what they are asked for: in every state that a child and a client reach
  -- over a network that loses, repeats, delays and reorders packets, and corrupts them in ways that
  -- the checksum test finds, where no corrupt packet reaches a client whose packet expected has not
  -- been sent, the output agrees with the file as far as both go, lacks nothing or all behind the
  -- chunks before the packet expected, and is longer by less than a buffer; if the client has taken
  -- the end, less than a buffer of the file lies behind these chunks; and the child has not taken
  -- the end for acknowledged, or the client has taken it.
  pub copied_any :
      (s : System)
      → Reached s
      → IsCopy size bytes s.client.expected_seq s.client.output
        × ((s.client.eof ≡ false) ⊎ (length (drop (s.client.expected_seq * size) bytes) < size))
        × ((s.child.eof_acked ≡ false) ⊎ (s.client.eof ≡ true))
  copied_any s r =
      let a = Reach-Agree r in
      let (copy, short) =
        output-IsCopy c bytes ck (child_at top s.child.next_seq) 0 s.client a.hearing in
      (
        copy,
        short,
        elim (Bool-cases s.child.eof_acked) [
          | inr not_yet ↦ inl not_yet
          | inl over ↦ inr (a.serving.finished over)
        ],
      )

  -- For any file, with the number at which its transfer ends, window and buffer sizes in range with
  -- the numbers of the window behind that number below the one that marks an empty pane, and
  -- allocators that give what they are asked for: in every state that a child and a client reach
  -- over a network that loses, repeats, delays and reorders packets, and corrupts them in ways that
  -- the checksum test finds, where no corrupt packet reaches a client whose packet expected has not
  -- been sent, every packet that the child has sent has a number before its next one, and is an
  -- honest packet of that number, or a data packet of a number that the client is past.
  pub stale_or_honest :
      (s : System)
      → Reached s
      → All (SentFor ck c bytes top at s.client.expected_seq s.child.next_seq) s.child.sent
  stale_or_honest s r = (Reach-Agree r).serving.truthful

module _ (ck : Checksum) {window size : ℕ} (c : IsConfig window size) (bytes : List ℕ) (count : ℕ)
    (whole : length bytes ≡ count * size) (small : count + window < max_int_32)
    (server_malloc client_malloc : Malloc) (sa : IsAllocator server_malloc)
    (ca : IsAllocator client_malloc) where
  abbrev IsReached : System → Type 0
  IsReached s = Reach ck server_malloc client_malloc window size bytes s

  agreed :
      {s : System}
      → IsReached s
      → Agree ck c bytes count (whole-EndsAt window size bytes count c.size_pos whole) s
  agreed r =
      Reach-Agree ck c bytes count (whole-EndsAt window size bytes count c.size_pos whole) small
        server_malloc client_malloc sa ca r

  -- For a file of `count` full chunks, window and buffer sizes in range with the numbers of the
  -- last window below the one that marks an empty pane, and allocators that give what they are
  -- asked for: in every state that a child and a client reach over a network that loses,
  -- repeats, delays and reorders packets, and corrupts them in ways that the checksum test
  -- finds, where no corrupt packet reaches a client whose packet expected has not been sent,
  -- the output of the client is the file if it has taken the end, and otherwise the front of
  -- the file, as far as the number expected says.
  pub copied :
      (s : System)
      → IsReached s
      → ((s.client.eof ≡ true) × (s.client.output ≡ bytes))
        ⊎ ((s.client.eof ≡ false)
            × (s.client.output ++ drop (s.client.expected_seq * size) bytes ≡ bytes))
  copied s r =
      output_correct c bytes count whole ck (child_at count s.child.next_seq) 0 s.client
        (agreed r).hearing

  -- For a file of `count` full chunks, window and buffer sizes in range with the numbers of the
  -- last window below the one that marks an empty pane, and allocators that give what they are
  -- asked for: in every state that a child and a client reach over a network that loses,
  -- repeats, delays and reorders packets, and corrupts them in ways that the checksum test
  -- finds, where no corrupt packet reaches a client whose packet expected has not been sent,
  -- the child has slid its window over no packet that the client has not delivered; and it has
  -- not taken the end for acknowledged, or the client's output is the file.
  pub acknowledged :
      (s : System)
      → IsReached s
      → (s.child.base ≤ s.client.expected_seq)
        × ((s.child.eof_acked ≡ false) ⊎ (s.client.output ≡ bytes))
  acknowledged s r = (
    (agreed r).serving.acked.0,
    elim (Bool-cases s.child.eof_acked) [
      | inr not_yet ↦ inl not_yet
      | inl done ↦ elim (copied s r) [
        | inl (over, all) ↦ inr all
        | inr (running, part) ↦ let over = (agreed r).serving.finished done in absurd cc
      ]
    ],
  )
