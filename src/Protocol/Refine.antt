-- ===== src/Protocol/Refine.antt =====
-- The two programs joined do what the abstract transfer does.
use rcopy.Base.{
  ℕ, ◌+◌, ◌-◌, ◌≤◌, ◌<◌, ◌≡◌, sym, subst, ◌∙◌, arith, true, false, inl, inr, Bool-cases, List,
}
use rcopy.Checksum.{Checksum}
use rcopy.Spec.{IsConfig}
use rcopy.Spec.Last.{EndsAt}
use rcopy.Window.{Malloc, IsAllocator, max_int_32}
use rcopy.Server.Transfer.{Transfer, transfer_runs}
use rcopy.Rcopy.Receive.{Receive}
use rcopy.Rcopy.Receive.Round.{runs_open}
use rcopy.Rcopy.Receive.Output.{expected_le}
use rcopy.Rcopy.Receive.Prefix.{IsWritten, output-IsWritten}
use rcopy.Protocol.{Reach, System, Step, child_turn, client_turn, Leads, stay, go, begins, next}
use rcopy.Protocol.Abstract.{
  Copying, blank, Moves, Moves-trans, none_yet, more, finish, close, write_many, release_many,
}
use rcopy.Protocol.Agree.{child_at, Agree}
use rcopy.Protocol.Correct.{Reach-Agree, Step-Agree, begins-Agree}
use rcopy.Protocol.Complete.{Leads-Reached}

-- What the abstract transfer sees of the two programs.
abbrev pub view : System → Copying
view s = record {
  written = s.client.expected_seq;
  ended = s.client.eof;
  released = s.child.base;
  closed = s.child.eof_acked;
}

child_open : (t : Transfer) → transfer_runs t ≡ true → t.eof_acked ≡ false
child_open t runs = ground arith

module _ (ck : Checksum) {window size : ℕ} (c : IsConfig window size) (bytes : List ℕ) (top : ℕ)
    (at : EndsAt window size bytes top) (small : top + window < max_int_32) where
  child-Moves :
      (s : System) (u : Transfer)
      → Agree ck c bytes top at (record s { child = u })
      → s.child.base ≤ u.base
      → s.child.eof_acked ≡ false
      → Moves top (view s) (view (record s { child = u }))
  child-Moves s u a far not_yet = elim (Bool-cases u.eof_acked) [
    | inl on ↦
        subst (λ b. Moves top (view s) (record slid { closed = b })) (sym on)
          (more slides (close (a.serving.finished on)))
    | inr off ↦
        subst (λ b. Moves top (view s) (record slid { closed = b })) (not_yet ∙ sym off) slides
  ]
    where
      slid : Copying
      slid = record (view s) { released = u.base }

      slides : Moves top (view s) slid
      slides =
          subst (λ k. Moves top (view s) (record (view s) { released = k })) (omega arith)
            (release_many top (u.base - s.child.base) (view s) (omega (arith, a.serving.acked.0)))

  client-Moves :
      (s : System) (u : Receive)
      → Agree ck c bytes top at (record s { client = u })
      → s.client.expected_seq ≤ u.expected_seq
      → s.client.eof ≡ false
      → Moves top (view s) (view (record s { client = u }))
  client-Moves s u a far going = elim (Bool-cases u.eof) [
    | inl over ↦
        subst (λ b. Moves top (view s) (record written { ended = b })) (sym over)
          (more writes (finish going (a.hearing.ended over)))
    | inr still ↦
        subst (λ b. Moves top (view s) (record written { ended = b })) (going ∙ sym still) writes
  ]
    where
      written : Copying
      written = record (view s) { written = u.expected_seq }

      writes : Moves top (view s) written
      writes =
          subst (λ k. Moves top (view s) (record (view s) { written = k })) (omega arith)
            (write_many top (u.expected_seq - s.client.expected_seq) (view s) going (
              omega (
                arith,
                expected_le c bytes ck (child_at top s.child.next_seq) 0 top u (λ k h. h) a.hearing,
              )))

  module _ (server_malloc client_malloc : Malloc) (sa : IsAllocator server_malloc)
      (ca : IsAllocator client_malloc) where
    abbrev IsReached : System → Type 0
    IsReached s = Reach ck server_malloc client_malloc window size bytes s

    Step-Moves :
        {s t : System} → Step ck s t → Agree ck c bytes top at s → Moves top (view s) (view t)
    Step-Moves {s} (child_turn e u runs h turned) a =
        let (b, base, expected) =
          Step-Agree ck c bytes top at small server_malloc client_malloc sa ca
            (child_turn e u runs h turned) a in
        child-Moves s u b base (child_open s.child runs)
    Step-Moves {s} (client_turn e u runs h turned) a =
        let (b, base, expected) =
          Step-Agree ck c bytes top at small server_malloc client_malloc sa ca
            (client_turn e u runs h turned) a in
        client-Moves s u b expected (runs_open s.client runs)

    agreed : {s : System} → IsReached s → Agree ck c bytes top at s
    agreed r = Reach-Agree ck c bytes top at small server_malloc client_malloc sa ca r

    Reach-Moves : {s : System} → IsReached s → Moves top blank (view s)
    Reach-Moves (begins wb cwb client server attempts t e ce ready) =
        let (a, base) =
          begins-Agree ck c bytes top at small server_malloc client_malloc sa ca wb cwb client
            server attempts t e ce ready in
        let still : t.eof_acked ≡ false = elim (Bool-cases t.eof_acked) [
          | inr off ↦ off
          | inl on ↦ let over = a.serving.finished on in absurd cc
        ] in
        subst (λ b. Moves top blank (record blank { released = t.base; closed = b })) (sym still)
          (subst (λ k. Moves top blank (record blank { released = k })) (sym base) none_yet)
    Reach-Moves (next r step) = Moves-trans top (Reach-Moves r) (Step-Moves step (agreed r))

    Leads-Moves : {s t : System} → IsReached s → Leads ck s t → Moves top (view s) (view t)
    Leads-Moves r stay = none_yet
    Leads-Moves r (go p step) = Moves-trans top (Leads-Moves r p) (
        Step-Moves step
          (agreed (Leads-Reached ck c bytes top at small server_malloc client_malloc sa ca r p)))

    -- For any file, with the number at which its transfer ends, window and buffer sizes in range
    -- with the numbers of the window behind that number below the one that marks an empty pane, and
    -- allocators that give what they are asked for: in every state that a child and a client reach
    -- over a network that loses, repeats, delays and reorders packets, and corrupts them in ways
    -- that the checksum test finds, where no corrupt packet reaches a client whose packet expected
    -- has not been sent, and in what comes of it by further rounds: the abstract transfer, which
    -- ends at the same number, can make the moves that lead to the first and on to the second; and
    -- the client's output consists of the chunks before the packet that it expects, and behind them
    -- of nothing or the next chunk, or these chunks go past the end of the file, and it is the file
    -- with bytes behind its end.
    pub refines_copying :
        (s t : System)
        → IsReached s
        → Leads ck s t
        → Moves top blank (view s)
          × Moves top (view s) (view t)
          × IsWritten size bytes (view t).written t.client.output
    refines_copying s t r path =
        let a =
          agreed (Leads-Reached ck c bytes top at small server_malloc client_malloc sa ca r path) in
        (
          Reach-Moves r,
          Leads-Moves r path,
          output-IsWritten c bytes ck (child_at top t.child.next_seq) 0 t.client a.hearing,
        )
