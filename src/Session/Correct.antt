-- ===== src/Session/Correct.antt =====
-- The two programs, from the request of the client to the end of the transfer.
use rcopy.Base.{
  ℕ, ◌+◌, ◌*◌, ◌<◌, ◌≡◌, ◌⊎◌, refl, sym, ap, subst, ◌∙◌, arith, true, false, Option, some, List, [],
  ◌∷◌, length, ◌++◌, ok, to_u32,
}
use rcopy.Checksum.{Checksum}
use rcopy.Net.{File}
use rcopy.Spec.{IsConfig}
use rcopy.Spec.Last.{whole-EndsAt}
use rcopy.Window.{Malloc, IsAllocator, WindowBuffer, init_window, max_int_32}
use rcopy.Wire.{Address, max_attempts}
use rcopy.Wire.Sent.{Has, Has-in}
use rcopy.Server.Transfer.{initial_window, transfer_runs}
use rcopy.Server.Transfer.Start as Server
use rcopy.Server.Client.{
  Access, Child, Server, run_child, process_client, child_info, forked_child, wait_packet,
  state_transfer_to_child, ack_header,
}
use rcopy.Rcopy.Program.{Arguments, started}
use rcopy.Rcopy.Handshake.{Handshake, filename_header, filename_payload, state_done}
use rcopy.Handshake.{
  Carries, answer, send_filename-Carries, process_client-Carries, answer_client-Carries,
  wait_packet-Carries, length-filename_payload,
}
use rcopy.Protocol.{System, Leads, Reach, begins}
use rcopy.Protocol.Complete.{Leads-Reached, can_complete}
use rcopy.Protocol.Routed.{IsRouted, IsJoined, Leads-trans}
use rcopy.Session.{child_events, client_events, IsServed, IsStart, Runs, come_to}
use rcopy.Session.Asking.{lost_then, lost_then-Asked}
use rcopy.Rcopy.Receive.Silence.{silent}
use rcopy.Session.Programs.{
  state_file_receive-silent, transfer_data-path, state_file_receive-path, rcopy_fsm-receives,
}

-- The state of the client with which it asks.
abbrev asking : Arguments → Address → Handshake
asking args resolved = record (started args).handshake { server = resolved }

module _ (ck : Checksum) (access : Access) (fopen : List ℕ → Option File)
    (server_malloc client_malloc : Malloc) (n m : ℕ) (args : Arguments)
    (c : IsConfig (to_u32 args.windowsize) (to_u32 args.buffersize)) (bytes : List ℕ)
    (served : IsServed access fopen bytes args.server_filename) (parent : Server)
    (peer resolved server : Address) where
  -- A child that has been started for the request, once it has read the sizes and the name.
  abbrev reading : List ℕ → Child
  reading p = record {
    client = peer;
    filename = args.server_filename;
    win_size = to_u32 args.windowsize;
    buf_size = to_u32 args.buffersize;
    attempts = 0;
    pdu = p;
    sent = [];
  }

  abbrev Asks : List ℕ → Type 0
  Asks p =
      Carries ck filename_header
        (filename_payload args.server_filename (to_u32 args.buffersize) (to_u32 args.windowsize)) p

  taken :
      (p : List ℕ)
      → Asks p
      → wait_packet ck parent peer p
        ≡ record parent { client = peer; state = state_transfer_to_child; pdu = p }
  taken p asks =
      let len =
        length-filename_payload args.server_filename (to_u32 args.buffersize)
          (to_u32 args.windowsize) served.short in
      wait_packet-Carries ck access parent peer filename_header _ p (omega (arith, len))
        (omega (arith, len, served.short)) asks

  -- The child reads the request, and answers it.
  answers :
      (p : List ℕ)
      → Asks p
      → (q : List ℕ) × ((memory : Child)
          → process_client ck access
              (some m)
              (forked_child true memory (wait_packet ck parent peer p))
            ≡ ok (true, record (reading p) { sent = record { dest = peer; packet = q } ∷ [] }))
        × Carries ck ack_header (answer ck access args.server_filename) q
  unfolding forked_child child_info
  answers p asks =
      let (q, answered, carries) = answer_client-Carries ck access m (reading p) in
      (
        q,
        λ memory. rw (taken p asks) (
            process_client-Carries ck access m (asking args resolved) _ served.text served.short
              (omega (arith, c.size_max)) (omega (arith, c.window_max)) asks
            ∙ answered
            ∙ ap
                (λ b. ok (b, record (reading p) { sent = record { dest = peer; packet = q } ∷ [] }))
                served.there),
        carries,
      )

  -- The child goes on to `transferData`, and comes to the end of the path.
  run_child-path :
      (p q : List ℕ) (wb : WindowBuffer) (memory : Child) {s t : System} (path : Leads ck s t)
      → process_client ck access (some m) (forked_child true memory (wait_packet ck parent peer p))
        ≡ ok (true, record (reading p) { sent = record { dest = peer; packet = q } ∷ [] })
      → init_window server_malloc (to_u32 args.windowsize) (to_u32 args.buffersize) ≡ ok wb
      → initial_window ck (Server.starting bytes wb peer 0) ≡ ok s.child
      → run_child ck access server_malloc fopen
          (some m)
          (child_events ck path)
          (forked_child true memory (wait_packet ck parent peer p))
        ≡ ok (record (reading p) { sent = record { dest = peer; packet = q } ∷ [] }, some t.child)
  unfolding run_child
  run_child-path p q wb memory path processed made filled =
      rw
        (
          processed,
          served.opens,
          transfer_data-path ck server_malloc bytes (to_u32 args.windowsize)
              (to_u32 args.buffersize) peer wb path made filled,
        )
        refl

module _ (ck : Checksum) (access : Access) (fopen : List ℕ → Option File)
    (server_malloc client_malloc : Malloc) (n m : ℕ) (args : Arguments)
    (c : IsConfig (to_u32 args.windowsize) (to_u32 args.buffersize)) (bytes : List ℕ)
    (served : IsServed access fopen bytes args.server_filename) (parent : Server)
    (peer resolved server : Address) (lost : ℕ) (few : lost < max_attempts) where
  -- The programs, run on the events of a path.
  abbrev RunsTo : {s t : System} → Leads ck s t → Type 0
  RunsTo path =
      Runs ck access fopen server_malloc client_malloc n m args parent peer resolved server lost
        path

  abbrev Starts : System → Type 0
  Starts s =
      IsStart ck server_malloc client_malloc (to_u32 args.windowsize) (to_u32 args.buffersize) bytes
        peer server s

  -- For arguments of rcopy with sizes in range and a name of at most 100 bytes without a zero
  -- byte, under which the server has a file, sends that succeed, at most nine waits of the
  -- handshake without an answer, and every path of the joined loops from a child whose first
  -- window is filled and a client that waits for it: the client sends a request that the parent
  -- takes, the child that starts with it, if its socket is bound, answers, and with that answer and
  -- the events of the path at their waits `rcopyFSM` comes to the client at the end of the path, in
  -- its last state if the client's loop ends there and in that of the reception otherwise, in its
  -- last state anyway, with the same output, if the client hears nothing at ten more waits, and
  -- `transferData` of the child comes to the child at the end of the path.
  pub programs_run : (s t : System) → Starts s → (path : Leads ck s t) → RunsTo path
  programs_run s t start path =
      let (p, requested, asks) = send_filename-Carries ck n (asking args resolved) served.short in
      let (q, answered, carries) =
        answers ck access fopen server_malloc client_malloc n m args c bytes served parent peer
          resolved server p asks in
      let (h, asked, same, from, rest, sent) =
        lost_then-Asked ck access n resolved server lost (asking args resolved)
          (record { dest = resolved; packet = p }) q served.there served.short carries requested
          (omega (arith, few)) in
      let (u, silenced, over, same_output) =
        state_file_receive-silent ck client_malloc (to_u32 args.windowsize) (to_u32 args.buffersize)
          server start.cwb path start.client_made start.waiting in
      (
        p,
        q,
        _,
        _,
        rcopy_fsm-receives ck client_malloc n resolved server (lost_then lost server q)
            (client_events ck path) t.client args h asked same from
            (state_file_receive-path ck client_malloc (to_u32 args.windowsize)
              (to_u32 args.buffersize) server start.cwb path start.client_made start.waiting),
        refl,
        refl,
        (
          _,
          u,
          rcopy_fsm-receives ck client_malloc n resolved server (lost_then lost server q)
              (client_events ck path ++ silent) u args h asked same from silenced,
          rw over refl,
          refl,
          same_output,
        ),
        subst (Has _) (sym sent) (Has-in _ [] rest),
        ap (λ (u : Server). u.state)
            (taken ck access fopen server_malloc client_malloc n m args c bytes served parent peer
              resolved server p asks),
        λ memory.
            run_child-path ck access fopen server_malloc client_malloc n m args c bytes served
              parent peer resolved server p q start.wb memory path (answered memory) start.made
              start.filled,
        refl,
      )

  IsStart-Reach :
      (s : System)
      → Starts s
      → Reach ck server_malloc client_malloc
          (to_u32 args.windowsize)
          (to_u32 args.buffersize)
          bytes
          s
  IsStart-Reach s start =
      subst
        (λ u.
          Reach ck server_malloc client_malloc (to_u32 args.windowsize) (to_u32 args.buffersize)
            bytes (record s { client = u }))
        (sym start.waiting)
        (begins start.wb start.cwb peer server 0 s.child start.made start.client_made start.filled)

  -- For arguments of rcopy with sizes in range and a name of at most 100 bytes without a zero
  -- byte, under which the server has a file of whole chunks that is small enough for the sequence
  -- numbers, sends that succeed, allocators that give what they are asked for, at most nine waits
  -- of the handshake without an answer, and every path of the joined loops from their start, after
  -- which the client has taken the end or has not given up, the child has at most eight attempts
  -- behind it, and either side sends to the address of the other: the path goes on, with rounds in
  -- which each packet that is heard was sent to the hearer's address and comes from the address of
  -- the other side, to an end at which both loops end, such that `rcopyFSM` comes to its last state
  -- and `runChild` of a child whose socket is bound returns, from the request and its answer and with
  -- the events of the whole path at their waits, with the file as the output of the client and with
  -- its end acknowledged at the child.
  pub programs_copy :
      (count : ℕ) (s t : System)
      → (whole : length bytes ≡ count * to_u32 args.buffersize)
      → (small : count + to_u32 args.windowsize < max_int_32) → IsAllocator server_malloc
      → IsAllocator client_malloc
      → Starts s
      → (path : Leads ck s t) → (t.client.eof ≡ true) ⊎ (t.client.attempts < 10)
      → t.child.attempts < 9
      → IsJoined ck peer server t
      → (u : System) × (further : Leads ck t u) × IsRouted ck peer server further
        × (come_to u.client ≡ state_done)
        × (transfer_runs u.child ≡ false)
        × RunsTo (Leads-trans ck path further)
        × (u.child.eof_acked ≡ true)
        × (u.client.output ≡ bytes)
  programs_copy count s t whole small sa ca start path alive spare joined =
      let reached =
        Leads-Reached ck c bytes count
          (whole-EndsAt (to_u32 args.windowsize) (to_u32 args.buffersize) bytes count c.size_pos
            whole)
          small server_malloc client_malloc sa ca (IsStart-Reach s start) path in
      let (u, further, routed, over, ended, same) =
        can_complete ck c bytes count whole small server_malloc client_malloc sa ca peer server t
          reached alive spare joined in
      (
        u,
        further,
        routed,
        rw ended refl,
        rw over refl,
        programs_run s u start (Leads-trans ck path further),
        over,
        same,
      )
