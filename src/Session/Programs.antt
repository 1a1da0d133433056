-- ===== src/Session/Programs.antt =====
-- A run of the two programs, and the joined loops of Protocol.
use rcopy.Base.{
  ℕ, ◌++◌, arith, Returns-eq, inl, inr, Bool-cases, ◌≡◌, refl, true, false, none, some, List, ok,
  to_u32,
}
use rcopy.Base.Loop.{loop}
use rcopy.Checksum.{Checksum}
use rcopy.Net.{Event}
use rcopy.Window.{Malloc, WindowBuffer, init_window}
use rcopy.Wire.{Address, max_attempts}
use rcopy.Rcopy.Receive.Silence.{silent, silence_ends, receive_loop-append}
use rcopy.Server.Transfer.{transfer_loop, transfer_data, initial_window}
use rcopy.Server.Transfer.Start as Server
use rcopy.Rcopy.Receive as Receiver
use rcopy.Rcopy.Receive.{Receive, receive_loop, receive_runs}
use rcopy.Rcopy.Receive.Round as Client
use rcopy.Rcopy.Program.{Arguments, Program, rcopy_round, rcopy_fsm, started}
use rcopy.Rcopy.Handshake.{
  Handshake, state_file_receive, state_handshake, state_handshake_run, handshake_loop,
}
use rcopy.Handshake.Ends.{SameRequest}
use rcopy.Protocol.{System, child_turn, client_turn, Leads, stay, go}
use rcopy.Protocol.Loops.{transfer_loop-snoc, receive_loop-snoc}
use rcopy.Session.{child_events, client_events, come_to}

module _ (ck : Checksum) where
  -- The loops come from one end of a path to the other.
  child_events-transfer_loop :
      {s t : System} (path : Leads ck s t)
      → transfer_loop ck (child_events ck path) s.child ≡ ok t.child
  unfolding child_events transfer_loop
  child_events-transfer_loop stay = refl
  child_events-transfer_loop {s} (go {t} path (child_turn e u runs h turned)) =
      transfer_loop-snoc ck (child_events ck path) e s.child t.child u
        (child_events-transfer_loop path) runs turned
  child_events-transfer_loop (go path (client_turn e u runs h turned)) =
      child_events-transfer_loop path

  client_events-receive_loop :
      {s t : System} (path : Leads ck s t)
      → receive_loop ck (client_events ck path) s.client ≡ ok t.client
  unfolding client_events receive_loop
  client_events-receive_loop stay = refl
  client_events-receive_loop {s} (go {t} path (client_turn e u runs h turned)) =
      receive_loop-snoc ck (client_events ck path) e s.client t.client u
        (client_events-receive_loop path) runs turned
  client_events-receive_loop (go path (child_turn e u runs h turned)) =
      client_events-receive_loop path

  -- `transferData` on the events of a path.
  pub transfer_data-path :
      (malloc : Malloc) (bytes : List ℕ) (window size : ℕ) (peer : Address) (wb : WindowBuffer)
      {s t : System} (path : Leads ck s t)
      → init_window malloc window size ≡ ok wb
      → initial_window ck (Server.starting bytes wb peer 0) ≡ ok s.child
      → transfer_data ck malloc
          (some (record { rest = bytes; eof = false }))
          peer
          0
          window
          size
          (child_events ck path)
        ≡ ok (some t.child)
  unfolding transfer_data
  transfer_data-path malloc bytes window size peer wb path made filled =
      rw (made, filled, child_events-transfer_loop path) refl

  pub state_file_receive-path :
      (malloc : Malloc) (window size : ℕ) (server : Address) (cwb : WindowBuffer) {s t : System}
      (path : Leads ck s t)
      → init_window malloc window size ≡ ok cwb
      → s.client ≡ Client.starting window cwb server
      → Receiver.state_file_receive ck malloc true server window size false (client_events ck path)
        ≡ ok t.client
  unfolding Receiver.state_file_receive
  state_file_receive-path malloc window size server cwb path made waiting =
      rw (made, ← waiting, client_events-receive_loop path) refl

  -- The same, and then ten waits in vain.
  pub state_file_receive-silent :
      (malloc : Malloc) (window size : ℕ) (server : Address) (cwb : WindowBuffer) {s t : System}
      (path : Leads ck s t)
      → init_window malloc window size ≡ ok cwb
      → s.client ≡ Client.starting window cwb server
      → (u : Receive) × (Receiver.state_file_receive ck malloc true server window size false
            (client_events ck path ++ silent)
          ≡ ok u)
        × (receive_runs u ≡ false)
        × (u.output ≡ t.client.output)
  unfolding Receiver.state_file_receive
  state_file_receive-silent malloc window size server cwb {s} {t} path made waiting =
      let (u, ended, (over, same)) =
        Returns-eq (λ u. (receive_runs u ≡ false) × (u.output ≡ t.client.output))
          (receive_loop ck silent t.client) (silence_ends ck max_attempts t.client (omega arith)) in
      (
        u,
        rw
            (
              made,
              ← waiting,
              receive_loop-append ck (client_events ck path) silent s.client,
              client_events-receive_loop path,
            )
            ended,
        over,
        same,
      )

  module _ (malloc : Malloc) (n : ℕ) (resolved server : Address) (answers events : List Event)
      (u : Receive) where
    abbrev Ends : ℕ → Program → Handshake → Type 0
    Ends fuel from t =
        loop (rcopy_round ck malloc true (some n) resolved answers events) fuel from
        ≡ ok (record { state = come_to u; handshake = t; outcome = some u })

    -- From STATE_FILE_RECEIVE on, with a reception that returns.
    receiving-Ends :
        (t : Handshake)
        → Receiver.state_file_receive ck malloc true t.server t.windowsize t.buffersize false events
          ≡ ok u
        → Ends 2 (record { state = state_file_receive; handshake = t; outcome = none }) t
    unfolding loop rcopy_round
    receiving-Ends t received = elim (Bool-cases (receive_runs u)) [
      | inl runs ↦ rw (loop, received, runs) refl
      | inr over ↦ rw (loop, received, over) refl
    ]

    -- From STATE_HANDSHAKE on, with a handshake that leads to the file.
    asking-Ends :
        (s t : Handshake)
        → state_handshake_run ck (some n) resolved answers s ≡ ok (some state_file_receive, t)
        → Receiver.state_file_receive ck malloc true t.server t.windowsize t.buffersize false events
          ≡ ok u
        → Ends 3 (record { state = state_handshake; handshake = s; outcome = none }) t
    unfolding loop rcopy_round
    asking-Ends s t asked received = rw (loop, asked) (receiving-Ends t received)

    -- The whole of `rcopyFSM`.
    pub rcopy_fsm-receives :
        (args : Arguments) (t : Handshake)
        → handshake_loop ck
            (some n)
            resolved
            answers
            (record (started args).handshake { server = resolved })
          ≡ ok (some state_file_receive, t)
        → SameRequest (record (started args).handshake { server = resolved }) t
        → t.server ≡ server
        → Receiver.state_file_receive ck malloc true server
            (to_u32 args.windowsize)
            (to_u32 args.buffersize)
            false
            events
          ≡ ok u
        → rcopy_fsm ck malloc true (some n) resolved answers events (started args)
          ≡ ok (record { state = come_to u; handshake = t; outcome = some u })
    unfolding rcopy_fsm rcopy_round loop state_handshake_run
    rcopy_fsm-receives args t run same from received =
        asking-Ends (record (started args).handshake { server = resolved }) t run
          (rw (from, same.1, same.2) received)
