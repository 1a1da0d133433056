-- ===== src/Session.antt =====
-- rcopy.c and server.c from the request to the end of the transfer: `rcopyFSM` on one side, and the
-- parent's STATE_WAIT_PACKET with the `runChild` of the child that it starts on the other.
pub mod Asking
pub mod Correct
pub mod Programs
use rcopy.Base.{
  ℕ, ◌≤◌, ◌≡◌, Bool, true, false, Option, some, List, [], ◌∷◌, ◌++◌, length, if◌then◌else◌, Result,
  ok, IsText, to_u32,
}
use rcopy.Checksum.{Checksum}
use rcopy.Net.{Event, File}
use rcopy.Window.{Malloc, WindowBuffer, init_window}
use rcopy.Wire.{Address, Datagram}
use rcopy.Wire.Sent.{Has}
use rcopy.Server.Transfer.{Transfer, initial_window}
use rcopy.Server.Transfer.Start as Server
use rcopy.Server.Client.{
  Access, Child, Server, run_child, forked_child, wait_packet, state_transfer_to_child,
}
use rcopy.Rcopy.Receive.Round as Client
use rcopy.Rcopy.Program.{Arguments, Program, rcopy_fsm, started}
use rcopy.Rcopy.Handshake.{RcopyState, state_done, state_file_receive}
use rcopy.Rcopy.Receive.{Receive, receive_runs}
use rcopy.Rcopy.Receive.Silence.{silent}
use rcopy.Protocol.{System, Step, child_turn, client_turn, Leads, stay, go}
use rcopy.Session.Asking.{lost_then}

module _ (ck : Checksum) where
  -- What the waits of the child, and of the client, bring on the way from one state to another.
  unfoldable pub child_events : {s t : System} → Leads ck s t → List Event
  child_events stay = []
  child_events (go path (child_turn e u runs h turned)) = child_events path ++ (e ∷ [])
  child_events (go path (client_turn e u runs h turned)) = child_events path

  unfoldable pub client_events : {s t : System} → Leads ck s t → List Event
  client_events stay = []
  client_events (go path (child_turn e u runs h turned)) = client_events path
  client_events (go path (client_turn e u runs h turned)) = client_events path ++ (e ∷ [])

-- The state of `rcopyFSM` with the reception at `s`: the last if its loop has ended.
abbrev pub come_to : Receive → RcopyState
come_to s = if receive_runs s then state_file_receive else state_done

-- The file asked for is there, holds `bytes`, and has a name that fits the request.
pub record IsServed (access : Access) (fopen : List ℕ → Option File) (bytes filename : List ℕ)
    : Type 0 where
  pub text : IsText filename
  pub short : length filename ≤ 100
  pub there : access filename ≡ true
  pub opens : fopen filename ≡ some (record { rest = bytes; eof = false })

-- The child has its window of `window` packets full, and the client's window is empty.
pub record IsStart (ck : Checksum) (server_malloc client_malloc : Malloc) (window size : ℕ)
    (bytes : List ℕ) (peer server : Address) (s : System) : Type 0 where
  pub wb : WindowBuffer
  pub cwb : WindowBuffer
  pub made : init_window server_malloc window size ≡ ok wb
  pub client_made : init_window client_malloc window size ≡ ok cwb
  pub filled : initial_window ck (Server.starting bytes wb peer 0) ≡ ok s.child
  pub waiting : s.client ≡ Client.starting window cwb server

module _ (ck : Checksum) (access : Access) (fopen : List ℕ → Option File)
    (server_malloc client_malloc : Malloc) (n m : ℕ) (args : Arguments) (parent : Server)
    (peer resolved server : Address) (lost : ℕ) where
  -- What the two programs do by themselves: the client sends a request, the parent takes it, and the
  -- child that starts with it answers, if its socket is bound. After `lost` waits without an answer the client hears it, and
  -- both go on with the events of the path, to the state at its end. If the client hears nothing at ten
  -- waits more, it comes to its last state, with no more output.
  abbrev pub Runs : {s t : System} → Leads ck s t → Type 0
  Runs {s} {t} path =
      (p : List ℕ) × (q : List ℕ) × (r : Program) × (d : Child) × (rcopy_fsm ck client_malloc true
          (some n) resolved (lost_then lost server q) (client_events ck path) (started args)
        ≡ ok r)
      × (r.state ≡ come_to t.client)
      × (r.outcome ≡ some t.client)
      × ((r' : Program) × (u : Receive) × (rcopy_fsm ck client_malloc true (some n) resolved
              (lost_then lost server q) (client_events ck path ++ silent) (started args)
            ≡ ok r')
          × (r'.state ≡ state_done)
          × (r'.outcome ≡ some u)
          × (u.output ≡ t.client.output))
      × Has (record { dest = resolved; packet = p }) r.handshake.sent
      × ((wait_packet ck parent peer p).state ≡ state_transfer_to_child)
      × ((memory : Child)
          → run_child ck access server_malloc fopen (some m) (child_events ck path)
              (forked_child true memory (wait_packet ck parent peer p))
            ≡ ok (d, some t.child))
      × (d.sent ≡ record { dest = peer; packet = q } ∷ [])
