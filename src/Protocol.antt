-- ===== src/Protocol.antt =====
-- server.c and rcopy.c joined: a child of the server in the main loop of `transferData`, and a
-- client in the main loop of `stateFileReceive`. The network may lose, repeat, delay, reorder and
-- corrupt what either of them has sent in these loops, and either wait may time out at any moment. The
-- child's answer to the file name is not among the packets. A packet may go astray; `Routed` says
-- where it does not.
pub mod Delivery
pub mod Agree
pub mod Fair
pub mod Turns
pub mod Correct
pub mod Bounds
pub mod Answers
pub mod Complete
pub mod Laps
pub mod Routed
pub mod Loops
pub mod Abstract
pub mod Refine
use rcopy.Base.{ℕ, ◌<◌, ◌≡◌, ◌≢◌, ◌⊎◌, true, List, [], ◌∷◌, ok}
use rcopy.Checksum.{Checksum}
use rcopy.Net.{Event, timeout, arrival, received}
use rcopy.Window.{Malloc, WindowBuffer, init_window}
use rcopy.Wire.{Address, Datagram}
use rcopy.Wire.Sent.{Has}
use rcopy.Server.Transfer.{Transfer, transfer_runs, transfer_turn, initial_window}
use rcopy.Server.Transfer.Start as Server
use rcopy.Rcopy.Receive.{Receive, receive_runs, receive_turn}
use rcopy.Rcopy.Receive.Round as Client

pub record System : Type 0 where
  pub child : Transfer
  pub client : Receive

module _ (ck : Checksum) where
  open ck use {in_cksum}

  -- What a wait may bring to one side, when the other has sent `ds`: nothing, one of the packets, or
  -- bytes that do not pass the checksum test. `Noise` says when the last may happen.
  pub data Delivers (Noise : Type 0) (ds : List Datagram) : Event → Type 0 where
    silence : Delivers Noise ds timeout
    brings : (src : Address) (d : Datagram) → Has d ds → Delivers Noise ds (arrival src d.packet)
    noise :
        (src : Address) (bytes : List ℕ)
        → in_cksum (received bytes) ≢ 0
        → Noise
        → Delivers Noise ds (arrival src bytes)

  -- What the child may hear.
  abbrev pub ToChild : System → Event → Type 0
  ToChild s e = Delivers Unit s.client.sent e

  -- What the client may hear. It answers a corrupt packet by asking for the packet expected, so none
  -- comes when the child has not sent that packet yet.
  abbrev pub ToClient : System → Event → Type 0
  ToClient s e = Delivers (s.client.expected_seq < s.child.next_seq) s.child.sent e

  -- One round of either main loop.
  pub data Step (s : System) : System → Type 0 where
    child_turn :
        (e : Event) (u : Transfer)
        → transfer_runs s.child ≡ true
        → ToChild s e
        → transfer_turn ck s.child e ≡ ok u
        → Step s (record s { child = u })
    client_turn :
        (e : Event) (u : Receive)
        → receive_runs s.client ≡ true
        → ToClient s e
        → receive_turn ck s.client e ≡ ok u
        → Step s (record s { client = u })

  -- What comes of a child that has sent its first window of the file and a client that waits for it,
  -- each with a window buffer from its own allocator.
  pub data Reach (server_malloc client_malloc : Malloc) (window size : ℕ) (bytes : List ℕ)
      : System → Type 0 where
    begins :
        (wb cwb : WindowBuffer) (client server : Address) (attempts : ℕ) (t : Transfer)
        → init_window server_malloc window size ≡ ok wb
        → init_window client_malloc window size ≡ ok cwb
        → initial_window ck (Server.starting bytes wb client attempts) ≡ ok t
        → Reach server_malloc client_malloc window size bytes
            (record { child = t; client = Client.starting window cwb server })
    next :
        {s t : System}
        → Reach server_malloc client_malloc window size bytes s
        → Step s t
        → Reach server_malloc client_malloc window size bytes t

  -- What may come of a state.
  pub data Leads (s : System) : System → Type 0 where
    stay : Leads s s
    go : {t u : System} → Leads s t → Step t u → Leads s u
