-- ===== src/Rcopy/Program.antt =====
-- rcopy.c: `checkArgs`, `main`, `rcopyFSM` and `stateInit`. The last step, `cleanup`, closes the
-- socket and is left out.
pub mod Ends
use rcopy.Base.{
  ℕ, ◌^◌, Bool, true, false, Option, none, some, List, [], ◌∷◌, length, ltb, leb, if◌then◌else◌, ℤ,
  pos, negsuc, to_u32, Result, ok, stop, exit_failure, guard, ◌>>=◌, ◌>>◌,
}
use rcopy.Base.Loop.{Turn, again, leave, loop}
use rcopy.Checksum.{Checksum}
use rcopy.Net.{Event}
use rcopy.Window.{Malloc}
use rcopy.Wire.{Address, max_filename}
use rcopy.Rcopy.Handshake.{
  Handshake, RcopyState, state_init, state_handshake, state_file_receive, state_done,
  state_handshake_run,
}
use rcopy.Rcopy.Receive as Receiver
use rcopy.Rcopy.Receive.{Receive, receive_runs}

-- What `main` takes from the command line.
pub record Arguments : Type 0 where
  pub server_filename : List ℕ
  pub rcopy_filename : List ℕ
  pub windowsize : ℤ
  pub buffersize : ℤ
  pub remote_machine : List ℕ
  pub port_number : ℤ

-- `n > pow(2, 30)` does not hold.
abbrev pub at_most_2_30 : ℤ → Bool
at_most_2_30 (pos n) = leb n (2 ^ 30)
at_most_2_30 (negsuc n) = true

-- `checkArgs`, and the fields that `main` fills. `atoi` is the library's, and `rate_in_range` says
-- whether `atof` yields a number from 0 to 1.
unfoldable pub check_args : (List ℕ → ℤ) → (List ℕ → Bool) → List (List ℕ) → Result Arguments
check_args atoi rate_in_range (program ∷ from ∷ to ∷ window ∷ buffer ∷ rate ∷ machine ∷ port ∷ []) =
    do
      guard (ltb (length from) max_filename) exit_failure
      guard (ltb (length to) max_filename) exit_failure
      guard (at_most_2_30 (atoi window)) exit_failure
      guard (rate_in_range rate) exit_failure
      ok (record {
        server_filename = from;
        rcopy_filename = to;
        windowsize = atoi window;
        buffersize = atoi buffer;
        remote_machine = machine;
        port_number = atoi port;
      })
check_args atoi rate_in_range _ = stop exit_failure

-- The state that `rcopyFSM` works on: that of the handshake, and what the reception has left.
pub record Program : Type 0 where
  pub state : RcopyState
  pub handshake : Handshake
  pub outcome : Option Receive

-- The start of `rcopyFSM` after `main`.
abbrev pub started : Arguments → Program
started a = record {
  state = state_init;
  handshake = record {
    server = 0;
    filename = a.server_filename;
    windowsize = to_u32 a.windowsize;
    buffersize = to_u32 a.buffersize;
    attempts = 0;
    sent = [];
  };
  outcome = none;
}

module _ (ck : Checksum) (malloc : Malloc) (opened : Bool) (sent_bytes : Option ℕ) where
  -- A round of the loop of `rcopyFSM`. `answers` is what happens at the waits of the handshake, and
  -- `events` at those of the reception; `resolved` is the address that the server's name has. If the
  -- events are used up while the loop of the reception goes on, the program stands there.
  unfoldable pub rcopy_round : Address → List Event → List Event → Program → Result (Turn Program)
  rcopy_round resolved answers events r = elim r.state [
    | state_init ↦ ok (
        again (record r {
          state = state_handshake;
          handshake = record r.handshake { server = resolved };
        }))
    | state_handshake ↦ state_handshake_run ck sent_bytes resolved answers r.handshake >>= λ a.
        elim a.0 [
          | none ↦ ok (leave (record r { handshake = a.1 }))
          | some next ↦ ok (again (record r { state = next; handshake = a.1 }))
        ]
    | state_file_receive ↦
        Receiver.state_file_receive ck malloc opened r.handshake.server r.handshake.windowsize
          r.handshake.buffersize false events
        >>= λ s. ok (
            if receive_runs s
            then leave (record r { outcome = some s })
            else again (record r { state = state_done; outcome = some s }))
    | state_done ↦ ok (leave r)
  ]

  -- Each state is met at most once.
  unfoldable pub rcopy_fsm : Address → List Event → List Event → Program → Result Program
  rcopy_fsm resolved answers events r = loop (rcopy_round resolved answers events) 4 r

  -- `main`: the arguments, and then the states.
  unfoldable pub rcopy_main :
      (List ℕ → ℤ)
      → (List ℕ → Bool)
      → Address
      → List Event
      → List Event
      → List (List ℕ)
      → Result Program
  rcopy_main atoi rate_in_range resolved answers events argv =
      check_args atoi rate_in_range argv >>= λ a. rcopy_fsm resolved answers events (started a)
