-- ===== src/Server/Client.antt =====
-- server.c: `processClient` and `lookupFilename`, with which a child starts, `runServerFSM` and
-- `childInfo` of the parent, and `runChild`. Calls of `printf` are left out.
pub mod Parent
use rcopy.Base.{
  ℕ, ◌+◌, Bool, true, false, Option, none, some, List, [], ◌∷◌, ◌++◌, length, take, drop, ltb, leb,
  ◌==◌, ◌≡◌, if◌then◌else◌, Result, ok, stop, uninitialised, out_of_bounds, guard, ◌>>=◌, ◌>>◌,
  c_string,
}
use rcopy.Checksum.{Checksum}
use rcopy.Net.{Event, File, received}
use rcopy.Window.{Malloc}
use rcopy.Wire.{
  PduHeader, Address, Datagram, htonl, value32, read_header, send_pdu, header_size, max_filename,
}
use rcopy.Server.Transfer.{Transfer, transfer_data}
use rcopy.Rcopy.Handshake.{text_ok}

-- The fields of `ChildContext` that count, and the packets handed to `sendtoErr`.
pub record Child : Type 0 where
  pub client : Address
  pub filename : List ℕ
  pub win_size : ℕ
  pub buf_size : ℕ
  pub attempts : ℕ
  pub pdu : List ℕ
  pub sent : List Datagram

abbrev pub text_not_ok : List ℕ
text_not_ok = b'N' ∷ b'o' ∷ b't' ∷ b' ' ∷ b'O' ∷ b'k' ∷ []

abbrev pub ack_header : PduHeader
ack_header = record { seq = htonl 0; checksum = 0; flag = 9 }

-- The two sizes and the length of the name, with what follows. Bytes behind the packet are
-- uninitialised.
unfoldable pub read_sizes : List ℕ → Result (ℕ × ℕ × ℕ × List ℕ)
read_sizes (a ∷ b ∷ c ∷ d ∷ e ∷ f ∷ g ∷ h ∷ n ∷ name) =
    ok (htonl (value32 a b c d), htonl (value32 e f g h), n, name)
read_sizes _ = stop uninitialised

-- `memcpy` into `filename`, of MAX_FILENAME + 1 bytes, and the terminating zero.
unfoldable pub copy_filename : ℕ → List ℕ → Result (List ℕ)
copy_filename name_len name = do
  guard (leb name_len max_filename) out_of_bounds
  guard (leb name_len (length name)) uninitialised
  ok (c_string (take name_len name))

-- What `access(filename, R_OK) == 0` says of a file.
abbrev pub Access : Type 0
Access = List ℕ → Bool

unfoldable pub lookup_filename : Access → List ℕ → Bool
lookup_filename access filename = access filename

module _ (ck : Checksum) (access : Access) where
  -- The answer to the name that the child has; whether the child goes on to the transfer.
  unfoldable pub answer_client : Option ℕ → Child → Result (Bool × Child)
  answer_client sent_bytes child = do
    let found = lookup_filename access child.filename
    let msg = if found then text_ok else text_not_ok
    (bytes, handed) ← send_pdu ck sent_bytes (some child.client) ack_header (some msg) (length msg)
    elim bytes [
      | none ↦ ok (false, record child { sent = child.sent ++ handed })
      | some n ↦ ok (found, record child { sent = child.sent ++ handed })
    ]

  -- `processClient`: true for a return value of 0, false for -1.
  unfoldable pub process_client : Option ℕ → Child → Result (Bool × Child)
  process_client sent_bytes child = do
    header ← read_header child.pdu
    if header.flag == 8
        then (if ltb (length child.pdu) (header_size + 9) then ok (false, child) else (do
          (win_size, buf_size, name_len, name) ← read_sizes (drop header_size child.pdu)
          filename ← copy_filename name_len name
          answer_client sent_bytes
              (record child { win_size = win_size; buf_size = buf_size; filename = filename })))
        else ok (false, child)

  -- `runChild`; `fopen` opens the named file, or does not.
  unfoldable pub run_child :
      Malloc
      → (List ℕ → Option File)
      → Option ℕ
      → List Event
      → Child
      → Result (Child × Option Transfer)
  run_child malloc fopen sent_bytes events child = do
    (accepted, u) ← process_client sent_bytes child
    if accepted
        then (transfer_data ck malloc (fopen u.filename) u.client u.attempts u.win_size u.buf_size
              events
            >>= λ t. ok (u, t))
        else ok (u, none)

-- `server_state_t`
pub data ServerState : Type 0 where
  state_wait_packet state_transfer_to_child : ServerState

-- The state of the parent process, and the children that it has started, oldest first.
pub record Server : Type 0 where
  pub state : ServerState
  pub client : Address
  pub pdu : List ℕ
  pub children : List Child

-- What a round of `runServerFSM` meets: a packet, or what `fork` does. With a child come whether its
-- `bind` succeeds, and what the memory of its `ChildContext` holds before.
pub data ServerEvent : Type 0 where
  packet : Address → List ℕ → ServerEvent
  fork_failed : ServerEvent
  forked : Bool → Child → ServerEvent

-- `childInfo`, on a context that holds `memory`. It returns early if the socket cannot be bound, and
-- leaves the name and the sizes unset in any case.
unfoldable pub child_info : Bool → Child → Server → Child
child_info bound memory server =
    if bound
    then record memory { client = server.client; attempts = 0; pdu = server.pdu }
    else memory

-- The child's context as `runChild` gets it: the packet is copied again after `childInfo`.
unfoldable pub forked_child : Bool → Child → Server → Child
unfolding child_info
forked_child bound memory server = record (child_info bound memory server) {
  pdu = server.pdu;
  sent = [];
}

module _ (ck : Checksum) where
  open ck use {in_cksum}

  -- A round in STATE_WAIT_PACKET.
  unfoldable pub wait_packet : Server → Address → List ℕ → Server
  wait_packet s src bytes =
      let pdu = received bytes in
      let u = record s { client = src } in
      if in_cksum pdu == 0
      then (if ltb (length pdu) header_size
          then u
          else record u { state = state_transfer_to_child; pdu = pdu })
      else u

  -- A round in STATE_TRANSFER_TO_CHILD, as the parent sees it; `none` is an error of `fork`.
  unfoldable pub transfer_to_child : Server → Option (Bool × Child) → Server
  unfolding forked_child
  transfer_to_child s none = record s { state = state_wait_packet }
  transfer_to_child s (some (bound, memory)) = record s {
    state = state_wait_packet;
    children = s.children ++ (forked_child bound memory s ∷ []);
  }

  -- A round of the loop. In either state only its own call can return.
  pub data Steps (s : Server) : ServerEvent → Server → Type 0 where
    waits :
        (src : Address) (bytes : List ℕ)
        → s.state ≡ state_wait_packet
        → Steps s (packet src bytes) (wait_packet s src bytes)
    forks :
        (bound : Bool) (memory : Child)
        → s.state ≡ state_transfer_to_child
        → Steps s (forked bound memory) (transfer_to_child s (some (bound, memory)))
    fails : s.state ≡ state_transfer_to_child → Steps s fork_failed (transfer_to_child s none)
