-- ===== src/Examples/Meeting.antt =====
-- Tests of the handshake, and of both programs as they start.
use rcopy.Base.{
  exit_failure, Option, false, none, ℤ, to_u32, sym, ap, ◌-◌, Bool, pos, Result, ok, stop, ℕ, zero,
  suc, ◌≡◌, refl, arith, true, some, List, [], ◌∷◌, ◌++◌, All, length, replicate, ◌⊎◌,
}
use rcopy.Internet.{internet, internet_sum}
use rcopy.Net.{Event, timeout, arrival, File}
use rcopy.Wire.{bytes32, Address, htonl, read_header}
use rcopy.Rcopy.Handshake.{
  filename_header, filename_payload, Handshake, state_file_receive, send_filename, on_answer,
  state_handshake_run,
}
use rcopy.Rcopy.Program.{Arguments, check_args, rcopy_main}
use rcopy.Rcopy.Program.Ends.{IsEnded, rcopy_main_lem}
use rcopy.Server.Args as ServerArgs
use rcopy.Server.Client.{
  run_child, Access, Child, Server, state_wait_packet, state_transfer_to_child, packet, forked,
  process_client, wait_packet, transfer_to_child, waits, forks, ServerEvent, child_info,
  forked_child,
}
use rcopy.Server.Client.Parent.{Children, starts, goes_on, children_requested}
use rcopy.Handshake.{Carries}
use rcopy.Handshake.Agrees.{handshake_agrees}
use rcopy.Handshake.Serves.{run_child_lem}
use rcopy.Server.Transfer.{Transfer}
use rcopy.Server.Transfer.Packets.{Truthful}
use rcopy.Handshake.Ends.{IsAnswer, IsDecided, handshake_decides}
use rcopy.Examples.{heap, heap-IsAllocator, small_file, small_config, data_0, rr_1}

-- A client that asks for the file `abc` with a window of 2 and buffers of 2 bytes.
abbrev asking : Handshake
asking = record {
  server = 5;
  filename = b'a' ∷ b'b' ∷ b'c' ∷ [];
  windowsize = 2;
  buffersize = 2;
  attempts = 0;
  sent = [];
}

abbrev pub every_file : Access
every_file name = true

handshake_agrees_example :
    (p : List ℕ) × (send_filename internet (some 19) asking
      ≡ ok (record asking { sent = record { dest = 5; packet = p } ∷ [] }))
    × ((parent : Server) (src : Address)
        → wait_packet internet parent src p
          ≡ record parent { client = src; state = state_transfer_to_child; pdu = p })
    × ((child : Child)
        → (q : List ℕ) × (process_client internet every_file (some 9) (record child { pdu = p })
            ≡ ok (
              true,
              record child {
                pdu = p;
                win_size = 2;
                buf_size = 2;
                filename = b'a' ∷ b'b' ∷ b'c' ∷ [];
                sent = child.sent ++ (record { dest = child.client; packet = q } ∷ []);
              },
            ))
          × ((resolved src : Address) (t : Handshake)
              → on_answer internet resolved t (arrival src q)
                ≡ ok (some state_file_receive, record t { server = src })))
handshake_agrees_example =
    handshake_agrees internet every_file 19 9 asking (refl, (refl, (refl, tt))) (omega arith)
      (omega arith) (omega arith)

-- The answer `Ok` after one second of silence.
abbrev ack_ok : List ℕ
ack_ok = 0 ∷ 0 ∷ 0 ∷ 0 ∷ 0 ∷ 0 ∷ 9 ∷ b'O' ∷ b'k' ∷ []

abbrev answers : List Event
answers = timeout ∷ arrival 8 ack_ok ∷ replicate 8 timeout

silence : (n : ℕ) → All IsAnswer (replicate n timeout)
silence zero = tt
silence (suc n) = (tt, silence n)

answers_fair : All IsAnswer answers
unfolding read_header
answers_fair = (tt, ((λ any. (_, refl, λ nine. omega arith)), silence 8))

handshake_decides_example :
    IsDecided asking (state_handshake_run internet (some 19) 5 answers asking)
handshake_decides_example =
    handshake_decides internet (some 19) 5 answers asking (omega arith) answers_fair (omega arith)

-- `atoi` on a single digit.
abbrev one_digit : List ℕ → ℤ
one_digit [] = pos 0
one_digit (d ∷ ds) = pos (d - b'0')

abbrev any_rate : List ℕ → Bool
any_rate text = true

abbrev server_line : List (List ℕ)
server_line = (b's' ∷ []) ∷ (b'0' ∷ []) ∷ []

-- The parent process hears a packet and starts a child.
abbrev pub idle : Server
idle = record { state = state_wait_packet; client = 0; pdu = []; children = [] }

abbrev heard : Server
heard = wait_packet internet idle 9 data_0

-- What the memory of a new child may hold.
abbrev left_over : Child
left_over = record {
  client = 77;
  filename = [];
  win_size = 7;
  buf_size = 7;
  attempts = 7;
  pdu = [];
  sent = [];
}

-- Two packets and two children; the socket of the second is not bound.
abbrev once : Server
once = transfer_to_child internet heard (some (true, left_over))

abbrev twice : Server
twice = transfer_to_child internet (wait_packet internet once 8 data_0) (some (false, left_over))

abbrev happened : List ServerEvent
happened = forked false left_over ∷ packet 8 data_0 ∷ forked true left_over ∷ packet 9 data_0 ∷ []

children_requested_example : (length twice.children ≡ 2) × Children internet happened twice.children
unfolding wait_packet transfer_to_child forked_child child_info internet_sum ServerArgs.server_main
    ServerArgs.check_args
children_requested_example =
    children_requested internet one_digit any_rate server_line idle happened twice refl (
      goes_on
        (goes_on (goes_on (goes_on starts (waits 9 data_0 refl)) (forks true left_over refl))
          (waits 8 data_0 refl))
        (forks false left_over refl))

-- A whole run of the client.
-- The request of `asking`, and a child that has it.
abbrev request : List ℕ
request =
    0 ∷ 0 ∷ 0 ∷ 0 ∷ 0x2f ∷ 0x9a ∷ 8 ∷ 0 ∷ 0 ∷ 0 ∷ 2 ∷ 0 ∷ 0 ∷ 0 ∷ 2 ∷ 3 ∷ b'a' ∷ b'b' ∷ b'c' ∷ []

abbrev newborn : Child
newborn = record {
  client = 9;
  filename = [];
  win_size = 0;
  buf_size = 0;
  attempts = 0;
  pdu = request;
  sent = [];
}

abbrev pub only_file : List ℕ → Option File
only_file name = some (record { rest = small_file; eof = false })

request-Carries :
    Carries internet filename_header (filename_payload (b'a' ∷ b'b' ∷ b'c' ∷ []) 2 2) request
unfolding read_header htonl filename_payload bytes32 internet_sum
request-Carries = record { intact = refl; checksum = _; header = refl; content = refl }

run_child_example :
    let run =
      run_child internet every_file heap only_file
        (some 9)
        (timeout ∷ arrival 9 rr_1 ∷ [])
        newborn in
    ((heap 2 ≡ none) × (run ≡ stop exit_failure))
    ⊎ ((d : Child) × (u : Transfer) × (run ≡ ok (d, some u))
        × All (Truthful internet 2 small_file) u.sent)
unfolding read_header htonl
run_child_example =
    run_child_lem internet every_file asking small_config small_file heap only_file 9
      (timeout ∷ arrival 9 rr_1 ∷ []) newborn (refl, (refl, (refl, tt))) (omega arith) refl refl
      heap-IsAllocator request-Carries
      (λ wb t made ready running. (
        tt,
        λ u turned runs. (
          λ intact.
              (_, refl, (λ five ahead. omega arith), (λ six. absurd (omega arith)), λ ten. tt),
          λ v more. tt,
        ),
      ))

abbrev command_line : List (List ℕ)
command_line =
    (b'r' ∷ [])
    ∷ (b'a' ∷ b'b' ∷ b'c' ∷ [])
    ∷ (b'd' ∷ [])
    ∷ (b'2' ∷ [])
    ∷ (b'2' ∷ [])
    ∷ (b'0' ∷ [])
    ∷ (b'h' ∷ [])
    ∷ (b'8' ∷ [])
    ∷ []

rcopy_main_example : IsEnded 2 small_file (
    rcopy_main internet heap true
      (some 19)
      one_digit
      any_rate
      5
      answers
      (arrival 9 data_0 ∷ timeout ∷ replicate 10 timeout)
      command_line)
unfolding read_header htonl check_args
rcopy_main_example =
    rcopy_main_lem internet small_config small_file 2 one_digit any_rate command_line heap (some 19)
      5 answers (arrival 9 data_0 ∷ timeout ∷ []) refl
      (λ args accepted. (
        ap (λ (r : Result Arguments). window_of r) (sym accepted),
        ap (λ (r : Result Arguments). buffer_of r) (sym accepted),
      ))
      heap-IsAllocator answers_fair (omega arith)
      (λ server wb made running. (
        λ intact. (
          omega arith,
          (_, refl, (λ ten. absurd (omega arith)), λ other low high. (omega arith, refl)),
        ),
        λ u turned runs. (tt, λ v more. tt),
      ))
  where
    window_of : Result Arguments → ℕ
    window_of (ok a) = to_u32 a.windowsize
    window_of (stop e) = 0

    buffer_of : Result Arguments → ℕ
    buffer_of (ok a) = to_u32 a.buffersize
    buffer_of (stop e) = 0
