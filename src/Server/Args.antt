-- ===== src/Server/Args.antt =====
-- server.c: `checkArgs`, and `main` up to its loop.
use rcopy.Base.{Bool, List, [], ◌∷◌, ℕ, ℤ, pos, Result, ok, stop, exit_failure, guard, ◌>>◌, ◌>>=◌}
use rcopy.Server.Client.{Server, state_wait_packet}

-- The port of the command line, 0 without one. `atoi` is the library's, and `rate_in_range` says
-- whether `atof` yields a number from 0 to 1.
unfoldable pub check_args : (List ℕ → ℤ) → (List ℕ → Bool) → List (List ℕ) → Result ℤ
check_args atoi rate_in_range (program ∷ rate ∷ []) =
    guard (rate_in_range rate) exit_failure >> ok (pos 0)
check_args atoi rate_in_range (program ∷ rate ∷ port ∷ more) =
    guard (rate_in_range rate) exit_failure >> ok (atoi port)
check_args atoi rate_in_range _ = stop exit_failure

-- The state in which `main` comes to `runServerFSM`, once its socket has been set up.
abbrev pub idle_server : Server
idle_server = record { state = state_wait_packet; client = 0; pdu = []; children = [] }

unfoldable pub server_main : (List ℕ → ℤ) → (List ℕ → Bool) → List (List ℕ) → Result Server
server_main atoi rate_in_range argv =
    check_args atoi rate_in_range argv >>= λ port_num. ok idle_server
