-- ===== src/Network/Setup.antt =====
-- networks.c: sockets of servers and clients.
use rcopy.Base.{ℕ, Option, none, some, List, replicate, Result, ok, stop, exit_failure, present}
use rcopy.Network.{
  SockAddr, Answer, af_inet6, htons, stream, datagram, System, Calling, ◌>>=◌, ◌>>◌, finish,
  try_call, must_call, socket, bind, getsockname, listen, accept, connect,
}
use rcopy.Network.Names.{gethostbyname6}

abbrev pub listen_backlog : ℕ
listen_backlog = 10

-- The structure filled with zeros, then the family and the port.
abbrev pub zero_address : SockAddr
zero_address = record { family = 0; port = 0; addr = replicate 16 0 }

-- Any local address, `in6addr_any`, with a port.
abbrev pub any_address : ℕ → SockAddr
any_address server_port = record zero_address { family = af_inet6; port = htons server_port }

unfoldable pub tcp_server_setup : System → ℕ → Calling ℕ
tcp_server_setup system server_port = do
  main_server_socket ← must_call system (socket stream)
  must_call system (bind main_server_socket.number (any_address server_port))
  must_call system (getsockname main_server_socket.number)
  must_call system (listen main_server_socket.number listen_backlog)
  finish (ok main_server_socket.number)

unfoldable pub tcp_accept : System → ℕ → Calling ℕ
tcp_accept system main_server_socket = do
  client_socket ← must_call system (accept main_server_socket)
  finish (ok client_socket.number)

abbrev pub address_or_exit : Option (List ℕ) → Option SockAddr → Result SockAddr
address_or_exit none s = stop exit_failure
address_or_exit (some ip_address) s = present exit_failure s

-- The name of the server is looked up into `server_address`; the program ends if it has none.
unfoldable pub resolve : System → List ℕ → SockAddr → Calling SockAddr
resolve system host_name server_address = do
  found ← gethostbyname6 system host_name server_address (some server_address)
  finish (address_or_exit found.0 found.1)

-- `server_port` is the number that `atoi` makes of the port's text.
unfoldable pub tcp_client_setup : System → List ℕ → ℕ → Calling ℕ
tcp_client_setup system server_name server_port = do
  socket_num ← must_call system (socket stream)
  server_address ← resolve system server_name (any_address server_port)
  must_call system (connect socket_num.number server_address)
  finish (ok socket_num.number)

-- An error of `getsockname` is passed over.
unfoldable pub udp_server_setup : System → ℕ → Calling ℕ
udp_server_setup system server_port = do
  socket_num ← must_call system (socket datagram)
  must_call system (bind socket_num.number (any_address server_port))
  try_call system (getsockname socket_num.number)
  finish (ok socket_num.number)

-- The number of the socket and the address of the server.
unfoldable pub setup_udp_client_to_server : System → List ℕ → ℕ → Calling (ℕ × SockAddr)
setup_udp_client_to_server system host_name server_port = do
  socket_num ← must_call system (socket datagram)
  server_address ← resolve system host_name (any_address server_port)
  finish (ok (socket_num.number, server_address))

-- The number that `socket` returns: that of `no_socket`, which no call accepts, on an error.
abbrev pub socket_number : ℕ → Option Answer → ℕ
socket_number no_socket none = no_socket
socket_number no_socket (some a) = a.number

abbrev pub socket_if_bound : ℕ → Option Answer → Option ℕ
socket_if_bound socket_num none = none
socket_if_bound socket_num (some a) = some socket_num

-- server.c, `childInfo`: the socket of a child, on a port that the system chooses. What `socket`
-- returns goes to `bind` untested. The child has no socket (`none`) if that fails; without a name
-- for the port it goes on.
unfoldable pub child_socket : System → ℕ → Calling (Option ℕ)
child_socket system no_socket = do
  made ← try_call system (socket datagram)
  let socket_num : ℕ = socket_number no_socket made
  bound ← try_call system (bind socket_num (any_address 0))
  own_name ← (elim bound [
    | none ↦ finish (ok none)
    | some a ↦ try_call system (getsockname socket_num)
  ])
  finish (ok (socket_if_bound socket_num bound))
