-- ===== src/Network/Calls.antt =====
-- networks.c: which calls the functions make, and what becomes of their errors.
use rcopy.Base.{
  ℕ, ◌/◌, ◌%◌, ◌^◌, ◌<◌, ◌≡◌, inl, inr, refl, arith, none, some, List, ◌∷◌, take, drop, ◌++◌,
  Result, ok, stop, exit_failure, Option-cases,
}
use rcopy.Network.{
  SockAddr, htons, af_inet6, stream, datagram, Answer, Call, System, Calling, ◌>>=◌, continue,
  finish, must_call, socket, getaddrinfo,
}
use rcopy.Network.Names.{get_ip_address46, gethostbyname6}
use rcopy.Network.Setup.{
  any_address, resolve, tcp_server_setup, tcp_accept, tcp_client_setup, setup_udp_client_to_server,
}

-- The calls since `h` have all been answered.
pub data Answered (system : System) (h : List Call) : List Call → Type 0 where
  none_yet : Answered system h h
  one_more :
      {h' : List Call} (c : Call) (a : Answer)
      → system h' c ≡ some a
      → Answered system h h'
      → Answered system h (c ∷ h')

Answered-trans :
    (system : System) {h h' h'' : List Call}
    → Answered system h h'
    → Answered system h' h''
    → Answered system h h''
Answered-trans system before none_yet = before
Answered-trans system before (one_more c a e after) =
    one_more c a e (Answered-trans system before after)

-- A result means that every call was answered. The program ends at a call that was not, and all
-- before it were.
abbrev pub Checked : {A : Type 0} → System → List Call → Result A → List Call → Type 0
Checked system h (ok a) h' = Answered system h h'
Checked system h (stop e) h' =
    (e ≡ exit_failure)
    × ((c : Call) × (before : List Call) × (h' ≡ c ∷ before)
        × (system before c ≡ none)
        × Answered system h before)

abbrev pub IsChecked : {A : Type 0} → System → Calling A → Type 0
IsChecked system m = (h : List Call) → Checked system h (m h).0 (m h).1

module _ (system : System) where
  must_call-IsChecked : (c : Call) → IsChecked system (must_call system c)
  unfolding must_call
  must_call-IsChecked c h = elim (Option-cases (system h c)) [
    | inl e ↦ rw e (refl, (c, h, refl, e, none_yet))
    | inr (a, e) ↦ rw e (one_more c a e none_yet)
  ]

  finish-IsChecked : {A : Type 0} (a : A) → IsChecked system (finish (ok a))
  finish-IsChecked a h = none_yet

  after :
      {A : Type 0} (h h' : List Call) (r : Result A) (h'' : List Call)
      → Answered system h h'
      → Checked system h' r h''
      → Checked system h r h''
  after h h' (ok a) h'' before then_ok = Answered-trans system before then_ok
  after h h' (stop e) h'' before (exits, (c, last, same, failed, earlier)) =
      (exits, (c, last, same, failed, Answered-trans system before earlier))

  bind-IsChecked :
      {A B : Type 0} (m : Calling A) (f : A → Calling B)
      → IsChecked system m
      → ((a : A) → IsChecked system (f a))
      → IsChecked system (m >>= f)
  bind-IsChecked {A} {B} m f first rest h = step (m h).0 (m h).1 (first h)
    where
      step :
          (r : Result A) (h' : List Call)
          → Checked system h r h'
          → Checked system h (continue r f h').0 (continue r f h').1
      step (ok a) h' c = after h h' (f a h').0 (f a h').1 c (rest a h')
      step (stop e) h' c = c

  resolve-IsChecked :
      (host_name : List ℕ) (s : SockAddr) → IsChecked system (resolve system host_name s)
  unfolding resolve gethostbyname6 get_ip_address46
  resolve-IsChecked host_name s h =
      elim (Option-cases (system h (getaddrinfo host_name af_inet6))) [
        | inl e ↦ rw e (refl, (_, h, refl, e, none_yet))
        | inr (a, e) ↦ rw e (one_more _ a e none_yet)
      ]

-- For any answers of the system, `tcpServerSetup`, `tcpAccept`, `tcpClientSetup` and
-- `setupUdpClientToServer` return only if every call that they make is answered. At the first call
-- that fails, the look-up of a name included, they end the program, and call nothing after it.
pub setup-IsChecked :
    (system : System) (server_port main_socket : ℕ) (name : List ℕ)
    → IsChecked system (tcp_server_setup system server_port)
      × IsChecked system (tcp_accept system main_socket)
      × IsChecked system (tcp_client_setup system name server_port)
      × IsChecked system (setup_udp_client_to_server system name server_port)
unfolding tcp_server_setup tcp_accept tcp_client_setup setup_udp_client_to_server
setup-IsChecked system server_port main_socket name = (
  bind-IsChecked system _ _ (must_call-IsChecked system (socket stream)) (λ fd.
      bind-IsChecked system _ _ (must_call-IsChecked system _) (λ a.
        bind-IsChecked system _ _ (must_call-IsChecked system _) (λ b.
          bind-IsChecked system _ _ (must_call-IsChecked system _)
            (λ d. finish-IsChecked system fd.number)))),
  bind-IsChecked system _ _ (must_call-IsChecked system _)
      (λ fd. finish-IsChecked system fd.number),
  bind-IsChecked system _ _ (must_call-IsChecked system (socket stream)) (λ fd.
      bind-IsChecked system _ _ (resolve-IsChecked system name _) (λ a.
        bind-IsChecked system _ _ (must_call-IsChecked system _)
          (λ b. finish-IsChecked system fd.number))),
  bind-IsChecked system _ _ (must_call-IsChecked system (socket datagram)) (λ fd.
      bind-IsChecked system _ _ (resolve-IsChecked system name _)
        (λ a. finish-IsChecked system {A = ℕ × SockAddr} (fd.number, a))),
)

-- `htons` puts the two bytes of a port in the network's order.
htons_bytes : (p : ℕ) → p < 2 ^ 16 → (htons p % 256 ≡ p / 256) × (htons p / 256 ≡ p % 256)
unfolding htons
htons_bytes p h = omega arith

-- For a port of 16 bits, and a system that makes a socket and finds an address for the name:
-- `setupUdpClientToServer` returns the socket and a structure of the family IPv6 with the port in
-- network order, high byte first, and with the first 16 bytes of the address found; it has made
-- these two calls.
pub setup_udp_client_to_server_lem :
    (system : System) (name : List ℕ) (port : ℕ) (h : List Call) (fd found : Answer)
    → port < 2 ^ 16
    → system h (socket datagram) ≡ some fd
    → system (socket datagram ∷ h) (getaddrinfo name af_inet6) ≡ some found
    → let run = setup_udp_client_to_server system name port h in
      (run.1 ≡ getaddrinfo name af_inet6 ∷ socket datagram ∷ h)
      × ((a : SockAddr) × (run.0 ≡ ok (fd.number, a))
          × (a.family ≡ af_inet6)
          × (a.port % 256 ≡ port / 256)
          × (a.port / 256 ≡ port % 256)
          × (take 16 a.addr ≡ take 16 (take 16 found.address ++ drop 16 (any_address port).addr)))
unfolding setup_udp_client_to_server must_call resolve gethostbyname6 get_ip_address46
setup_udp_client_to_server_lem system name port h fd found small made looked =
    rw (made, looked)
      (refl, (_, refl, refl, (htons_bytes port small).0, (htons_bytes port small).1, refl))
