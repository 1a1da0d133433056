-- ===== src/Examples/Networking.antt =====
-- Tests of the sockets' set-up.
use rcopy.Base.{
  ℕ, ◌/◌, ◌%◌, ◌≡◌, arith, refl, none, some, List, [], ◌∷◌, ◌++◌, take, drop, replicate, ok,
}
use rcopy.Network.{SockAddr, af_inet6, datagram, System, socket, getaddrinfo}
use rcopy.Network.Setup.{
  any_address, tcp_server_setup, tcp_accept, tcp_client_setup, setup_udp_client_to_server,
}
use rcopy.Network.Calls.{IsChecked, setup-IsChecked, setup_udp_client_to_server_lem}

-- A system that answers the first two calls, and no later one.
abbrev short_lived : System
short_lived [] c = some (record { number = 3; address = [] })
short_lived (a ∷ []) c = some (record { number = 0; address = replicate 16 7 })
short_lived (a ∷ b ∷ h) c = none

abbrev host : List ℕ
host = b'h' ∷ []

setup-IsChecked_example :
    IsChecked short_lived (tcp_server_setup short_lived 4000)
    × IsChecked short_lived (tcp_accept short_lived 3)
    × IsChecked short_lived (tcp_client_setup short_lived host 4000)
    × IsChecked short_lived (setup_udp_client_to_server short_lived host 4000)
setup-IsChecked_example = setup-IsChecked short_lived 4000 3 host

setup_udp_client_to_server_example :
    let run = setup_udp_client_to_server short_lived host 4000 [] in
    (run.1 ≡ getaddrinfo host af_inet6 ∷ socket datagram ∷ [])
    × ((a : SockAddr) × (run.0 ≡ ok (3, a))
        × (a.family ≡ af_inet6)
        × (a.port % 256 ≡ 4000 / 256)
        × (a.port / 256 ≡ 4000 % 256)
        × (take 16 a.addr ≡ take 16 (take 16 (replicate 16 7) ++ drop 16 (any_address 4000).addr)))
setup_udp_client_to_server_example =
    setup_udp_client_to_server_lem short_lived host 4000 [] (record { number = 3; address = [] })
      (record { number = 0; address = replicate 16 7 }) (omega arith) refl refl
