-- ===== src/Network/Names.antt =====
-- gethostbyname.c: the addresses of a host name, and addresses as text. A returned pointer into a
-- static array is the bytes that stand there.
use rcopy.Base.{ℕ, Option, none, some, List, [], ◌∷◌, ◌++◌, take, drop, ◌==◌, if◌then◌else◌, ok}
use rcopy.Network.{
  SockAddr, Answer, af_inet, af_inet6, System, Calling, ◌>>=◌, finish, try_call, getaddrinfo, htons,
}

-- How many bytes an address of a family has.
abbrev pub address_length : ℕ → ℕ
address_length family = if family == af_inet then 4 else 16

-- The address found goes into the structure, and is returned. On an error the structure stays as it
-- was. An IPv4 address stands in the first bytes.
abbrev pub filled_in : SockAddr → ℕ → Option Answer → Option (List ℕ) × SockAddr
filled_in where_to n none = (none, where_to)
filled_in where_to n (some a) =
    (some (take n a.address), record where_to { addr = take n a.address ++ drop n where_to.addr })

-- `getIPAddress46`
unfoldable pub get_ip_address46 :
    System → List ℕ → SockAddr → ℕ → Calling (Option (List ℕ) × SockAddr)
get_ip_address46 system host_name where_to family =
    try_call system (getaddrinfo host_name family) >>= λ host_info.
    finish (ok (filled_in where_to (address_length family) host_info))

-- `gethostbyname4` and `gethostbyname6`: without a structure of the caller's, a temporary one.
-- `none` for the structure stands for a null pointer.
unfoldable pub gethostbyname4 :
    System → List ℕ → SockAddr → Option SockAddr → Calling (Option (List ℕ) × Option SockAddr)
unfolding get_ip_address46
gethostbyname4 system host_name temporary none =
    get_ip_address46 system host_name temporary af_inet >>= λ r. finish (ok (r.0, none))
gethostbyname4 system host_name temporary (some s) =
    get_ip_address46 system host_name s af_inet >>= λ r. finish (ok (r.0, some r.1))

unfoldable pub gethostbyname6 :
    System → List ℕ → SockAddr → Option SockAddr → Calling (Option (List ℕ) × Option SockAddr)
unfolding get_ip_address46
gethostbyname6 system host_name temporary none =
    get_ip_address46 system host_name temporary af_inet6 >>= λ r. finish (ok (r.0, none))
gethostbyname6 system host_name temporary (some s) =
    get_ip_address46 system host_name s af_inet6 >>= λ r. finish (ok (r.0, some r.1))

-- `(IP not found)`
abbrev pub text_not_found : List ℕ
text_not_found =
    b'(' ∷ b'I' ∷ b'P' ∷ b' ' ∷ b'n' ∷ b'o' ∷ b't' ∷ b' ' ∷ b'f' ∷ b'o' ∷ b'u' ∷ b'n' ∷ b'd' ∷ b')'
    ∷ []

-- What `inet_ntop` makes of the bytes of an address of a family.
abbrev pub InetNtop : Type 0
InetNtop = ℕ → List ℕ → List ℕ

unfoldable pub get_ip_address_string46 : InetNtop → Option (List ℕ) → ℕ → List ℕ
get_ip_address_string46 inet_ntop none family = text_not_found
get_ip_address_string46 inet_ntop (some ip_address) family = inet_ntop family ip_address

unfoldable pub get_ip_address_string4 : InetNtop → Option (List ℕ) → List ℕ
get_ip_address_string4 inet_ntop ip_address = get_ip_address_string46 inet_ntop ip_address af_inet

unfoldable pub get_ip_address_string6 : InetNtop → Option (List ℕ) → List ℕ
get_ip_address_string6 inet_ntop ip_address = get_ip_address_string46 inet_ntop ip_address af_inet6

unfoldable pub ip_address_to_string : InetNtop → SockAddr → List ℕ
ip_address_to_string inet_ntop s = inet_ntop af_inet6 s.addr

-- `printIPInfo`: the two values that it prints.
unfoldable pub print_ip_info : InetNtop → SockAddr → List ℕ × ℕ
unfolding ip_address_to_string
print_ip_info inet_ntop s = (ip_address_to_string inet_ntop s, htons s.port)

abbrev printed_if_found : Option (List ℕ) → List ℕ → List (List ℕ)
printed_if_found none text = []
printed_if_found (some ip_address) text = text ∷ []

-- `gethostbyname_test_lookup`: the texts printed for the addresses found, IPv6 first.
unfoldable pub gethostbyname_test_lookup :
    InetNtop → System → SockAddr → List ℕ → Calling (List (List ℕ))
unfolding gethostbyname4 gethostbyname6
gethostbyname_test_lookup inet_ntop system temporary host_name =
    gethostbyname6 system host_name temporary none >>= λ a.
    gethostbyname4 system host_name temporary none >>= λ b. finish (
      ok (
        printed_if_found a.0 (get_ip_address_string6 inet_ntop a.0)
        ++ printed_if_found b.0 (get_ip_address_string4 inet_ntop b.0)))
