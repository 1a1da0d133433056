-- ===== src/Network.antt =====
-- networks.c, gethostbyname.c and safeUtil.c: system calls with their errors handled. The operating
-- system is a parameter: what it answers to a call may depend on all calls before it.
pub mod Names
pub mod Setup
pub mod Calls
use rcopy.Base.{
  ℕ, ◌+◌, ◌*◌, ◌/◌, ◌%◌, Bool, true, false, Option, none, some, List, [], ◌∷◌, ◌++◌, Result, ok,
  stop, exit_failure, present,
}

-- `struct sockaddr_in6`: `port` as the host reads the field. Its address is 16 bytes.
pub record SockAddr : Type 0 where
  pub family : ℕ
  pub port : ℕ
  pub addr : List ℕ

abbrev pub af_inet : ℕ
af_inet = 2

abbrev pub af_inet6 : ℕ
af_inet6 = 10

-- `htons`, and `ntohs`, on a little-endian host.
unfoldable pub htons : ℕ → ℕ
htons x = x % 256 * 256 + x / 256 % 256

pub data SocketKind : Type 0 where
  stream datagram : SocketKind

-- The system calls; a socket's number stands first.
pub data Call : Type 0 where
  socket : SocketKind → Call
  bind : ℕ → SockAddr → Call
  getsockname : ℕ → Call
  listen : ℕ → ℕ → Call
  accept : ℕ → Call
  connect : ℕ → SockAddr → Call
  getaddrinfo : List ℕ → ℕ → Call

-- What a call that does not fail returns: a number, and an address where the call fills one in.
pub record Answer : Type 0 where
  pub number : ℕ
  pub address : List ℕ

-- The answer to a call after the calls before it, latest first; `none` for an error.
abbrev pub System : Type 0
System = List Call → Call → Option Answer

-- Code that makes system calls.
abbrev pub Calling : Type 0 → Type 0
Calling A = List Call → Result A × List Call

-- After the end of the program nothing more is called.
abbrev pub continue : {A B : Type 0} → Result A → (A → Calling B) → Calling B
continue (ok a) f h = f a h
continue (stop e) f h = (stop e, h)

infixl 5 ◌>>=◌ ◌>>◌
abbrev pub ◌>>=◌ : {A B : Type 0} → Calling A → (A → Calling B) → Calling B
◌>>=◌ m f h = continue (m h).0 f (m h).1

abbrev pub ◌>>◌ : {A B : Type 0} → Calling A → Calling B → Calling B
m >> k = m >>= λ _. k

abbrev pub finish : {A : Type 0} → Result A → Calling A
finish r h = (r, h)

-- A call whose error the code looks at.
abbrev pub try_call : System → Call → Calling (Option Answer)
try_call system c h = (ok (system h c), c ∷ h)

-- A call whose error ends the program.
unfoldable pub must_call : System → Call → Calling Answer
must_call system c = try_call system c >>= λ a. finish (present exit_failure a)

-- `safeRecvfrom`, `safeSendto`, `safeRecv` and `safeSend`: the number of bytes, or the end of the
-- program. `none` stands for a negative number.
unfoldable pub safe_recvfrom : Option ℕ → Result ℕ
safe_recvfrom returned = present exit_failure returned

unfoldable pub safe_sendto : Option ℕ → Result ℕ
safe_sendto returned = present exit_failure returned

unfoldable pub safe_recv : Option ℕ → Result ℕ
safe_recv returned = present exit_failure returned

unfoldable pub safe_send : Option ℕ → Result ℕ
safe_send returned = present exit_failure returned

-- `srealloc` and `sCalloc`: the block, or the end of the program.
abbrev pub srealloc {ℓ} : {A : Type ℓ} → Option A → Result A
srealloc block = present exit_failure block

abbrev pub s_calloc {ℓ} : {A : Type ℓ} → Option A → Result A
s_calloc block = present exit_failure block
