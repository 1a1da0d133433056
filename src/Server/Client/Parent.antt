-- ===== src/Server/Client/Parent.antt =====
-- server.c, `runServerFSM`: which children the parent process starts.
use rcopy.Base.{
  ℕ, suc, ◌≤◌, ◌≡◌, ◌⊎◌, inl, inr, refl, sym, ◌∙◌, arith, List, [], ◌∷◌, length, length-append,
  Bool-cases, ltb, ltb→le, ==_iff, ◌==◌, ℤ, Result, ok, stop, ◌>>=◌, subst, Bool, true, false, ◌++◌,
}
use rcopy.Checksum.{Checksum}
use rcopy.Net.{received}
use rcopy.Wire.{Address, header_size}
use rcopy.Server.Args.{check_args, idle_server, server_main}
use rcopy.Server.Client.{
  Child, Server, state_wait_packet, state_transfer_to_child, ServerEvent, packet, fork_failed,
  forked, child_info, forked_child, wait_packet, transfer_to_child, Steps, waits, forks, fails,
}

-- A datagram from `src` that `recvfrom` stored as `pdu` is among the events.
abbrev pub Heard : Address → List ℕ → List ServerEvent → Type 0
Heard src pdu [] = ⊥
Heard src pdu (packet from bytes ∷ es) = ((from ≡ src) × (received bytes ≡ pdu)) ⊎ Heard src pdu es
Heard src pdu (fork_failed ∷ es) = Heard src pdu es
Heard src pdu (forked bound memory ∷ es) = Heard src pdu es

-- How often `fork` has succeeded.
abbrev pub count_forked : List ServerEvent → ℕ
count_forked [] = 0
count_forked (packet from bytes ∷ es) = count_forked es
count_forked (fork_failed ∷ es) = count_forked es
count_forked (forked bound memory ∷ es) = suc (count_forked es)

module _ (ck : Checksum) where
  open ck use {in_cksum}

  -- Some rounds of the loop from `s`, with the events, latest first.
  pub data Runs (s : Server) : List ServerEvent → Server → Type 0 where
    starts : Runs s [] s
    goes_on :
        {e : ServerEvent} {es : List ServerEvent} {t u : Server}
        → Runs s es t
        → Steps ck t e u
        → Runs s (e ∷ es) u

  -- A packet with a right checksum and a full header has come from the client.
  abbrev pub IsRequest : List ServerEvent → Address → List ℕ → Type 0
  IsRequest es client pdu = (in_cksum pdu ≡ 0) × (header_size ≤ length pdu) × Heard client pdu es

  -- The children, oldest first, of the forks among the events, latest first. At its fork each gets a
  -- request that has come. If its socket is bound, it has the sender as its client and no attempt made;
  -- otherwise it has what the memory held.
  pub data Children : List ServerEvent → List Child → Type 0 where
    nobody : Children [] []
    hears :
        {es : List ServerEvent} {cs : List Child} (src : Address) (bytes : List ℕ)
        → Children es cs
        → Children (packet src bytes ∷ es) cs
    misses :
        {es : List ServerEvent} {cs : List Child} → Children es cs → Children (fork_failed ∷ es) cs
    bears :
        {es : List ServerEvent} {cs : List Child} (memory c : Child)
        → Children es cs
        → IsRequest es c.client c.pdu
        → c.attempts ≡ 0
        → Children (forked true memory ∷ es) (cs ++ (c ∷ []))
    bears_unbound :
        {es : List ServerEvent} {cs : List Child} (memory c : Child) (src : Address)
        → Children es cs
        → IsRequest es src c.pdu
        → c.client ≡ memory.client
        → c.attempts ≡ memory.attempts
        → Children (forked false memory ∷ es) (cs ++ (c ∷ []))

  -- Each child started has a request, and so has the state that comes before a fork.
  record Keeps (es : List ServerEvent) (s : Server) : Type 0 where
    children : Children es s.children
    count : length s.children ≡ count_forked es
    asked : s.state ≡ state_transfer_to_child → IsRequest es s.client s.pdu

  waiting_ne : state_wait_packet ≡ state_transfer_to_child → ⊥
  waiting_ne e = cc

  wait_packet-Keeps :
      (es : List ServerEvent) (s : Server) (src : Address) (bytes : List ℕ)
      → s.state ≡ state_wait_packet
      → Keeps es s
      → Keeps (packet src bytes ∷ es) (wait_packet ck s src bytes)
  unfolding wait_packet
  wait_packet-Keeps es s src bytes waiting k =
      let refused : Keeps (packet src bytes ∷ es) (record s { client = src }) = record {
        children = hears src bytes k.children;
        count = k.count;
        asked = λ e. absurd (waiting_ne (sym waiting ∙ e));
      } in
      elim (Bool-cases (in_cksum (received bytes) == 0)) [
        | inr bad ↦ rw bad refused
        | inl good ↦ elim (Bool-cases (ltb (length (received bytes)) header_size)) [
          | inl short ↦ rw (good, short) refused
          | inr full ↦
              rw (good, full)
                (record {
                  children = hears src bytes k.children;
                  count = k.count;
                  asked = λ e. (
                    (==_iff (in_cksum (received bytes)) 0).0 good,
                    ltb→le (length (received bytes)) header_size full,
                    inl (refl, refl),
                  );
                })
        ]
      ]

  Steps-Keeps :
      (es : List ServerEvent) (s : Server) (e : ServerEvent) (t : Server)
      → Steps ck s e t
      → Keeps es s
      → Keeps (e ∷ es) t
  unfolding transfer_to_child forked_child child_info
  Steps-Keeps es s _ _ (waits src bytes waiting) k = wait_packet-Keeps es s src bytes waiting k
  Steps-Keeps es s _ _ (forks true memory ready) k = record {
    children = bears memory (forked_child true memory s) k.children (k.asked ready) refl;
    count = omega (arith, length-append s.children (forked_child true memory s ∷ []), k.count);
    asked = λ e. absurd (waiting_ne e);
  }
  Steps-Keeps es s _ _ (forks false memory ready) k = record {
    children =
        bears_unbound memory (forked_child false memory s) s.client k.children (k.asked ready) refl
          refl;
    count = omega (arith, length-append s.children (forked_child false memory s ∷ []), k.count);
    asked = λ e. absurd (waiting_ne e);
  }
  Steps-Keeps es s _ _ (fails ready) k = record {
    children = misses k.children;
    count = k.count;
    asked = λ e. absurd (waiting_ne e);
  }

  Runs-Keeps :
      (s : Server) (es : List ServerEvent) (t : Server) → Runs s es t → Keeps [] s → Keeps es t
  Runs-Keeps s _ _ starts k = k
  Runs-Keeps s _ _ (goes_on {e = e} {es = es} {t = t} {u = u} runs step) k =
      Steps-Keeps es t e u step (Runs-Keeps s es t runs k)

-- `main` comes to its loop in one state only.
server_main-eq :
    (m : Result ℤ) (s : Server) → (m >>= λ port_num. ok idle_server) ≡ ok s → idle_server ≡ s
server_main-eq (ok port) s e = cc
server_main-eq (stop reason) s e = cc

-- From the state in which `main` comes to the loop of the parent process, if it accepts its command
-- line, after any rounds of the loop: there is one child for each successful fork, in their order, and
-- each has a packet with a right checksum and a full header that came before its fork. A child whose
-- socket is bound has, with no attempt made, as its client the address that this packet came from;
-- a child whose socket is not has the client and the attempts that its memory held.
pub children_requested :
    (ck : Checksum) (atoi : List ℕ → ℤ) (rate_in_range : List ℕ → Bool) (argv : List (List ℕ))
    (s : Server) (es : List ServerEvent) (t : Server)
    → server_main atoi rate_in_range argv ≡ ok s
    → Runs ck s es t
    → (length t.children ≡ count_forked es) × Children ck es t.children
unfolding server_main
children_requested ck atoi rate_in_range argv s es t begun runs =
    let idle = server_main-eq (check_args atoi rate_in_range argv) s begun in
    let k = Runs-Keeps ck s es t runs (
      subst (λ (u : Server). Keeps ck [] u) idle
        (record { children = nobody; count = refl; asked = λ e. absurd (waiting_ne ck e) })) in
    (k.count, k.children)
