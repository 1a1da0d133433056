-- ===== src/Session/Asking.antt =====
-- rcopy.c: `stateHandshake` when some requests or answers get lost before one comes through.
use rcopy.Base.{
  ℕ, zero, suc, ◌+◌, ◌≤◌, ◌<◌, ◌≡◌, refl, ◌∙◌, arith, true, none, some, List, [], ◌∷◌, ◌++◌,
  append_assoc, length, replicate, lt→ltb, ok,
}
use rcopy.Checksum.{Checksum}
use rcopy.Net.{Event, timeout, arrival}
use rcopy.Wire.{Address, Datagram, max_attempts}
use rcopy.Rcopy.Handshake.{
  Handshake, state_file_receive, send_filename, on_answer, retry, handshake_turn, handshake_loop,
}
use rcopy.Server.Client.{Access, ack_header}
use rcopy.Handshake.{Carries, answer, send_filename-Carries, on_answer-Carries}
use rcopy.Handshake.Ends.{SameRequest}

-- Waits of the handshake: some that bring nothing, and one that brings the answer.
abbrev pub lost_then : ℕ → Address → List ℕ → List Event
lost_then lost src q = replicate lost timeout ++ (arrival src q ∷ [])

module _ (ck : Checksum) (access : Access) (n : ℕ) (resolved src : Address) where
  -- What the handshake comes to: the file's state, with the address of the sender of the answer, the
  -- request as it was, and `d` the first packet that it has sent.
  abbrev pub Asked : Handshake → Datagram → List Event → Type 0
  Asked s d events =
      (t : Handshake) × (handshake_loop ck (some n) resolved events s
        ≡ ok (some state_file_receive, t))
      × SameRequest s t
      × (t.server ≡ src)
      × (rest : List Datagram) × (t.sent ≡ s.sent ++ (d ∷ rest))

  on_answer-timeout :
      (s : Handshake) → on_answer ck resolved s timeout ≡ ok (none, retry ck resolved s)
  unfolding on_answer
  on_answer-timeout s = refl

  pub lost_then-Asked :
      (lost : ℕ) (s : Handshake) (d : Datagram) (q : List ℕ)
      → access s.filename ≡ true
      → length s.filename ≤ 100
      → Carries ck ack_header (answer ck access s.filename) q
      → send_filename ck (some n) s ≡ ok (record s { sent = s.sent ++ (d ∷ []) })
      → s.attempts + lost < max_attempts
      → Asked s d (lost_then lost src q)
  unfolding handshake_loop handshake_turn
  lost_then-Asked zero s d q there short carries sent few =
      let answered =
        on_answer-Carries ck access resolved src (record s { sent = s.sent ++ (d ∷ []) }) s.filename
          q carries in
      (
        record s { server = src; sent = s.sent ++ (d ∷ []) },
        rw (lt→ltb s.attempts max_attempts (omega arith), handshake_loop, sent, answered, there)
            refl,
        (refl, refl, refl),
        refl,
        [],
        refl,
      )
  lost_then-Asked (suc lost) s d q there short carries sent few =
      let u : Handshake = retry ck resolved (record s { sent = s.sent ++ (d ∷ []) }) in
      let (p, resent, asks) = send_filename-Carries ck n u short in
      let (t, run, same, from, rest, all) =
        lost_then-Asked lost u (record { dest = resolved; packet = p }) q there short carries resent
          (omega arith) in
      (
        t,
        rw
            (
              lt→ltb s.attempts max_attempts (omega arith),
              handshake_loop,
              sent,
              on_answer-timeout (record s { sent = s.sent ++ (d ∷ []) }),
            )
            run,
        same,
        from,
        _,
        all ∙ append_assoc s.sent (d ∷ []) _,
      )
