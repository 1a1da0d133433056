-- ===== src/Handshake/Ends.antt =====
-- rcopy.c: `stateHandshake` comes to an end within its attempts.
use rcopy.Base.{
  ℕ, ◌+◌, ◌≤◌, ◌<◌, ◌≡◌, ◌⊎◌, inl, inr, refl, ap, ◌∙◌, arith, Option, none, some, List, [], ◌∷◌,
  All, length, drop, Result, ok, stop, exit_failure, Bool-cases, ltb, le→ltb, le→leb, ==_iff, ◌==◌,
  c_string, same_text,
}
use rcopy.Checksum.{Checksum}
use rcopy.Net.{Event, timeout, arrival, received}
use rcopy.Wire.{PduHeader, Address, read_header, header_size, max_attempts, send_pdu}
use rcopy.Rcopy.Handshake.{
  Handshake, RcopyState, state_file_receive, state_done, send_filename, on_ack, on_answer, retry,
  filename_payload, filename_header, handshake_turn, handshake_loop, state_handshake_run, max_ack,
  text_ok,
}
use rcopy.Wire.RoundTrip.{build_pdu-eq}
use rcopy.Handshake.{send_filename-Carries, length-filename_payload}

-- A datagram is empty or has a full header, and an acknowledgement fits its array.
abbrev pub IsAnswer : Event → Type 0
IsAnswer timeout = Unit
IsAnswer (arrival src bytes) =
    0 < length (received bytes)
    → (h : PduHeader) × (read_header (received bytes) ≡ ok h)
      × (h.flag ≡ 9 → length (drop header_size (received bytes)) ≤ max_ack)

-- What the handshake leaves of its request.
abbrev pub SameRequest : Handshake → Handshake → Type 0
SameRequest s t =
    (t.filename ≡ s.filename) × (t.windowsize ≡ s.windowsize) × (t.buffersize ≡ s.buffersize)

SameRequest-trans : (s t u : Handshake) → SameRequest s t → SameRequest t u → SameRequest s u
SameRequest-trans s t u (a, b, c) (d, e, f) = (d ∙ a, e ∙ b, f ∙ c)

-- The handshake has ended the program, or goes on to the file or to the end with its request.
abbrev pub IsDecided : Handshake → Result (Option RcopyState × Handshake) → Type 0
IsDecided s r =
    (r ≡ stop exit_failure)
    ⊎ ((t : Handshake) × SameRequest s t
        × ((r ≡ ok (some state_file_receive, t)) ⊎ (r ≡ ok (some state_done, t))))

IsDecided-trans :
    (s t : Handshake) {r : Result (Option RcopyState × Handshake)}
    → SameRequest s t
    → IsDecided t r
    → IsDecided s r
IsDecided-trans s t same (inl stopped) = inl stopped
IsDecided-trans s t same (inr (u, same_too, e)) = inr (u, SameRequest-trans s t u same same_too, e)

module _ (ck : Checksum) where
  on_answer-cases :
      (resolved : Address) (s : Handshake) (e : Event)
      → IsAnswer e
      → (on_answer ck resolved s e ≡ ok (none, retry ck resolved s))
        ⊎ IsDecided s (on_answer ck resolved s e)
  unfolding on_answer on_ack
  on_answer-cases resolved s timeout f = inl refl
  on_answer-cases resolved s (arrival src bytes) f =
      elim (Bool-cases (ltb 0 (length (received bytes)))) [
        | inr e ↦ rw e (inl refl)
        | inl e ↦
            let (h, read, fits) = f (ground arith) in
            rw (e, read)
              (elim (Bool-cases (h.flag == 9)) [
                | inr other ↦ rw other (inl refl)
                | inl nine ↦
                    rw (nine, le→leb _ max_ack (fits ((==_iff h.flag 9).0 nine)))
                      (elim (Bool-cases
                        (same_text (c_string (drop header_size (received bytes))) text_ok)) [
                          | inl same ↦ rw same (inr (inr (_, (refl, refl, refl), inl refl)))
                          | inr other ↦ rw other (inr (inl refl))
                        ])
              ])
      ]

  send_filename-cases :
      (sent_bytes : Option ℕ) (s : Handshake)
      → length s.filename ≤ 100
      → (send_filename ck sent_bytes s ≡ stop exit_failure)
        ⊎ ((u : Handshake) × (send_filename ck sent_bytes s ≡ ok u)
            × SameRequest s u
            × (u.attempts ≡ s.attempts))
  unfolding send_filename send_pdu
  send_filename-cases none s short =
      let payload = filename_payload s.filename s.buffersize s.windowsize in
      inl (
        rw
          (build_pdu-eq ck s.server filename_header payload (length payload)
            (omega (arith, length-filename_payload s.filename s.buffersize s.windowsize short))
            (omega arith))
          refl)
  send_filename-cases (some n) s short =
      let (p, eq, carries) = send_filename-Carries ck n s short in
      inr (_, eq, (refl, refl, refl), refl)

  -- A round decides, or leaves one attempt fewer.
  handshake_turn-cases :
      (sent_bytes : Option ℕ) (resolved : Address) (s : Handshake) (e : Event)
      → length s.filename ≤ 100
      → IsAnswer e
      → ((u : Handshake) × (handshake_turn ck sent_bytes resolved s e ≡ ok (none, u))
          × SameRequest s u
          × (u.attempts ≡ s.attempts + 1))
        ⊎ IsDecided s (handshake_turn ck sent_bytes resolved s e)
  unfolding handshake_turn
  handshake_turn-cases sent_bytes resolved s e short f =
      elim (send_filename-cases sent_bytes s short) [
        | inl failed ↦ rw failed (inr (inl refl))
        | inr (u, sent, same, count) ↦ rw sent (elim (on_answer-cases resolved u e f) [
          | inl again ↦ inl (retry ck resolved u, again, same, ap (λ (k : ℕ). k + 1) count)
          | inr decided ↦ inr (IsDecided-trans s u same decided)
        ])
      ]

  handshake_loop-IsDecided :
      (sent_bytes : Option ℕ) (resolved : Address) (events : List Event) (s : Handshake)
      → length s.filename ≤ 100
      → All IsAnswer events
      → max_attempts ≤ s.attempts + length events
      → IsDecided s (handshake_loop ck sent_bytes resolved events s)
  unfolding handshake_loop
  handshake_loop-IsDecided sent_bytes resolved [] s short f enough =
      rw (le→ltb s.attempts max_attempts (omega arith)) (inr (s, (refl, refl, refl), inr refl))
  handshake_loop-IsDecided sent_bytes resolved (e ∷ es) s short (f, fs) enough =
      elim (Bool-cases (ltb s.attempts max_attempts)) [
        | inr over ↦ rw (over, handshake_loop) (inr (s, (refl, refl, refl), inr refl))
        | inl more ↦ elim (handshake_turn-cases sent_bytes resolved s e short f) [
          | inl (u, turned, same, count) ↦
              rw (more, handshake_loop, turned)
                (IsDecided-trans s u same (
                  handshake_loop-IsDecided sent_bytes resolved es u
                    (omega (arith, ap length same.0)) fs (omega (arith, count))))
          | inr (inl stopped) ↦ rw (more, handshake_loop, stopped) (inl refl)
          | inr (inr (t, same, inl received)) ↦
              rw (more, handshake_loop, received) (inr (t, same, inl refl))
          | inr (inr (t, same, inr done)) ↦
              rw (more, handshake_loop, done) (inr (t, same, inr refl))
        ]
      ]

-- For a file name of at most 100 bytes, whether the sends succeed or not, and at least ten waits
-- whose datagrams are empty or have a full header, with an acknowledgement of at most 1393 bytes:
-- `stateHandshake` comes to an end without a fault. It ends the program, goes on to the file, or
-- gives up, and leaves the file name and the two sizes as they were.
pub handshake_decides :
    (ck : Checksum) (sent_bytes : Option ℕ) (resolved : Address) (events : List Event)
    (s : Handshake)
    → length s.filename ≤ 100
    → All IsAnswer events
    → max_attempts ≤ length events
    → IsDecided s (state_handshake_run ck sent_bytes resolved events s)
unfolding state_handshake_run
handshake_decides ck sent_bytes resolved events s short f enough =
    handshake_loop-IsDecided ck sent_bytes resolved events (record s { attempts = 0 }) short f
      (omega arith)
