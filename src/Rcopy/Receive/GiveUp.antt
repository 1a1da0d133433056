-- ===== src/Rcopy/Receive/GiveUp.antt =====
-- How `stateFileReceive` ends when the server falls silent.
use rcopy.Base.{
  ℕ, zero, suc, ◌+◌, ◌≡◌, refl, sym, ap, ap₂, ◌∙◌, arith, true, false, List, [], ◌∷◌, ◌++◌,
  replicate, append_assoc, append-nil, ok,
}
use rcopy.Checksum.{Checksum}
use rcopy.Net.{Event, timeout}
use rcopy.Rcopy.Receive.{Receive, rr_header, text_rr, receive_turn, receive_runs, receive_loop}
use rcopy.Rcopy.Receive.Replies.{replied, send_rr-eq}

-- The client as `n` waits in vain leave it.
abbrev pub after_silence : Checksum → ℕ → Receive → Receive
after_silence ck n s = record s {
  attempts = s.attempts + n;
  sent = s.sent ++ replicate n (replied ck s (rr_header s.expected_seq) text_rr);
}

module _ (ck : Checksum) where
  pub stopped_loop :
      (es : List Event) (s : Receive) → receive_runs s ≡ false → receive_loop ck es s ≡ ok s
  unfolding receive_loop
  stopped_loop [] s over = refl
  stopped_loop (e ∷ es) s over = rw (receive_loop, over) refl

  silence_again :
      (n : ℕ) (s : Receive)
      → after_silence ck n (record s {
        attempts = s.attempts + 1;
        sent = s.sent ++ (replied ck s (rr_header s.expected_seq) text_rr ∷ []);
      })
        ≡ after_silence ck (suc n) s
  silence_again n s =
      ap₂ (λ a l. record s { attempts = a; sent = l }) (omega arith)
        (append_assoc s.sent (replied ck s (rr_header s.expected_seq) text_rr ∷ [])
          (replicate n (replied ck s (rr_header s.expected_seq) text_rr)))

  -- For a client that has not taken the end and has `n` attempts left: `n` waits without a packet end the
  -- main loop, whatever might come after them. The client has asked `n` times for the packet expected,
  -- and has changed nothing else.
  pub client_gives_up :
      (n : ℕ) (s : Receive) (more : List Event)
      → s.eof ≡ false
      → s.attempts + n ≡ 10
      → (receive_loop ck (replicate n timeout ++ more) s ≡ ok (after_silence ck n s))
        × (receive_runs (after_silence ck n s) ≡ false)
  unfolding receive_loop receive_turn
  client_gives_up zero s more open_yet left =
      let same : after_silence ck 0 s ≡ s =
        ap₂ (λ a l. record s { attempts = a; sent = l }) (omega arith) (append-nil s.sent) in
      let over : receive_runs s ≡ false = ground arith in
      (
        stopped_loop more s over ∙ ap (λ u. ok u) (sym same),
        ap (λ (u : Receive). receive_runs u) same ∙ over,
      )
  client_gives_up (suc n) s more open_yet left =
      let u : Receive = record s {
        attempts = s.attempts + 1;
        sent = s.sent ++ (replied ck s (rr_header s.expected_seq) text_rr ∷ []);
      } in
      let runs : receive_runs s ≡ true = ground arith in
      let (ended, off) = client_gives_up n u more open_yet (omega arith) in
      (
        rw
            (
              receive_loop,
              runs,
              send_rr-eq ck (record s { attempts = s.attempts + 1 }) s.expected_seq,
            )
            (ended ∙ ap (λ u. ok u) (silence_again n s)),
        ap (λ (u : Receive). receive_runs u) (sym (silence_again n s)) ∙ off,
      )
