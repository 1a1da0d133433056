-- ===== src/Rcopy/Receive/Silence.antt =====
-- How `stateFileReceive` ends, whatever has happened before, when the server falls silent at last.
use rcopy.Base.{
  ℕ, zero, suc, ◌+◌, ◌≤◌, ◌≡◌, refl, sym, arith, true, false, inl, inr, Bool-cases, List, [], ◌∷◌,
  ◌++◌, replicate, Result, ok, stop, ◌>>=◌, bind_assoc, Returns, Returns-eq, subst,
}
use rcopy.Checksum.{Checksum}
use rcopy.Net.{Event, timeout}
use rcopy.Spec.{IsConfig}
use rcopy.Window.{Malloc, init_window}
use rcopy.Wire.{Address, max_attempts}
use rcopy.Rcopy.Receive.{
  Receive, rr_header, text_rr, receive_turn, receive_runs, receive_loop, state_file_receive,
}
use rcopy.Rcopy.Receive.Replies.{replied, send_rr-eq}
use rcopy.Rcopy.Receive.GiveUp.{stopped_loop}
use rcopy.Rcopy.Receive.Round.{FairRun}

-- The program has ended, or the main loop has.
abbrev pub IsOver : Result Receive → Type 0
IsOver (ok s) = receive_runs s ≡ false
IsOver (stop e) = Unit

IsOver-bind :
    {A : Type 0} (m : Result A) (f : A → Result Receive)
    → ((a : A) → IsOver (f a))
    → IsOver (m >>= f)
IsOver-bind (ok a) f h = h a
IsOver-bind (stop e) f h = tt

-- As many waits in vain as a loop may have.
abbrev pub silent : List Event
silent = replicate max_attempts timeout

module _ (ck : Checksum) where
  pub receive_loop-append :
      (es fs : List Event) (s : Receive)
      → receive_loop ck (es ++ fs) s ≡ (receive_loop ck es s >>= λ u. receive_loop ck fs u)
  unfolding receive_loop
  receive_loop-append [] fs s = refl
  receive_loop-append (e ∷ es) fs s = elim (Bool-cases (receive_runs s)) [
    | inr over ↦ rw (receive_loop, over) (sym (stopped_loop ck fs s over))
    | inl runs ↦
        rw (receive_loop, runs)
          (bind_assoc (receive_turn ck s e) (λ u. receive_loop ck (es ++ fs) u)
            (λ u. receive_loop ck es u) (λ u. receive_loop ck fs u)
            (λ u. receive_loop-append es fs u))
  ]

  -- Enough waits in vain end the loop, and nothing is written at them.
  pub silence_ends :
      (n : ℕ) (s : Receive)
      → max_attempts ≤ s.attempts + n
      → Returns
          (λ u. (receive_runs u ≡ false) × (u.output ≡ s.output))
          (receive_loop ck (replicate n timeout) s)
  unfolding receive_loop receive_turn
  silence_ends zero s enough = (ground arith, refl)
  silence_ends (suc n) s enough = elim (Bool-cases (receive_runs s)) [
    | inr over ↦ rw (receive_loop, over) (over, refl)
    | inl runs ↦
        let u : Receive = record s {
          attempts = s.attempts + 1;
          sent = s.sent ++ (replied ck s (rr_header s.expected_seq) text_rr ∷ []);
        } in
        rw
          (
            receive_loop,
            runs,
            send_rr-eq ck (record s { attempts = s.attempts + 1 }) s.expected_seq,
          )
          (silence_ends n u (omega arith))
  ]

  silent-IsOver : (s : Receive) → IsOver (receive_loop ck silent s)
  silent-IsOver s =
      let (u, e, (over, same)) =
        Returns-eq (λ u. (receive_runs u ≡ false) × (u.output ≡ s.output))
          (receive_loop ck silent s) (silence_ends max_attempts s (omega arith)) in
      subst IsOver (sym e) over

  -- Silence ends the reception after any events.
  pub state_file_receive-IsOver :
      (malloc : Malloc) (server : Address) (window size : ℕ) (events : List Event)
      → IsOver (state_file_receive ck malloc true server window size false (events ++ silent))
  unfolding state_file_receive
  state_file_receive-IsOver malloc server window size events =
      IsOver-bind (init_window malloc window size) _ (λ wb.
        let start : Receive = record {
          server = server;
          windowsize = window;
          attempts = 0;
          eof = false;
          wb = wb;
          expected_seq = 0;
          output = [];
          sent = [];
        } in
        subst IsOver (sym (receive_loop-append events silent start))
          (IsOver-bind (receive_loop ck events start) _ (λ u. silent-IsOver u)))

module _ (ck : Checksum) {window size : ℕ} (c : IsConfig window size) (bytes : List ℕ) where
  -- Silence is fair.
  pub silent-FairRun :
      (n : ℕ) (es : List Event) (s : Receive)
      → FairRun ck c bytes es s
      → FairRun ck c bytes (es ++ replicate n timeout) s
  silent-FairRun zero [] s f = tt
  silent-FairRun (suc n) [] s f = λ runs. (tt, λ u turned. silent-FairRun n [] u tt)
  silent-FairRun n (e ∷ es) s f =
      λ runs. ((f runs).0, λ u turned. silent-FairRun n es u ((f runs).1 u turned))
