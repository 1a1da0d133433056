-- ===== src/Protocol/Loops.antt =====
-- The main loops of both programs, one round longer.
use rcopy.Base.{
  ◌≡◌, refl, sym, ◌∙◌, inl, inr, true, false, List, [], ◌∷◌, ◌++◌, Bool-cases, ok, ◌>>=◌,
  bind_assoc,
}
use rcopy.Checksum.{Checksum}
use rcopy.Net.{Event}
use rcopy.Server.Transfer.{Transfer, transfer_runs, transfer_turn, transfer_loop}
use rcopy.Rcopy.Receive.{Receive, receive_runs, receive_turn, receive_loop}
use rcopy.Rcopy.Receive.Silence.{receive_loop-append}

module _ (ck : Checksum) where
  transfer_over :
      (es : List Event) (t : Transfer) → transfer_runs t ≡ false → transfer_loop ck es t ≡ ok t
  unfolding transfer_loop
  transfer_over [] t over = refl
  transfer_over (e ∷ es) t over = rw (transfer_loop, over) refl

  -- The events of a loop may be cut in two.
  transfer_loop-append :
      (es fs : List Event) (t : Transfer)
      → transfer_loop ck (es ++ fs) t ≡ (transfer_loop ck es t >>= λ u. transfer_loop ck fs u)
  unfolding transfer_loop
  transfer_loop-append [] fs t = refl
  transfer_loop-append (e ∷ es) fs t = elim (Bool-cases (transfer_runs t)) [
    | inr over ↦ rw (transfer_loop, over) (sym (transfer_over fs t over))
    | inl runs ↦
        rw (transfer_loop, runs)
          (bind_assoc (transfer_turn ck t e) (λ u. transfer_loop ck (es ++ fs) u)
            (λ u. transfer_loop ck es u) (λ u. transfer_loop ck fs u)
            (λ u. transfer_loop-append es fs u))
  ]

  -- One round more.
  pub transfer_loop-snoc :
      (es : List Event) (e : Event) (s t u : Transfer)
      → transfer_loop ck es s ≡ ok t
      → transfer_runs t ≡ true
      → transfer_turn ck t e ≡ ok u
      → transfer_loop ck (es ++ (e ∷ [])) s ≡ ok u
  unfolding transfer_loop
  transfer_loop-snoc es e s t u run on turned =
      transfer_loop-append es (e ∷ []) s ∙ rw (run, transfer_loop, on, turned) refl

  pub receive_loop-snoc :
      (es : List Event) (e : Event) (s t u : Receive)
      → receive_loop ck es s ≡ ok t
      → receive_runs t ≡ true
      → receive_turn ck t e ≡ ok u
      → receive_loop ck (es ++ (e ∷ [])) s ≡ ok u
  unfolding receive_loop
  receive_loop-snoc es e s t u run on turned =
      receive_loop-append ck es (e ∷ []) s ∙ rw (run, receive_loop, on, turned) refl
