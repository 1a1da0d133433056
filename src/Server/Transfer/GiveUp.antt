-- ===== src/Server/Transfer/GiveUp.antt =====
-- server.c: the child that hears nothing sends its window again, and gives up in the end.
use rcopy.Base.{
  ℕ, zero, suc, ◌+◌, ◌-◌, ◌*◌, ◌^◌, ◌≤◌, ◌≡◌, refl, ap, arith, true, false, List, [], ◌∷◌, ◌++◌,
  length, replicate, length-append, Returns, Returns-weaken, Returns-eq,
}
use rcopy.Checksum.{Checksum}
use rcopy.Net.{timeout}
use rcopy.Spec.{IsConfig}
use rcopy.Wire.{Datagram, max_attempts}
use rcopy.Server.Transfer.{Transfer, transfer_loop, transfer_runs, transfer_turn}
use rcopy.Server.Transfer.Packets.{EachOf}
use rcopy.Server.Transfer.Serving.{Serving, Serving-with}
use rcopy.Server.Transfer.Resend.{AddsEach, retransmit-AddsEach}

length-EachOf :
    (P : ℕ → Datagram → Type 0) (i n : ℕ) (ds : List Datagram) → EachOf P i n ds → length ds ≡ n
length-EachOf P i zero [] h = refl
length-EachOf P i zero (d ∷ ds) h = elim h [ ]
length-EachOf P i (suc n) [] h = elim h [ ]
length-EachOf P i (suc n) (d ∷ ds) h = ap suc (length-EachOf P (i + 1) n ds h.1)

module _ (ck : Checksum) {window size : ℕ} (c : IsConfig window size) (bytes : List ℕ) where
  -- One second without a packet.
  silent_turn :
      (t : Transfer)
      → Serving window size bytes t
      → t.next_seq ≤ 2 ^ 32
      → Returns
          (AddsEach ck c bytes
            (λ k b. Unit)
            t.base
            (t.next_seq - t.base)
            (record t { attempts = t.attempts + 1 }))
          (transfer_turn ck t timeout)
  unfolding transfer_turn
  silent_turn t s small =
      retransmit-AddsEach ck c bytes (record t { attempts = t.attempts + 1 })
        (Serving-with window size bytes t t.client (t.attempts + 1) t.eof_acked t.sent s) small

  -- For a child that keeps the invariant, with the next sequence number at most 2^32, the end not
  -- acknowledged and `n` attempts left: `n` waits without a packet end the main loop, and as many
  -- packets have been sent as `n` times the packets of the window.
  pub silent_loop :
      (n : ℕ) (t : Transfer)
      → Serving window size bytes t
      → t.next_seq ≤ 2 ^ 32
      → t.eof_acked ≡ false
      → t.attempts + n ≡ max_attempts
      → Returns
          (λ u.
            (transfer_runs u ≡ false) × (length u.sent ≡ length t.sent + n * (t.next_seq - t.base)))
          (transfer_loop ck (replicate n timeout) t)
  unfolding transfer_loop
  silent_loop zero t s small off full = (ground arith, omega arith)
  silent_loop (suc n) t s small off full =
      let runs : transfer_runs t ≡ true = ground arith in
      let (u, eq, (ds, same, each)) =
        Returns-eq
          (AddsEach ck c bytes (λ k b. Unit) t.base (t.next_seq - t.base)
            (record t { attempts = t.attempts + 1 }))
          (transfer_turn ck t timeout) (silent_turn t s small) in
      let v : Transfer = record t { attempts = t.attempts + 1; sent = t.sent ++ ds } in
      let round : suc n * (t.next_seq - t.base)
          ≡ n * (t.next_seq - t.base) + (t.next_seq - t.base) =
        grind arith in
      rw (runs, transfer_loop, eq, same)
        (Returns-weaken
          (λ w.
            (transfer_runs w ≡ false) × (length w.sent ≡ length v.sent + n * (t.next_seq - t.base)))
          _ (transfer_loop ck (replicate n timeout) v)
          (silent_loop n v
            (Serving-with window size bytes t t.client (t.attempts + 1) t.eof_acked (t.sent ++ ds)
              s)
            small off (omega arith))
          (λ w (over, count). (
            over,
            omega (
              arith,
              length-append t.sent ds,
              length-EachOf _ t.base (t.next_seq - t.base) ds each,
            ),
          )))
