-- ===== src/Server/Transfer/Resend.antt =====
-- `retransmit_packets` and the answer to an SREJ: which packets are sent again.
use rcopy.Base.{
  ℕ, zero, suc, ◌+◌, ◌-◌, ◌*◌, ◌%◌, ◌^◌, ◌≤◌, ◌<◌, ◌≡◌, refl, sym, ap, subst, ◌∙◌, arith, Bool,
  true, false, ◌&&◌, inl, inr, some, get_elem?, List, [], ◌∷◌, ◌++◌, length, take, drop, take-take,
  append-nil, append_assoc, length-take, ◌==◌, Bool-cases, eq_of_some, Returns, Returns-bind,
  Returns-weaken, dec_le,
}
use rcopy.Checksum.{Checksum}
use rcopy.Spec.{chunk, IsConfig}
use rcopy.Window.{Pane}
use rcopy.Wire.{Datagram}
use rcopy.Server.Transfer.{Transfer, resend, resend_from, retransmit_packets}
use rcopy.Server.Transfer.Packets.{EachOf, Honest, carries, ends, data_packet, send_data_packet-eq}
use rcopy.Base.{◌⊎◌}
use rcopy.Server.Transfer.Terms.{Labelled}
use rcopy.Server.Transfer.Serving.{Serving, Serving-with}

module _ (ck : Checksum) {window size : ℕ} (c : IsConfig window size) (bytes : List ℕ) where
  -- One more packet, which satisfies `P`, has been sent, and nothing else has changed.
  abbrev pub AddsOne : (Datagram → Type 0) → Transfer → Transfer → Type 0
  AddsOne P t u = (d : Datagram) × (u ≡ record t { sent = t.sent ++ (d ∷ []) }) × P d

  -- A packet sent again on demand, whatever sequence number is asked for.
  pub resend-AddsOne :
      (t : Transfer) (i : ℕ)
      → Serving window size bytes t
      → Returns (AddsOne (Labelled ck i (t.eof_sent && (i == t.eof_seq))) t) (resend ck t i)
  unfolding resend
  resend-AddsOne t i s = elim (Bool-cases (t.eof_sent && (i == t.eof_seq))) [
    | inl e ↦
        let (p, at, eq) = send_data_packet-eq ck t i true 0 s.sized c.window_pos (omega arith) in
        rw (e, eq) (_, refl, ([], omega arith, refl))
    | inr e ↦
        let (p, at, eq) =
          send_data_packet-eq ck t i false t.wb.buffer_size s.sized c.window_pos
            (omega (arith, s.sized.buffer_size, c.size_max)) in
        rw (e, eq)
          (
            _,
            refl,
            (
              take t.wb.buffer_size p.content,
              omega
                  (arith, length-take t.wb.buffer_size p.content, s.sized.buffer_size, c.size_max),
              refl,
            ),
          )
  ]

  -- What goes out for `k` when it is sent again: to the client, the packet that ends the file without
  -- content if `k` is its number, and a truthful data packet of `k` otherwise.
  abbrev pub IsResent : (ℕ → Bool → Type 0) → Transfer → ℕ → Datagram → Type 0
  IsResent Place t k d =
      Honest ck Place size bytes k d
      × ((((t.eof_sent && (k == t.eof_seq)) ≡ false)
            × ((body : List ℕ) × (d ≡ data_packet ck t.client k false body)))
          ⊎ (((t.eof_sent && (k == t.eof_seq)) ≡ true) × (d ≡ data_packet ck t.client k true [])))

  pub IsResent-dest :
      (Place : ℕ → Bool → Type 0) (t : Transfer) (k : ℕ) (d : Datagram)
      → IsResent Place t k d
      → d.dest ≡ t.client
  IsResent-dest Place t k d (h, inl (e, (body, same))) = ap (λ (x : Datagram). x.dest) same
  IsResent-dest Place t k d (h, inr (e, same)) = ap (λ (x : Datagram). x.dest) same

  module _ (t : Transfer) (i : ℕ) (s : Serving window size bytes t) (low : t.base ≤ i)
      (high : i < t.next_seq) where
    -- A packet of the window that does not end the file is in its pane.
    pub in_window :
        (t.eof_sent && (i == t.eof_seq)) ≡ false
        → (i < s.filled) × (s.filled ≤ i + window) × (t.eof_sent ≡ true → i < t.eof_seq)
    in_window e = elim (Bool-cases t.eof_sent) [
      | inl on ↦
          let other : i < t.eof_seq = ground (arith, s.ended on) in
          (omega (arith, s.ended on), omega (arith, s.reach), λ _. other)
      | inr off ↦ (omega (arith, s.reading off), omega (arith, s.reach), λ on. cc)
    ]

    front :
        (p : Pane)
        → get_elem? t.wb.panes (i % window) ≡ some p
        → (t.eof_sent && (i == t.eof_seq)) ≡ false
        → take (length (chunk size bytes i)) (take t.wb.buffer_size p.content) ≡ chunk size bytes i
    front p at e =
        let (q, there, holds) = s.held i (in_window e).0 (in_window e).1 in
        take-take (length (chunk size bytes i)) t.wb.buffer_size p.content
          (omega (arith, length-take size (drop (i * size) bytes), s.sized.buffer_size))
        ∙ ap (λ (r : Pane). take (length (chunk size bytes i)) r.content)
            (eq_of_some (sym at ∙ there))
        ∙ holds

    ending : (t.eof_sent && (i == t.eof_seq)) ≡ true → length (drop (i * size) bytes) < size
    ending e =
        let (on, same) : (t.eof_sent ≡ true) × (i ≡ t.eof_seq) = ground arith in
        rw same (s.ended on).3

    before_end : (t.eof_sent && (i == t.eof_seq)) ≡ true → (j : ℕ) → j < i → j * size < length bytes
    before_end e j lt =
        let (on, same) : (t.eof_sent ≡ true) × (i ≡ t.eof_seq) = ground arith in
        s.inside j (omega (arith, s.ended on)) (λ h. omega arith)

    -- A packet of the window sent again tells the truth, and stands where it may.
    pub resend-IsResent :
        (Place : ℕ → Bool → Type 0)
        → Place i (t.eof_sent && (i == t.eof_seq))
        → i < 2 ^ 32
        → Returns (AddsOne (IsResent Place t i) t) (resend ck t i)
    unfolding resend
    resend-IsResent Place place small = elim (Bool-cases (t.eof_sent && (i == t.eof_seq))) [
      | inl e ↦
          let (p, at, eq) = send_data_packet-eq ck t i true 0 s.sized c.window_pos (omega arith) in
          rw (e, eq)
            (
              _,
              refl,
              (
                ends [] small (omega arith) refl (ending e) (before_end e) (inl refl)
                    (subst (λ b. Place i b) e place),
                inr (e, refl),
              ),
            )
      | inr e ↦
          let (p, at, eq) =
            send_data_packet-eq ck t i false t.wb.buffer_size s.sized c.window_pos
              (omega (arith, s.sized.buffer_size, c.size_max)) in
          rw (e, eq)
            (
              _,
              refl,
              (
                carries _ small
                    (omega (arith, length-take t.wb.buffer_size p.content, s.sized.buffer_size))
                    refl (s.inside i (in_window e).0 (in_window e).2) (front p at e)
                    (subst (λ b. Place i b) e place),
                inl (e, (_, refl)),
              ),
            )
    ]

  -- The packets sent stand where they may.
  abbrev IsPlaced : (ℕ → Bool → Type 0) → Transfer → Type 0
  IsPlaced Place t = (k : ℕ) → k < t.next_seq → Place k (t.eof_sent && (k == t.eof_seq))

  -- The packets of the next `n` sequence numbers from `i`, in order, have been sent.
  abbrev pub AddsEach : (ℕ → Bool → Type 0) → ℕ → ℕ → Transfer → Transfer → Type 0
  AddsEach Place i n t u =
      (ds : List Datagram) × (u ≡ record t { sent = t.sent ++ ds })
      × EachOf (IsResent Place t) i n ds

  resend_from-AddsEach :
      (Place : ℕ → Bool → Type 0) (n i : ℕ) (t : Transfer)
      → Serving window size bytes t
      → IsPlaced Place t
      → t.base ≤ i
      → i + n ≤ t.next_seq
      → t.next_seq ≤ 2 ^ 32
      → Returns (AddsEach Place i n t) (resend_from ck n i t)
  unfolding resend_from
  resend_from-AddsEach Place zero i t s placed low high small =
      ([], ap (λ l. record t { sent = l }) (sym (append-nil t.sent)), tt)
  resend_from-AddsEach Place (suc n) i t s placed low high small =
      Returns-bind (AddsOne (IsResent Place t i) t) (AddsEach Place i (suc n) t) (resend ck t i)
        (λ u. resend_from ck n (i + 1) u)
        (resend-IsResent t i s low (omega arith) Place (placed i (omega arith)) (omega arith))
        (λ u (d, e, h). rw e (
          Returns-weaken (AddsEach Place (i + 1) n (record t { sent = t.sent ++ (d ∷ []) })) _
            (resend_from ck n (i + 1) (record t { sent = t.sent ++ (d ∷ []) }))
            (resend_from-AddsEach Place n (i + 1) (record t { sent = t.sent ++ (d ∷ []) })
              (Serving-with window size bytes t t.client t.attempts t.eof_acked _ s) placed
              (omega arith) (omega arith) small)
            (λ v (ds, e', hs). (
              d ∷ ds,
              e' ∙ ap (λ l. record t { sent = l }) (append_assoc t.sent (d ∷ []) ds),
              (h, hs),
            ))))

  -- `retransmit_packets`, for packets that may stand at certain numbers only.
  pub retransmit-Placed :
      (Place : ℕ → Bool → Type 0) (t : Transfer)
      → Serving window size bytes t
      → IsPlaced Place t
      → t.next_seq ≤ 2 ^ 32
      → Returns (AddsEach Place t.base (t.next_seq - t.base) t) (retransmit_packets ck t)
  unfolding retransmit_packets resend_from
  retransmit-Placed Place t s placed small = elim (dec_le t.base t.next_seq) [
    | yes h ↦
        resend_from-AddsEach Place (t.next_seq - t.base) t.base t s placed (omega arith)
          (omega arith) small
    | no h ↦
        let e : t.next_seq - t.base ≡ 0 = omega arith in
        rw e ([], ap (λ l. record t { sent = l }) (sym (append-nil t.sent)), tt)
  ]

  -- For a child that keeps the invariant, with the next sequence number at most 2^32:
  -- `retransmit_packets` returns, has sent one packet for each sequence number from the base to the
  -- next, in order, each to the client: without content for the number of the end, if the end has
  -- been sent, and for any other number a data packet with the file's chunk at its front. It has
  -- changed nothing else.
  pub retransmit-AddsEach :
      (t : Transfer)
      → Serving window size bytes t
      → t.next_seq ≤ 2 ^ 32
      → Returns (AddsEach (λ k b. Unit) t.base (t.next_seq - t.base) t) (retransmit_packets ck t)
  retransmit-AddsEach t s small = retransmit-Placed (λ k b. Unit) t s (λ k lt. tt) small
