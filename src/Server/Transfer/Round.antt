-- ===== src/Server/Transfer/Round.antt =====
-- One round of the main loop of `transferData`, and the whole loop.
use rcopy.Base.{
  All, All-append, All-map, ℕ, ◌+◌, ◌-◌, ◌^◌, ◌≤◌, ◌<◌, ◌≡◌, arith, Bool, true, ◌&&◌, inl, inr, ◌⊎◌,
  List, [], ◌∷◌, length, ltb, ltb→lt, ◌==◌, Bool-cases, ok, Returns, Returns-weaken, Returns-eq,
  ==_iff,
}
use rcopy.Checksum.{Checksum}
use rcopy.Net.{Event, timeout, arrival, received}
use rcopy.Spec.{IsConfig}
use rcopy.Wire.{PduHeader, Datagram, htonl, read_header}
use rcopy.Window.{slide_window}
use rcopy.Server.Transfer.{
  Transfer, on_rr, on_packet, resend, transfer_turn, transfer_runs, transfer_loop,
  retransmit_packets, refill,
}
use rcopy.Server.Transfer.Packets.{EachOf-All}
use rcopy.Server.Transfer.Terms.{Terms, Labelled}
use rcopy.Server.Transfer.Serving.{Serving, Serving-with, Serving-slide}
use rcopy.Server.Transfer.Refill.{Good, IsRefilled, refill-Good, IsRefilled-IsLater}
use rcopy.Server.Transfer.Resend.{
  AddsOne, AddsEach, resend-AddsOne, resend-IsResent, IsResent, retransmit-Placed,
}

module _ (ck : Checksum) {window size : ℕ} (c : IsConfig window size) (bytes : List ℕ)
    (terms : Terms ck window size bytes) where
  open ck use {in_cksum}
  open terms use {places, Sent, Acked, Finished, tells, acked_fits}
  open places use {Place}

  -- The invariant at the waits: the window is used up, or the file is.
  abbrev pub IsGood : Transfer → Type 0
  IsGood t = Good ck c bytes terms t × IsRefilled ck c bytes terms t

  pub next_fits : (t : Transfer) → Serving window size bytes t → t.next_seq ≤ 2 ^ 32
  next_fits t s = elim (Bool-cases t.eof_sent) [
    | inl on ↦ omega (arith, s.ended on, s.reach, s.fits)
    | inr off ↦ omega (arith, s.reading off, s.reach, s.fits)
  ]

  -- An RR that the terms allow, if it moves the window; an SREJ for a packet of the window, unless
  -- the terms allow whatever is sent for it; an acknowledgement of the end that the terms allow.
  -- Any other packet of full header.
  abbrev pub FairPacket : Transfer → List ℕ → Type 0
  FairPacket t buffer =
      (h : PduHeader) × (read_header buffer ≡ ok h)
      × (h.flag ≡ 5 → t.base < htonl h.seq → Acked (htonl h.seq))
      × (h.flag ≡ 6
          → ((t.base ≤ htonl h.seq) × (htonl h.seq < t.next_seq))
            ⊎ ((d : Datagram)
                → Labelled ck (htonl h.seq) (t.eof_sent && (htonl h.seq == t.eof_seq)) d
                → Sent t.next_seq d))
      × (h.flag ≡ 10 → Finished)

  -- What passes the checksum test is fair; nothing is asked of the rest.
  abbrev pub Fair : Transfer → Event → Type 0
  Fair t timeout = Unit
  Fair t (arrival src packet) =
      (ltb 0 (length (received packet)) && (in_cksum (received packet) == 0)) ≡ true
      → FairPacket t (received packet)

  pub Good-with :
      (t : Transfer) (client attempts : ℕ) (acked : Bool) (sent : List Datagram)
      → IsGood t
      → All (Sent t.next_seq) sent
      → (acked ≡ true → Finished)
      → IsGood (record t { client = client; attempts = attempts; eof_acked = acked; sent = sent })
  Good-with t client attempts acked sent (g, refilled) all done = (
    record {
      serving = Serving-with window size bytes t client attempts acked sent g.serving;
      truthful = all;
      grown = g.grown;
      acked = g.acked;
      finished = done;
      placed = g.placed;
      even = g.even;
    },
    refilled,
  )

  resend-Good :
      (t : Transfer) (i : ℕ)
      → IsGood t
      → ((t.base ≤ i) × (i < t.next_seq))
        ⊎ ((d : Datagram) → Labelled ck i (t.eof_sent && (i == t.eof_seq)) d → Sent t.next_seq d)
      → Returns IsGood (resend ck t i)
  resend-Good t i g (inl (low, high)) =
      Returns-weaken (AddsOne ck c bytes (IsResent ck c bytes Place t i) t) IsGood (resend ck t i)
        (resend-IsResent ck c bytes t i g.0.serving low high Place (g.0.placed i high)
          (omega (arith, next_fits t g.0.serving)))
        (λ u (d, e, h). rw e (
          Good-with t t.client t.attempts t.eof_acked _ g
            (All-append (Sent t.next_seq) t.sent (d ∷ []) g.0.truthful
              (tells t.next_seq i d high h.0, tt))
            g.0.finished))
  resend-Good t i g (inr any) =
      Returns-weaken (AddsOne ck c bytes (Labelled ck i (t.eof_sent && (i == t.eof_seq))) t) IsGood
        (resend ck t i) (resend-AddsOne ck c bytes t i g.0.serving)
        (λ u (d, e, h). rw e (
          Good-with t t.client t.attempts t.eof_acked _ g
            (All-append (Sent t.next_seq) t.sent (d ∷ []) g.0.truthful (any d h, tt)) g.0.finished))

  -- The window slid up to an acknowledged number.
  pub slid-Good :
      (t : Transfer) (ackSeq : ℕ)
      → IsGood t
      → Acked ackSeq
      → t.base < ackSeq
      → Good ck c bytes terms (record t { wb = slide_window t.wb (ackSeq - t.base); base = ackSeq })
  slid-Good t ackSeq g allowed ahead = record {
    serving =
        Serving-slide window size bytes t ackSeq g.0.serving c.window_pos ahead
          (acked_fits ackSeq allowed);
    truthful = g.0.truthful;
    grown = g.0.grown;
    acked = allowed;
    finished = g.0.finished;
    placed = g.0.placed;
    even = g.0.even;
  }

  on_rr-Good :
      (t : Transfer) (ackSeq : ℕ)
      → IsGood t
      → (t.base < ackSeq → Acked ackSeq)
      → Returns IsGood (on_rr ck t ackSeq)
  unfolding on_rr
  on_rr-Good t ackSeq g allowed = elim (Bool-cases (ltb t.base ackSeq)) [
    | inl ahead ↦
        let u : Transfer = record t { wb = slide_window t.wb (ackSeq - t.base); base = ackSeq } in
        rw ahead (
          Returns-weaken _ IsGood (refill ck u)
            (refill-Good ck c bytes terms u
              (slid-Good t ackSeq g (allowed (ltb→lt _ _ ahead)) (ltb→lt _ _ ahead))
              (IsRefilled-IsLater ck c bytes terms t g.1))
            (λ v k. (k.0, k.2)))
    | inr old ↦ rw old g
  ]

  on_packet-Good :
      (t : Transfer) (buffer : List ℕ)
      → IsGood t
      → FairPacket t buffer
      → Returns IsGood (on_packet ck t buffer)
  unfolding on_packet
  on_packet-Good t buffer g (h, e, rr, srej, eof_ack) = rw e (elim (Bool-cases (h.flag == 5)) [
    | inl five ↦ rw five (on_rr-Good t (htonl h.seq) g (rr ((==_iff h.flag 5).0 five)))
    | inr n5 ↦ rw n5 (elim (Bool-cases (h.flag == 6)) [
      | inl six ↦ rw six (resend-Good t (htonl h.seq) g (srej ((==_iff h.flag 6).0 six)))
      | inr n6 ↦ rw n6 (elim (Bool-cases (h.flag == 10)) [
        | inl ten ↦
            let done = eof_ack ((==_iff h.flag 10).0 ten) in
            rw ten (Good-with t t.client t.attempts true t.sent g g.0.truthful (λ on. done))
        | inr n10 ↦ rw n10 g
      ])
    ])
  ])

  -- A round of the main loop keeps the invariant and sends only what satisfies `P`.
  pub transfer_turn-Good :
      (t : Transfer) (e : Event) → IsGood t → Fair t e → Returns IsGood (transfer_turn ck t e)
  unfolding transfer_turn
  transfer_turn-Good t timeout g f =
      let u : Transfer = record t { attempts = t.attempts + 1 } in
      let s =
        Serving-with window size bytes t t.client (t.attempts + 1) t.eof_acked t.sent g.0.serving in
      Returns-weaken (AddsEach ck c bytes Place t.base (t.next_seq - t.base) u) IsGood
        (retransmit_packets ck u)
        (retransmit-Placed ck c bytes Place u s g.0.placed (next_fits t g.0.serving))
        (λ v (ds, e, each). rw e (
          Good-with t t.client (t.attempts + 1) t.eof_acked _ g
            (All-append (Sent t.next_seq) t.sent ds g.0.truthful (
              All-map _ (Sent t.next_seq)
                (λ d (k, low, high, h). tells t.next_seq k d (omega arith) h.0) ds
                (EachOf-All _ t.base _ ds each)))
            g.0.finished))
  transfer_turn-Good t (arrival src packet) g f =
      let heard : IsGood (record t { attempts = 0; client = src }) =
        Good-with t src 0 t.eof_acked t.sent g g.0.truthful g.0.finished in
      elim (Bool-cases (ltb 0 (length (received packet)) && (in_cksum (received packet) == 0))) [
        | inl intact ↦ rw intact (
            on_packet-Good (record t { attempts = 0; client = src }) (received packet) heard
              (f intact))
        | inr corrupt ↦ rw corrupt heard
      ]

  -- Every event that the loop comes to is fair in the state that it meets.
  abbrev pub FairRun : List Event → Transfer → Type 0
  FairRun [] t = Unit
  FairRun (e ∷ es) t =
      transfer_runs t ≡ true
      → Fair t e × ((u : Transfer) → transfer_turn ck t e ≡ ok u → FairRun es u)

  -- The main loop keeps the invariant over every run of fair events.
  pub transfer_loop-Good :
      (es : List Event) (t : Transfer)
      → IsGood t
      → FairRun es t
      → Returns IsGood (transfer_loop ck es t)
  unfolding transfer_loop
  transfer_loop-Good [] t g f = g
  transfer_loop-Good (e ∷ es) t g f = elim (Bool-cases (transfer_runs t)) [
    | inr over ↦ rw (over, transfer_loop) g
    | inl runs ↦
        let (u, eq, gu) =
          Returns-eq IsGood (transfer_turn ck t e) (transfer_turn-Good t e g (f runs).0) in
        rw (runs, transfer_loop, eq) (transfer_loop-Good es u gu ((f runs).1 u eq))
  ]
