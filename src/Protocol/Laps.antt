-- ===== src/Protocol/Laps.antt =====
-- Rounds that bring the two programs on: a packet repeated, its answer, and what the child makes of it.
use rcopy.Base.{
  ℕ, zero, suc, ◌+◌, ◌≤◌, ◌<◌, ◌≡◌, ◌⊎◌, inl, inr, refl, sym, ◌∙◌, subst, arith, true, false, not,
  ◌&&◌, ltb, lt→ltb, List, [], ◌∷◌, ◌++◌, Returns-eq, Bool-cases,
}
use rcopy.Checksum.{Checksum}
use rcopy.Net.{timeout, arrival}
use rcopy.Spec.{IsConfig}
use rcopy.Spec.Last.{EndsAt}
use rcopy.Window.{Malloc, IsAllocator, max_int_32}
use rcopy.Wire.{Address, Datagram, checked_packet}
use rcopy.Protocol.Routed.{IsRoutedStep, IsRouted, IsJoined, Leads-trans, Leads-trans-IsRouted}
use rcopy.Wire.RoundTrip.{htonl-htonl, htonl-lt}
use rcopy.Server.Transfer.{transfer_turn}
use rcopy.Server.Transfer.Advance.{rr_heard, end_heard}
use rcopy.Rcopy.Receive.{receive_runs, rr_header, eof_header, text_rr, text_eof_ack}
use rcopy.Rcopy.Receive.Output.{expected_le}
use rcopy.Wire.Sent.{Has, Has-in}
use rcopy.Protocol.{System, Step, child_turn, client_turn, silence, brings, Leads, stay, go}
use rcopy.Protocol.Delivery.{checked_packet-Reads}
use rcopy.Protocol.Agree.{child_at, Agree, serving_terms}
use rcopy.Protocol.Answers.{base_sent, base_answered}
use rcopy.Protocol.Correct.{Step-Agree}

module _ (ck : Checksum) {window size : ℕ} (c : IsConfig window size) (bytes : List ℕ) (top : ℕ)
    (at : EndsAt window size bytes top) (small : top + window < max_int_32)
    (server_malloc client_malloc : Malloc) (sa : IsAllocator server_malloc)
    (ca : IsAllocator client_malloc) (peer server : Address) where
  -- Both loops run, the client still waits for the end, the child has an attempt to spare, and each
  -- side sends to the other.
  abbrev pub Going : System → Type 0
  Going s =
      (s.child.attempts < 9)
      × (s.client.eof ≡ false)
      × (s.client.attempts < 10)
      × IsJoined ck peer server s

  abbrev pub Agreed : System → Type 0
  Agreed s = Agree ck c bytes top at s

  after : {s t : System} → Step ck s t → Agreed s → Agreed t
  after step a = (Step-Agree ck c bytes top at small server_malloc client_malloc sa ca step a).0

  pub not_acked : (s : System) → Agreed s → s.client.eof ≡ false → s.child.eof_acked ≡ false
  not_acked s a open_yet = elim (Bool-cases s.child.eof_acked) [
    | inr off ↦ off
    | inl on ↦ let over = a.serving.finished on in absurd cc
  ]

  child_runs :
      (attempts : ℕ) (s : System)
      → Agreed s
      → s.client.eof ≡ false
      → attempts < 10
      → (not s.child.eof_acked && ltb attempts 10) ≡ true
  child_runs attempts s a open_yet few = rw (not_acked s a open_yet, lt→ltb _ _ few) refl

  -- The child hears the RR of the packet that the client expects.
  rr-Step :
      (s : System)
      → Agreed s
      → s.child.attempts < 10
      → s.client.eof ≡ false
      → s.client.attempts < 10
      → s.client.server ≡ server
      → s.child.base < s.client.expected_seq
      → (x : Datagram) → Has x s.client.sent
      → x.dest ≡ server
      → x.packet ≡ checked_packet ck (rr_header s.client.expected_seq) text_rr
      → (t : System) × (step : Step ck s t) × IsRoutedStep ck peer server step
        × Going t
        × (t.child.base ≡ s.client.expected_seq)
  rr-Step s a few open_yet few_waits from behind x sent there e =
      let k = s.client.expected_seq in
      let le =
        expected_le c bytes ck (child_at top s.child.next_seq) 0 top s.client (λ k h. h)
          a.hearing in
      let r =
        checked_packet-Reads ck (rr_header k) text_rr x.packet e refl (htonl-lt k) (omega arith)
          (omega arith) in
      let terms = serving_terms ck c bytes top at 0 0 k s.client.eof in
      let (u, turned, (base, attempts, client, acked)) =
        Returns-eq
          (λ u.
            (u.base ≡ k) × (u.attempts ≡ 0) × (u.client ≡ peer) × (u.eof_acked ≡ s.child.eof_acked))
          (transfer_turn ck s.child (arrival peer x.packet))
          (rr_heard ck c bytes terms s.child k _ x.packet peer (a.serving, a.refilled)
            (omega arith, omega arith, omega arith) behind r.some_bytes r.intact r.header refl
            (htonl-htonl k (omega arith))) in
      (
        record s { child = u },
        child_turn (arrival peer x.packet) u (child_runs s.child.attempts s a open_yet few)
            (brings peer x sent) turned,
        (refl, there),
        (omega (arith, attempts), open_yet, few_waits, (client, from)),
        base,
      )

  -- The child hears that the client has taken the end.
  pub end-Step :
      (s : System)
      → s.child.eof_acked ≡ false
      → s.child.attempts < 10
      → (x : Datagram) → Has x s.client.sent
      → x.dest ≡ server
      → x.packet ≡ checked_packet ck eof_header text_eof_ack
      → (t : System) × (step : Step ck s t) × IsRoutedStep ck peer server step
        × (t.child.eof_acked ≡ true)
  end-Step s not_yet few x sent there e =
      let r =
        checked_packet-Reads ck eof_header text_eof_ack x.packet e refl (htonl-lt 0) (omega arith)
          (omega arith) in
      let (u, turned, acked) =
        Returns-eq (λ u. u.eof_acked ≡ true) (transfer_turn ck s.child (arrival peer x.packet))
          (end_heard ck c bytes (serving_terms ck c bytes top at 0 0 0 false) s.child _ x.packet
            peer r.some_bytes r.intact r.header refl) in
      (
        record s { child = u },
        child_turn (arrival peer x.packet) u (rw (not_yet, lt→ltb _ _ few) refl)
            (brings peer x sent) turned,
        (refl, there),
        acked,
      )

  -- The child repeats the packet of its base, the client answers, and the child hears the answer.
  lap :
      (s : System)
      → Agreed s
      → Going s
      → (t : System) × (path : Leads ck s t) × IsRouted ck peer server path
        × ((t.child.eof_acked ≡ true) ⊎ (Agreed t × Going t × (s.child.base < t.child.base)))
  lap s a (few, open_yet, few_waits, (client, from)) =
      let (d, rest, again, honest, dest) = base_sent ck c bytes top at small s a in
      let s1 : System = record s {
        child = record s.child {
          attempts = s.child.attempts + 1;
          sent = s.child.sent ++ (d ∷ rest);
        };
      } in
      let step1 : Step ck s s1 =
        child_turn timeout _ (child_runs s.child.attempts s a open_yet (omega arith)) silence
          again in
      let a1 = after step1 a in
      let (u, answered, kind) =
        base_answered ck c bytes top at small s1 d server a1 open_yet honest in
      let s2 : System = record s1 { client = u } in
      let client_on : receive_runs s.client ≡ true = rw (open_yet, lt→ltb _ _ few_waits) refl in
      let step2 : Step ck s1 s2 =
        client_turn (arrival server d.packet) u client_on
          (brings server d (Has-in d s.child.sent rest)) answered in
      let a2 = after step2 a1 in
      let path = go (go stay step1) step2 in
      let routed : IsRouted ck peer server path = ((tt, tt), (refl, dest ∙ client)) in
      elim kind [
        | inl (further, running, none_missed, same_server, sent) ↦
            let (t, step3, way, going, base) =
              rr-Step s2 a2 (omega arith) running (omega arith) (same_server ∙ from) (omega arith) _
                (subst (Has _) (sym sent) (Has-in _ s.client.sent [])) from refl in
            (t, go path step3, (routed, way), inr (after step3 a2, going, omega (arith, base)))
        | inr (ended, sent) ↦
            let (t, step3, way, over) =
              end-Step s2 (not_acked s a open_yet) (omega arith) _
                (subst (Has _) (sym sent) (Has-in _ s.client.sent [])) from refl in
            (t, go path step3, (routed, way), inl over)
      ]

  -- From a state with `n` chunks to acknowledge, in at most so many laps and one.
  pub laps :
      (n : ℕ) (s : System)
      → Agreed s
      → Going s
      → top ≤ s.child.base + n
      → (t : System) × (path : Leads ck s t) × IsRouted ck peer server path
        × (t.child.eof_acked ≡ true)
  laps zero s a going enough =
      let (t, path, routed, kind) = lap s a going in
      elim kind [
        | inl over ↦ (t, path, routed, over)
        | inr (at, more, further) ↦ absurd (
            omega (
              arith,
              at.serving.acked.0,
              expected_le c bytes ck (child_at top t.child.next_seq) 0 top t.client (λ k h. h)
                  at.hearing,
            ))
      ]
  laps (suc n) s a going enough =
      let (t, path, routed, kind) = lap s a going in
      elim kind [
        | inl over ↦ (t, path, routed, over)
        | inr (at, more, further) ↦
            let (u, rest, way, over) = laps n t at more (omega arith) in
            (
              u,
              Leads-trans ck path rest,
              Leads-trans-IsRouted ck peer server path rest routed way,
              over,
            )
      ]
