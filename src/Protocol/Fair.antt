-- ===== src/Protocol/Fair.antt =====
-- What either side may hear of the other is fair to it: what its own invariant asks of packets.
use rcopy.Base.{
  ℕ, ◌+◌, ◌^◌, ◌≤◌, ◌<◌, ◌≡◌, inl, inr, refl, sym, ap, subst, ◌∙◌, arith, Bool, true, false, ◌&&◌,
  ◌==◌, Bool-cases, dec_le, List,
}
use rcopy.Checksum.{Checksum}
use rcopy.Net.{arrival, received}
use rcopy.Spec.{IsConfig}
use rcopy.Spec.Last.{EndsAt}
use rcopy.Window.{max_int_32}
use rcopy.Wire.{Datagram, htonl}
use rcopy.Wire.RoundTrip.{htonl-htonl, htonl-lt}
use rcopy.Server.Transfer.{Transfer, data_header}
use rcopy.Server.Transfer.Packets.{carries, ends}
use rcopy.Server.Transfer.Terms.{Labelled}
use rcopy.Server.Transfer.Round as Child
use rcopy.Server.Transfer.Round.{next_fits, transfer_turn-Good}
use rcopy.Rcopy.Receive.{
  Receive, rr_header, srej_header, eof_header, text_rr, text_srej, text_eof_ack,
}
use rcopy.Rcopy.Receive.Receiving.{Reply, rr, srej, done, IsLast, Fronts}
use rcopy.Rcopy.Receive.Round as Client
use rcopy.Rcopy.Receive.Round.{runs_open, receive_turn-Receiving, MayAsk}
use rcopy.Protocol.Delivery.{Reads, checked_packet-Reads, Reads-unique}
use rcopy.Protocol.Agree.{child_at, IsServing-end, SentFor, serving_terms, IsServing}

module _ (ck : Checksum) {window size : ℕ} (c : IsConfig window size) (bytes : List ℕ) (top : ℕ)
    (at : EndsAt window size bytes top) (small : top + window < max_int_32) where
  open ck use {in_cksum}

  -- A reply of the client is fair to the child.
  pub Reply-fair :
      (t : Transfer) (since from expected : ℕ) (eof : Bool) (d : Datagram)
      → IsServing ck c bytes top at since from expected eof t
      → expected ≤ top
      → Reply ck (λ k. k < t.next_seq) eof expected d
      → Child.FairPacket ck c bytes
          (serving_terms ck c bytes top at since from expected eof)
          t
          (received d.packet)
  Reply-fair t since from expected eof d g le (rr k h e) =
      let r =
        checked_packet-Reads ck (rr_header k) text_rr d.packet e refl (htonl-lt k) (omega arith)
          (omega arith) in
      let back : htonl (htonl k) ≡ k = htonl-htonl k (omega arith) in
      (
        record { seq = htonl k; checksum = r.checksum; flag = 5 },
        r.header,
        (λ five ahead. rw back (h, omega arith, omega (arith, g.acked.2, back))),
        (λ six. absurd (omega arith)),
        (λ ten. absurd (omega arith)),
      )
  Reply-fair t since from expected eof d g le (srej k h asked e) =
      let r =
        checked_packet-Reads ck (srej_header k) text_srej d.packet e refl (htonl-lt k) (omega arith)
          (omega arith) in
      let back : htonl (htonl k) ≡ k = htonl-htonl k (omega arith) in
      (
        record { seq = htonl k; checksum = r.checksum; flag = 6 },
        r.header,
        (λ five ahead. absurd (omega arith)),
        (λ six. rw back (elim (dec_le t.base k) [
          | yes low ↦ inl (low, asked)
          | no high ↦ inr (λ x label. (
            k,
            asked,
            inr (
              omega (arith, g.acked.0),
              subst (λ b. Labelled ck k b x) (not_end (omega (arith, g.acked.0))) label,
            ),
          ))
        ])),
        (λ ten. absurd (omega arith)),
      )
    where
      not_end : k < expected → (t.eof_sent && (k == t.eof_seq)) ≡ false
      not_end lt = elim (Bool-cases (t.eof_sent && (k == t.eof_seq))) [
        | inr other ↦ other
        | inl last ↦
            let sent : t.eof_sent ≡ true = ground arith in
            let same : k ≡ t.eof_seq = ground arith in
            absurd (omega (arith, IsServing-end ck c bytes top at since from expected eof t g sent))
      ]
  Reply-fair t since from expected eof d g le (done ended e) =
      let r =
        checked_packet-Reads ck eof_header text_eof_ack d.packet e refl (htonl-lt 0) (omega arith)
          (omega arith) in
      (
        record { seq = htonl 0; checksum = r.checksum; flag = 10 },
        r.header,
        (λ five ahead. absurd (omega arith)),
        (λ six. absurd (omega arith)),
        (λ ten. ended),
      )

  -- What the client makes of a packet, when it is none but the one of header `h` and content `body`.
  Reads-Fair :
      (s : Receive) (k : ℕ) (isEOF : Bool) (body : List ℕ) (packet : List ℕ) (next : ℕ)
      → Reads ck (data_header k isEOF) body packet
      → k < 2 ^ 32
      → k < next
      → s.expected_seq + window < max_int_32
      → (isEOF ≡ true
          → (s.expected_seq ≤ k)
            × (k ≡ top)
            × (k ≡ s.expected_seq → IsLast window size bytes k body))
      → (isEOF ≡ false → s.expected_seq ≤ k → (k < top) × Fronts window size bytes k body)
      → (src : ℕ)
      → Client.Fair ck c bytes s (arrival src packet)
        × MayAsk ck c bytes (child_at top next) 0 s (arrival src packet)
  Reads-Fair s k true body packet next r bound lt fits end chunks src =
      let back : htonl (htonl k) ≡ k = htonl-htonl k bound in
      (
        (λ intact. (
          fits,
          (
            record { seq = htonl k; checksum = r.checksum; flag = 10 },
            r.header,
            (λ ten. rw (back, r.content) (λ same. rw (sym same) ((end refl).2 same))),
            (λ other. absurd (other refl)),
          ),
        )),
        (
          (λ corrupt. absurd (corrupt r.intact)),
          (λ intact g e.
              let same = Reads-unique ck (data_header k true) g body packet r e in
              let number : htonl g.seq ≡ k = ap htonl (sym same.0) ∙ back in
              (
                (λ ten ne. omega (arith, (end refl).0, number, ne)),
                (λ other. absurd (other (sym same.1))),
                (λ other. absurd (other (sym same.1))),
                (λ ten here. omega (arith, (end refl).1, number)),
              )),
        ),
      )
  Reads-Fair s k false body packet next r bound lt fits end chunks src =
      let back : htonl (htonl k) ≡ k = htonl-htonl k bound in
      (
        (λ intact. (
          fits,
          (
            record { seq = htonl k; checksum = r.checksum; flag = 16 },
            r.header,
            (λ ten. absurd (omega arith)),
            (λ other. rw (back, r.content) (λ low high. (chunks refl low).1)),
          ),
        )),
        (
          (λ corrupt. absurd (corrupt r.intact)),
          (λ intact g e.
              let same = Reads-unique ck (data_header k false) g body packet r e in
              let number : htonl g.seq ≡ k = ap htonl (sym same.0) ∙ back in
              (
                (λ ten ne. absurd (omega (arith, same.1))),
                (λ other ahead. omega (arith, number)),
                (λ other low. rw number (chunks refl (omega (arith, number))).0),
                (λ ten here. absurd (omega (arith, same.1))),
              )),
        ),
      )

  -- A packet of the child is fair to the client, and is answered by asking for what has been sent.
  pub packet-Fair :
      (s : Receive) (next : ℕ) (d : Datagram) (src : ℕ)
      → s.expected_seq ≤ top
      → next ≤ 2 ^ 32
      → SentFor ck c bytes top at s.expected_seq next d
      → Client.Fair ck c bytes s (arrival src d.packet)
        × MayAsk ck c bytes (child_at top next) 0 s (arrival src d.packet)
  packet-Fair s next d src le wide (k, lt, inl (carries body bound len e inside front place)) =
      Reads-Fair s k false body d.packet next
        (checked_packet-Reads ck (data_header k false) body d.packet
          (ap (λ (x : Datagram). x.packet) e) refl (htonl-lt k) (omega arith)
          (omega (arith, c.size_max)))
        bound lt (omega arith) (λ on. cc) (λ off low. (place, (inside, front))) src
  packet-Fair s next d src le wide (k, lt, inl (ends body bound len e short inside ending place)) =
      Reads-Fair s k true body d.packet next
        (checked_packet-Reads ck (data_header k true) body d.packet
          (ap (λ (x : Datagram). x.packet) e) refl (htonl-lt k) (omega arith) len)
        bound lt (omega arith) (λ on. (omega (arith, place), place, λ same. (short, ending)))
        (λ off low. cc) src
  packet-Fair s next d src le wide (k, lt, inr (old, (body, len, e))) =
      Reads-Fair s k false body d.packet next
        (checked_packet-Reads ck (data_header k false) body d.packet
          (ap (λ (x : Datagram). x.packet) e) refl (htonl-lt k) (omega arith) len)
        (omega arith) lt (omega arith) (λ on. cc) (λ off low. absurd (omega arith)) src
