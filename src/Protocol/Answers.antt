-- ===== src/Protocol/Answers.antt =====
-- What each side makes of the packet that the other is waiting to have answered.
use rcopy.Base.{
  ℕ, zero, suc, ◌+◌, ◌-◌, ◌<◌, ◌≡◌, ◌⊎◌, inl, inr, refl, ap, ◌∙◌, arith, true, false, List, [], ◌∷◌,
  ◌++◌, ok, Returns-eq,
}
use rcopy.Checksum.{Checksum}
use rcopy.Net.{timeout, arrival}
use rcopy.Spec.{IsConfig}
use rcopy.Spec.Last.{EndsAt}
use rcopy.Window.{max_int_32}
use rcopy.Wire.{Address, Datagram}
use rcopy.Wire.RoundTrip.{htonl-htonl, htonl-lt}
use rcopy.Server.Transfer.{Transfer, transfer_turn, retransmit_packets, data_header}
use rcopy.Server.Transfer.Packets.{EachOf, Honest, carries, ends}
use rcopy.Server.Transfer.Serving.{Serving-with}
use rcopy.Server.Transfer.Resend.{AddsEach, IsResent, IsResent-dest, retransmit-Placed}
use rcopy.Server.Transfer.Round.{next_fits}
use rcopy.Rcopy.Receive.{Receive, receive_turn, eof_header, text_eof_ack}
use rcopy.Rcopy.Receive.Replies.{replied}
use rcopy.Rcopy.Receive.Output.{expected_le}
use rcopy.Rcopy.Receive.Advance.{Advanced, data_heard, eof_heard}
use rcopy.Protocol.{System}
use rcopy.Protocol.Delivery.{checked_packet-Reads}
use rcopy.Protocol.Agree.{child_at, PlaceAt, IsServing-end, Agree, serving_terms}

-- The first packet of a number of them.
first_of :
    (P : ℕ → Datagram → Type 0) (i n : ℕ) (ds : List Datagram)
    → 0 < n
    → EachOf P i n ds
    → (d : Datagram) × (rest : List Datagram) × (ds ≡ d ∷ rest) × P i d
first_of P i zero ds pos h = elim pos [ ]
first_of P i (suc n) [] pos h = elim h [ ]
first_of P i (suc n) (d ∷ rest) pos h = (d, rest, refl, h.0)

module _ (ck : Checksum) {window size : ℕ} (c : IsConfig window size) (bytes : List ℕ) (top : ℕ)
    (at : EndsAt window size bytes top) (small : top + window < max_int_32) where
  -- Something is always under way.
  under_way : (s : System) → Agree ck c bytes top at s → s.child.base < s.child.next_seq
  under_way s a =
      let le =
        expected_le c bytes ck (child_at top s.child.next_seq) 0 top s.client (λ k h. h)
          a.hearing in
      let serving = a.serving.serving in
      elim a.refilled [
        | inl on ↦ omega (
          arith,
          (serving.ended on).0,
          IsServing-end ck c bytes top at 0 0 s.client.expected_seq s.client.eof s.child a.serving
              on,
          a.serving.acked.0,
        )
        | inr full ↦ omega (arith, c.window_pos)
      ]

  -- A wait in vain, and the packet of the base is sent again.
  pub base_sent :
      (s : System)
      → Agree ck c bytes top at s
      → (d : Datagram) × (rest : List Datagram) × (transfer_turn ck s.child timeout
          ≡ ok (record s.child {
            attempts = s.child.attempts + 1;
            sent = s.child.sent ++ (d ∷ rest);
          }))
        × Honest ck (PlaceAt top) size bytes s.child.base d
        × (d.dest ≡ s.child.client)
  unfolding transfer_turn
  base_sent s a =
      let t = s.child in
      let u : Transfer = record t { attempts = t.attempts + 1 } in
      let serving =
        Serving-with window size bytes t t.client (t.attempts + 1) t.eof_acked t.sent
          a.serving.serving in
      let terms = serving_terms ck c bytes top at 0 0 s.client.expected_seq s.client.eof in
      let (v, e, (ds, same, each)) =
        Returns-eq (AddsEach ck c bytes (PlaceAt top) t.base (t.next_seq - t.base) u)
          (retransmit_packets ck u)
          (retransmit-Placed ck c bytes (PlaceAt top) u serving a.serving.placed
            (next_fits ck c bytes terms t a.serving.serving)) in
      let (d, rest, front, h) =
        first_of (IsResent ck c bytes (PlaceAt top) u) t.base (t.next_seq - t.base) ds
          (omega (arith, under_way s a)) each in
      (
        d,
        rest,
        e ∙ ap (λ x. ok x) same ∙ ap (λ l. ok (record u { sent = t.sent ++ l })) front,
        h.0,
        IsResent-dest ck c bytes (PlaceAt top) u t.base d h,
      )

  -- The client answers an honest packet at the base: with an RR that is past it, or by acknowledging
  -- the end.
  pub base_answered :
      (s : System) (d : Datagram) (src : Address)
      → Agree ck c bytes top at s
      → s.client.eof ≡ false
      → Honest ck (PlaceAt top) size bytes s.child.base d
      → (u : Receive) × (receive_turn ck s.client (arrival src d.packet) ≡ ok u)
        × (Advanced ck c bytes (child_at top s.child.next_seq) 0 s.child.base s.client u
            ⊎ ((u.eof ≡ true)
                × (u.sent ≡ s.client.sent ++ (replied ck s.client eof_header text_eof_ack ∷ []))))
  base_answered s d src a open_yet (carries body bound len e inside front place) =
      let k = s.child.base in
      let r =
        checked_packet-Reads ck (data_header k false) body d.packet
          (ap (λ (x : Datagram). x.packet) e) refl (htonl-lt k) (omega arith)
          (omega (arith, c.size_max)) in
      let le =
        expected_le c bytes ck (child_at top s.child.next_seq) 0 top s.client (λ k h. h)
          a.hearing in
      let (u, turned, advanced) =
        Returns-eq (Advanced ck c bytes (child_at top s.child.next_seq) 0 k s.client)
          (receive_turn ck s.client (arrival src d.packet))
          (data_heard ck c bytes (child_at top s.child.next_seq) 0 s.client k _ d.packet src
            a.hearing open_yet r.intact r.header refl (htonl-htonl k bound)
            (rw r.content (omega (arith, c.size_max))) a.serving.acked.0 (omega arith) place
            (rw r.content (inside, front))) in
      (u, turned, inl advanced)
  base_answered s d src a open_yet (ends body bound len e short inside ending place) =
      let k = s.child.base in
      let r =
        checked_packet-Reads ck (data_header k true) body d.packet
          (ap (λ (x : Datagram). x.packet) e) refl (htonl-lt k) (omega arith) len in
      let le =
        expected_le c bytes ck (child_at top s.child.next_seq) 0 top s.client (λ k h. h)
          a.hearing in
      let here : k ≡ s.client.expected_seq = omega (arith, place, a.serving.acked.0) in
      let (u, turned, taken) =
        Returns-eq
          (λ u.
            (u.eof ≡ true)
            × (u.sent ≡ s.client.sent ++ (replied ck s.client eof_header text_eof_ack ∷ [])))
          (receive_turn ck s.client (arrival src d.packet))
          (eof_heard ck c bytes (child_at top s.child.next_seq) 0 s.client _ d.packet src r.intact
            r.header refl (htonl-htonl k bound ∙ here)) in
      (u, turned, inr taken)
