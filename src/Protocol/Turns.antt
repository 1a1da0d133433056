-- ===== src/Protocol/Turns.antt =====
-- A round of either side, with whatever the other has sent, returns and keeps the agreement.
use rcopy.Base.{ℕ, ◌+◌, ◌≤◌, ◌<◌, ◌≡◌, arith, true, List, Returns, Returns-weaken}
use rcopy.Checksum.{Checksum}
use rcopy.Net.{Event}
use rcopy.Spec.{IsConfig}
use rcopy.Spec.Last.{EndsAt}
use rcopy.Window.{max_int_32}
use rcopy.Server.Transfer.{transfer_turn}
use rcopy.Server.Transfer.Round as Child
use rcopy.Server.Transfer.Round.{next_fits, transfer_turn-Good}
use rcopy.Rcopy.Receive.{receive_runs, receive_turn}
use rcopy.Rcopy.Receive.Receiving.{Reply}
use rcopy.Rcopy.Receive.Round as Client
use rcopy.Rcopy.Receive.Round.{runs_open, receive_turn-Receiving, MayAsk}
use rcopy.Rcopy.Receive.Output.{expected_le}
use rcopy.Protocol.{System, ToChild, ToClient, silence, brings, noise}
use rcopy.Wire.Sent.{Has-All}
use rcopy.Protocol.Agree.{
  child_at, SentFor, serving_terms, IsServing, IsHearing, Agree, IsServing-mono, IsHearing-mono,
}
use rcopy.Protocol.Fair.{Reply-fair, packet-Fair}

module _ (ck : Checksum) {window size : ℕ} (c : IsConfig window size) (bytes : List ℕ) (top : ℕ)
    (at : EndsAt window size bytes top) (small : top + window < max_int_32) where
  open ck use {in_cksum}

  abbrev IsAgreed : System → Type 0
  IsAgreed s = Agree ck c bytes top at s

  -- What the child hears is fair to it.
  child-Fair :
      (s : System) (since from : ℕ) {e : Event}
      → IsAgreed s
      → IsServing ck c bytes top at since from s.client.expected_seq s.client.eof s.child
      → ToChild ck s e
      → Child.Fair ck c bytes
          (serving_terms ck c bytes top at since from s.client.expected_seq s.client.eof)
          s.child
          e
  child-Fair s since from a g silence = tt
  child-Fair s since from a g (noise src heard corrupt h) = λ intact. absurd (ground arith)
  child-Fair s since from a g (brings src d h) = λ intact.
      Reply-fair ck c bytes top at small s.child since from s.client.expected_seq s.client.eof d g
        (expected_le c bytes ck (child_at top s.child.next_seq) 0 top s.client (λ k h. h) a.hearing)
        (Has-All (Reply ck (λ k. k < s.child.next_seq) s.client.eof s.client.expected_seq) d
          s.client.sent a.hearing.replies h)

  -- The child's round keeps the agreement, and never moves its base back.
  pub child_turn-Agree :
      (s : System) (e : Event)
      → IsAgreed s
      → ToChild ck s e
      → Returns
          (λ u. IsAgreed (record s { child = u }) × (s.child.base ≤ u.base))
          (transfer_turn ck s.child e)
  child_turn-Agree s e a h =
      let expected = s.client.expected_seq in
      let eof = s.client.eof in
      let now = s.child.next_seq in
      let terms = serving_terms ck c bytes top at now s.child.base expected eof in
      let g : IsServing ck c bytes top at now s.child.base expected eof s.child =
        IsServing-mono ck c bytes top at 0 now 0 s.child.base expected expected eof eof s.child
          a.serving (omega arith) (omega arith) (omega arith) (λ over. over) in
      Returns-weaken (Child.IsGood ck c bytes terms) _ (transfer_turn ck s.child e)
        (transfer_turn-Good ck c bytes terms s.child e (g, a.refilled)
          (child-Fair s now s.child.base a g h))
        (λ u (gu, refilled). (
          record {
            serving =
                IsServing-mono ck c bytes top at now 0 s.child.base 0 expected expected eof eof u gu
                  (omega arith) (omega arith) (omega arith) (λ over. over);
            hearing =
                IsHearing-mono ck c bytes top at now u.next_seq 0 0 s.client a.hearing (omega arith)
                  gu.grown;
            refilled = refilled;
          },
          gu.acked.2,
        ))

  -- What the client hears is fair to it, and it asks for nothing that has not been sent.
  client-Fair :
      (s : System) {e : Event}
      → IsAgreed s
      → ToClient ck s e
      → Client.Fair ck c bytes s.client e
        × MayAsk ck c bytes (child_at top s.child.next_seq) 0 s.client e
  client-Fair s a silence = (tt, tt)
  client-Fair s a (noise src heard corrupt sent) =
      ((λ intact. absurd (corrupt intact)), ((λ bad. sent), (λ intact. absurd (corrupt intact))))
  client-Fair s a (brings src d h) =
      packet-Fair ck c bytes top at small s.client s.child.next_seq d src
        (expected_le c bytes ck (child_at top s.child.next_seq) 0 top s.client (λ k h. h) a.hearing)
        (next_fits ck c bytes
          (serving_terms ck c bytes top at 0 0 s.client.expected_seq s.client.eof) s.child
          a.serving.serving)
        (Has-All (SentFor ck c bytes top at s.client.expected_seq s.child.next_seq) d s.child.sent
          a.serving.truthful h)

  -- The client's round keeps it too, and never expects an earlier packet.
  pub client_turn-Agree :
      (s : System) (e : Event)
      → IsAgreed s
      → receive_runs s.client ≡ true
      → ToClient ck s e
      → Returns
          (λ u. IsAgreed (record s { client = u }) × (s.client.expected_seq ≤ u.expected_seq))
          (receive_turn ck s.client e)
  client_turn-Agree s e a runs h =
      let next = s.child.next_seq in
      let expected = s.client.expected_seq in
      let r : IsHearing ck c bytes top at next expected s.client =
        IsHearing-mono ck c bytes top at next next 0 expected s.client a.hearing (omega arith)
          (omega arith) in
      let (fair, may) = client-Fair s a h in
      let open_yet = runs_open s.client runs in
      Returns-weaken (IsHearing ck c bytes top at next expected) _ (receive_turn ck s.client e)
        (receive_turn-Receiving ck c bytes (child_at top next) expected s.client e r open_yet fair
          may)
        (λ u ru. (
          record {
            serving =
                IsServing-mono ck c bytes top at 0 0 0 0 expected u.expected_seq s.client.eof u.eof
                  s.child a.serving (omega arith) (omega arith) ru.grown (λ over. cc);
            hearing =
                IsHearing-mono ck c bytes top at next next expected 0 u ru (omega arith)
                  (omega arith);
            refilled = a.refilled;
          },
          ru.grown,
        ))
