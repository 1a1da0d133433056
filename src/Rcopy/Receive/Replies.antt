-- ===== src/Rcopy/Receive/Replies.antt =====
-- The acknowledgements of rcopy.c, `sendRR`, `sendSREJ` and `sendEOF`, and the packet that ends the file.
use rcopy.Base.{
  All, All-map, All-snoc, ℕ, ◌≢◌, true, subst, ◌≤◌, ◌≡◌, inl, inr, refl, arith, false, List, [],
  ◌∷◌, ◌++◌, ◌==◌, ==_iff, Bool-cases, ok, Returns,
}
use rcopy.Checksum.{Checksum}
use rcopy.Spec.{IsConfig}
use rcopy.Wire.{PduHeader, Address, Datagram, checked_packet}
use rcopy.Wire.Sent.{Has-in, Has-append}
use rcopy.Wire.RoundTrip.{build_pdu-eq}
use rcopy.Rcopy.Receive.{
  Receive, rr_header, srej_header, eof_header, text_rr, text_srej, text_eof_ack, send_rr, send_srej,
  send_eof, on_eof,
}
use rcopy.Rcopy.Receive.Receiving.{Peer, HasAck, Reply, rr, srej, done, IsLast, Receiving}

module _ (ck : Checksum) where
  abbrev pub replied : Receive → PduHeader → List ℕ → Datagram
  replied s h text = record { dest = s.server; packet = checked_packet ck h text }

  pub send_rr-eq :
      (s : Receive) (k : ℕ)
      → send_rr ck s k ≡ ok (record s { sent = s.sent ++ (replied s (rr_header k) text_rr ∷ []) })
  unfolding send_rr
  send_rr-eq s k = rw (build_pdu-eq ck s.server (rr_header k) text_rr 2 (omega arith) (omega arith))

  pub send_srej-eq :
      (s : Receive) (k : ℕ)
      → send_srej ck s k
        ≡ ok (record s { sent = s.sent ++ (replied s (srej_header k) text_srej ∷ []) })
  unfolding send_srej
  send_srej-eq s k =
      rw (build_pdu-eq ck s.server (srej_header k) text_srej 4 (omega arith) (omega arith))

  pub send_eof-eq :
      (s : Receive)
      → send_eof ck s ≡ ok (record s { sent = s.sent ++ (replied s eof_header text_eof_ack ∷ []) })
  unfolding send_eof
  send_eof-eq s =
      rw (build_pdu-eq ck s.server eof_header text_eof_ack 7 (omega arith) (omega arith))

module _ (ck : Checksum) {window size : ℕ} (c : IsConfig window size) (bytes : List ℕ) (peer : Peer)
    (since : ℕ) where
  open ck use {in_cksum}

  abbrev pub IsReceiving : Receive → Type 0
  IsReceiving = Receiving window size bytes ck peer since

  pub Reply-mono :
      (m n : ℕ) (d : Datagram)
      → m ≤ n
      → Reply ck peer.Asked false m d
      → Reply ck peer.Asked false n d
  Reply-mono m n d le (rr k h e) = rr k (omega arith) e
  Reply-mono m n d le (srej k h a e) = srej k (omega arith) a e
  Reply-mono m n d le (done ended e) = cc

  -- Before the end is taken no reply says that it has been.
  Reply-ended :
      (n : ℕ) (d : Datagram) → Reply ck peer.Asked false n d → Reply ck peer.Asked true n d
  Reply-ended n d (rr k h e) = rr k h e
  Reply-ended n d (srej k h a e) = srej k h a e
  Reply-ended n d (done ended e) = cc

  -- A reply sent, and the attempts counted anew.
  pub Receiving-with :
      (s : Receive) (attempts : ℕ) (sent : List Datagram)
      → IsReceiving s
      → (s.eof ≡ true → HasAck ck s.server sent)
      → All (Reply ck peer.Asked s.eof s.expected_seq) sent
      → IsReceiving (record s { attempts = attempts; sent = sent })
  Receiving-with s attempts sent r told all = record {
    sized = r.sized;
    grown = r.grown;
    same_window = r.same_window;
    stored = r.stored;
    gap = r.gap;
    written = r.written;
    finished = r.finished;
    ended = r.ended;
    told = told;
    replies = all;
  }

  HasAck-append :
      (server : Address) (sent more : List Datagram)
      → HasAck ck server sent
      → HasAck ck server (sent ++ more)
  HasAck-append server sent more (x, h, e, to) = (x, Has-append x sent more h, e, to)

  pub rr-Receiving :
      (s : Receive) → IsReceiving s → Returns IsReceiving (send_rr ck s s.expected_seq)
  rr-Receiving s r = rw (send_rr-eq ck s s.expected_seq) (
      Receiving-with s s.attempts _ r (λ over. HasAck-append s.server s.sent _ (r.told over))
        (All-snoc _ s.sent _ r.replies (rr s.expected_seq (omega arith) refl)))

  pub srej-Receiving :
      (s : Receive)
      → IsReceiving s
      → peer.Asked s.expected_seq
      → Returns IsReceiving (send_srej ck s s.expected_seq)
  srej-Receiving s r asked = rw (send_srej-eq ck s s.expected_seq) (
      Receiving-with s s.attempts _ r (λ over. HasAck-append s.server s.sent _ (r.told over))
        (All-snoc _ s.sent _ r.replies (srej s.expected_seq (omega arith) asked refl)))

  -- A packet with the flag 10 is written and acknowledged when it is the one expected.
  pub on_eof-Receiving :
      (s : Receive) (seqNum : ℕ) (payload : List ℕ)
      → IsReceiving s
      → s.eof ≡ false
      → (seqNum ≡ s.expected_seq → IsLast window size bytes s.expected_seq payload)
      → (seqNum ≡ s.expected_seq → peer.End s.expected_seq)
      → (seqNum ≢ s.expected_seq → peer.Asked s.expected_seq)
      → Returns IsReceiving (on_eof ck s seqNum payload)
  unfolding on_eof
  on_eof-Receiving s seqNum payload r open_yet last stop ask =
      elim (Bool-cases (seqNum == s.expected_seq)) [
        | inr e ↦ rw e (srej-Receiving s r (ask (λ same. other e same)))
        | inl e ↦
            rw (e, send_eof-eq ck (record s { output = s.output ++ payload }))
              (record {
                sized = r.sized;
                grown = r.grown;
                same_window = r.same_window;
                stored = r.stored;
                gap = r.gap;
                written = λ h. cc;
                finished =
                    λ h. (s.output, payload, refl, r.written open_yet, last ((==_iff _ _).0 e));
                ended = λ h. stop ((==_iff _ _).0 e);
                told = λ h. (_, Has-in _ s.sent [], refl, refl);
                replies =
                    All-snoc _ s.sent _
                      (All-map (Reply ck peer.Asked false s.expected_seq)
                        (Reply ck peer.Asked true s.expected_seq) (Reply-ended s.expected_seq)
                        s.sent
                        (subst (λ b. All (Reply ck peer.Asked b s.expected_seq) s.sent) open_yet
                          r.replies))
                      (done refl refl);
              })
      ]
    where
      other : (seqNum == s.expected_seq) ≡ false → seqNum ≢ s.expected_seq
      other e same = ground arith
