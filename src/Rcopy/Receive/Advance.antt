-- ===== src/Rcopy/Receive/Advance.antt =====
-- How `stateFileReceive` answers a packet that it has or expects.
use rcopy.Base.{
  ℕ, ◌+◌, ◌≤◌, ◌<◌, ◌≡◌, refl, ◌∙◌, arith, true, false, Bool-cases, inl, inr, List, [], ◌∷◌, ◌++◌,
  length, drop, ltb, leb, lt→ltb, ◌==◌, ==_iff, ltb→lt, ok, Returns, Returns-weaken, u32,
}
use rcopy.Checksum.{Checksum}
use rcopy.Net.{arrival, received}
use rcopy.Spec.{IsConfig}
use rcopy.Window.{max_int_32}
use rcopy.Wire.{PduHeader, htonl, read_header, header_size}
use rcopy.Rcopy.Receive.{
  Receive, rr_header, eof_header, text_rr, text_eof_ack, receive_turn, on_packet, on_data, on_eof,
}
use rcopy.Rcopy.Receive.Receiving.{Peer, Fronts}
use rcopy.Rcopy.Receive.Replies.{IsReceiving, Receiving-with, replied, send_rr-eq, send_eof-eq}
use rcopy.Rcopy.Receive.Data.{on_data-Advances}

module _ (ck : Checksum) {window size : ℕ} (c : IsConfig window size) (bytes : List ℕ) (peer : Peer)
    (since : ℕ) where
  open ck use {in_cksum}

  -- The client is past `k`, has counted its attempts anew, and has said last which packet it expects.
  abbrev pub Advanced : ℕ → Receive → Receive → Type 0
  Advanced k s u =
      (k < u.expected_seq)
      × (u.eof ≡ false)
      × (u.attempts ≡ 0)
      × (u.server ≡ s.server)
      × (u.sent ≡ s.sent ++ (replied ck s (rr_header u.expected_seq) text_rr ∷ []))

  -- A data packet at or before the one expected.
  pub data_heard :
      (s : Receive) (k : ℕ) (h : PduHeader) (packet : List ℕ) (src : ℕ)
      → IsReceiving ck c bytes peer since s
      → s.eof ≡ false
      → in_cksum (received packet) ≡ 0
      → read_header (received packet) ≡ ok h
      → (h.flag == 10) ≡ false
      → htonl h.seq ≡ k
      → length (drop header_size (received packet)) ≤ 1400
      → k ≤ s.expected_seq
      → s.expected_seq + window < max_int_32
      → peer.Chunk k
      → Fronts window size bytes k (drop header_size (received packet))
      → Returns (Advanced k s) (receive_turn ck s (arrival src packet))
  unfolding receive_turn on_packet
  data_heard s k h packet src r open_yet intact read flag number short le fits place front =
      rw (intact, read, flag, number)
        (elim (Bool-cases (leb s.expected_seq k)) [
          | inr before ↦
              let old : ltb k s.expected_seq ≡ true = ground arith in
              rw (before, old, send_rr-eq ck (record s { attempts = 0 }) s.expected_seq)
                (ltb→lt _ _ old, open_yet, refl, refl, refl)
          | inl from ↦
              let same : k ≡ s.expected_seq = ground arith in
              let inside : ltb k (u32 (s.expected_seq + s.windowsize)) ≡ true =
                lt→ltb _ _ (omega (arith, r.same_window, c.window_pos)) in
              let u : Receive = record s { attempts = 0 } in
              rw (from, inside)
                (Returns-weaken _ (Advanced k s)
                  (on_data ck u k (drop header_size (received packet)))
                  (on_data-Advances ck c bytes peer since u
                    (Receiving-with ck c bytes peer since s 0 s.sent r r.told r.replies) open_yet k
                    (drop header_size (received packet)) (omega arith) (omega (arith, c.window_pos))
                    short fits place front (λ later. absurd (omega arith)) same)
                  (λ v (further, eof, attempts, from, sent).
                    (further, eof ∙ open_yet, attempts, from, sent)))
        ])

  -- The packet that ends the file, when it is the one expected.
  pub eof_heard :
      (s : Receive) (h : PduHeader) (packet : List ℕ) (src : ℕ)
      → in_cksum (received packet) ≡ 0
      → read_header (received packet) ≡ ok h
      → h.flag ≡ 10
      → htonl h.seq ≡ s.expected_seq
      → Returns
          (λ u. (u.eof ≡ true) × (u.sent ≡ s.sent ++ (replied ck s eof_header text_eof_ack ∷ [])))
          (receive_turn ck s (arrival src packet))
  unfolding receive_turn on_packet on_eof
  eof_heard s h packet src intact read flag number =
      let hit : (htonl h.seq == s.expected_seq) ≡ true = (==_iff _ _).1 number in
      rw
        (
          intact,
          read,
          flag,
          hit,
          send_eof-eq ck
              (record s { attempts = 0; output = s.output ++ drop header_size (received packet) }),
        )
        (refl, refl)
