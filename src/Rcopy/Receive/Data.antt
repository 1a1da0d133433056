-- ===== src/Rcopy/Receive/Data.antt =====
-- rcopy.c: a packet of the window is stored in its pane, and delivered or asked for.
use rcopy.Base.{
  All, subst, All-map, All-snoc, ℕ, ◌+◌, ◌%◌, ◌≤◌, ◌<◌, ◌≡◌, inl, inr, refl, sym, ap, ◌∙◌, arith,
  false, true, ==_iff, some, List, [], ◌∷◌, ◌++◌, length, take, drop, get_elem?,
  get_elem?-set_cases, get_elem?-set_ne, get_elem?-set_self, dec_le, set, overwrite, take-append,
  length-take, ◌==◌, Bool-cases, Returns, Returns-bind, ◌>>=◌,
}
use native.Mathlib.Nat.{mod-lt}
use rcopy.Base.Index.{mod-ne}
use rcopy.Checksum.{Checksum}
use rcopy.Spec.{chunk, IsConfig}
use rcopy.Window.{Pane, WindowBuffer, max_int_32}
use rcopy.Window.Panes.{IsSized, IsSized-set, pane_of, index_of, write_pane-eq}
use rcopy.Rcopy.Receive.{Receive, rr_header, text_rr, send_rr, on_data, deliver}
use rcopy.Rcopy.Receive.Receiving.{Peer, Reply, rr, AllStored, IsGap, Fronts}
use rcopy.Rcopy.Receive.Deliver.{deliver_lem, progress, AllDelivered}
use rcopy.Rcopy.Receive.Replies.{IsReceiving, Reply-mono, replied, send_rr-eq, srej-Receiving}

module _ (ck : Checksum) {window size : ℕ} (c : IsConfig window size) (bytes : List ℕ) (peer : Peer)
    (since : ℕ) where
  AllStored-mono :
      (m n : ℕ) (panes : List Pane)
      → m ≤ n
      → AllStored window size bytes peer.Chunk m panes
      → AllStored window size bytes peer.Chunk n panes
  AllStored-mono m n panes le h i p at = elim (h i p at) [
    | inl blank ↦ inl blank
    | inr (pane, lt, at_most, front) ↦ inr (pane, omega arith, at_most, front)
  ]

  -- A payload that has a chunk at its front has at least the chunk's length.
  length-front :
      (chunk payload : List ℕ) → take (length chunk) payload ≡ chunk → length chunk ≤ length payload
  length-front chunk payload e = omega (arith, ap length e, length-take (length chunk) payload)

  module _ (s : Receive) (r : IsReceiving ck c bytes peer since s) (open_yet : s.eof ≡ false)
      (seqNum : ℕ) (payload : List ℕ) (low : s.expected_seq ≤ seqNum)
      (high : seqNum < s.expected_seq + window) (short : length payload ≤ 1400)
      (fits : s.expected_seq + window < max_int_32) (place : peer.Chunk seqNum)
      (fronts : Fronts window size bytes seqNum payload)
      (ask : s.expected_seq < seqNum → peer.Asked s.expected_seq) where
    -- The pane that the packet replaces.
    old : Pane
    old = (pane_of r.sized c.window_pos seqNum).0

    abbrev fresh : Pane
    fresh = record { seq_num = seqNum; content = overwrite payload old.content }

    abbrev stored_in : WindowBuffer
    stored_in = record s.wb { panes = set s.wb.panes (seqNum % window) fresh }

    at_old : get_elem? s.wb.panes (seqNum % window) ≡ some old
    unfolding old
    at_old = (pane_of r.sized c.window_pos seqNum).1

    stored-IsSized : IsSized window size stored_in
    stored-IsSized = IsSized-set (seqNum % window) seqNum payload old r.sized at_old short

    all_stored : AllStored window size bytes peer.Chunk (s.expected_seq + window) stored_in.panes
    all_stored i p at = elim (get_elem?-set_cases s.wb.panes (seqNum % window) i fresh at) [
      | inr before ↦ r.stored i p before
      | inl (pane, now) ↦ rw now (
          inr (
            pane,
            high,
            place,
            (
              fronts.0,
              take-append (length (chunk size bytes seqNum)) payload
                    (drop (length payload) old.content)
                    (length-front (chunk size bytes seqNum) payload fronts.1)
                  ∙ fronts.1,
            ),
          ))
    ]

    IsGap-kept : s.expected_seq < seqNum → IsGap window size bytes s.expected_seq stored_in.panes
    IsGap-kept later p at = r.gap p (
        sym (
          get_elem?-set_ne s.wb.panes fresh
            (λ e. mod-ne window s.expected_seq seqNum later high (sym e)))
        ∙ at)

    -- Delivery goes on to the next gap, which is then asked for.
    delivered :
        Returns
          (IsReceiving ck c bytes peer since)
          (deliver (record s { wb = stored_in }) >>= λ v. send_rr ck v v.expected_seq)
    delivered =
        let u : Receive = record s { wb = stored_in } in
        Returns-bind (AllDelivered c bytes peer.Chunk u stored-IsSized all_stored fits) _
          (deliver u) (λ v. send_rr ck v v.expected_seq)
          (deliver_lem c bytes peer.Chunk u stored-IsSized all_stored fits (r.written open_yet))
          (λ v (n, out, e, above, below, blocks, gap).
            rw
              (
                e,
                send_rr-eq ck (progress c bytes peer.Chunk u stored-IsSized all_stored fits n out)
                    n,
              )
              (record {
                sized = stored-IsSized;
                grown = omega (arith, r.grown);
                same_window = r.same_window;
                stored =
                    AllStored-mono (s.expected_seq + window) (n + window) stored_in.panes
                      (omega arith) all_stored;
                gap = gap;
                written = λ h. blocks;
                finished = λ h. cc;
                ended = λ h. cc;
                told = λ h. cc;
                replies =
                    subst
                      (λ b.
                        All (Reply ck peer.Asked b n)
                          (s.sent ++ (replied ck s (rr_header n) text_rr ∷ [])))
                      (sym open_yet)
                      (All-snoc (Reply ck peer.Asked false n) s.sent
                        (replied ck s (rr_header n) text_rr)
                        (All-map (Reply ck peer.Asked false s.expected_seq)
                          (Reply ck peer.Asked false n)
                          (λ d. Reply-mono ck c bytes peer since s.expected_seq n d above) s.sent
                          (subst (λ b. All (Reply ck peer.Asked b s.expected_seq) s.sent) open_yet
                            r.replies))
                        (rr n (omega arith) refl));
              }))

    -- The packet expected takes the client past it, which says so.
    pub on_data-Advances :
        seqNum ≡ s.expected_seq
        → Returns
            (λ v.
              (seqNum < v.expected_seq)
              × (v.eof ≡ s.eof)
              × (v.attempts ≡ s.attempts)
              × (v.server ≡ s.server)
              × (v.sent ≡ s.sent ++ (replied ck s (rr_header v.expected_seq) text_rr ∷ [])))
            (on_data ck s seqNum payload)
    unfolding on_data
    on_data-Advances same =
        let u : Receive = record s { wb = stored_in } in
        let hit : (seqNum == s.expected_seq) ≡ true = (==_iff seqNum s.expected_seq).1 same in
        rw
          (
            index_of r.sized c.window_pos seqNum,
            write_pane-eq s.wb _ seqNum payload old at_old short,
            hit,
          )
          (Returns-bind (AllDelivered c bytes peer.Chunk u stored-IsSized all_stored fits) _
            (deliver u) (λ v. send_rr ck v v.expected_seq)
            (deliver_lem c bytes peer.Chunk u stored-IsSized all_stored fits (r.written open_yet))
            (λ v (n, out, e, above, below, blocks, gap).
              rw
                (
                  e,
                  send_rr-eq ck (progress c bytes peer.Chunk u stored-IsSized all_stored fits n out)
                      n,
                )
                (further n above gap, refl, refl, refl, refl)))
      where
        further :
            (n : ℕ) → s.expected_seq ≤ n → IsGap window size bytes n stored_in.panes → seqNum < n
        further n above gap = elim (dec_le n seqNum) [
          | no gt ↦ omega arith
          | yes le ↦
              let here : n ≡ seqNum = omega arith in
              absurd (
                gap fresh
                  (ap (λ (k : ℕ). get_elem? stored_in.panes (k % window)) here
                    ∙ get_elem?-set_self s.wb.panes (seqNum % window) fresh
                        (rw r.sized.count (mod-lt seqNum c.window_pos)))
                  (sym here))
        ]

    pub on_data-Receiving :
        Returns (IsReceiving ck c bytes peer since) (on_data ck s seqNum payload)
    unfolding on_data
    on_data-Receiving =
        rw
          (
            index_of r.sized c.window_pos seqNum,
            write_pane-eq s.wb _ seqNum payload old at_old short,
          )
          (elim (Bool-cases (seqNum == s.expected_seq)) [
            | inl e ↦ rw e delivered
            | inr e ↦ rw e (
                srej-Receiving ck c bytes peer since (record s { wb = stored_in })
                  (record {
                    sized = stored-IsSized;
                    grown = r.grown;
                    same_window = r.same_window;
                    stored = all_stored;
                    gap = IsGap-kept (later e);
                    written = r.written;
                    finished = r.finished;
                    ended = r.ended;
                    told = r.told;
                    replies = r.replies;
                  })
                  (ask (later e)))
          ])
      where
        later : (seqNum == s.expected_seq) ≡ false → s.expected_seq < seqNum
        later e = ground arith
