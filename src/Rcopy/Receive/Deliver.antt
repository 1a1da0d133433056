-- ===== src/Rcopy/Receive/Deliver.antt =====
-- The loop that writes the packet expected and those buffered behind it.
use rcopy.Base.{
  ℕ, suc, ◌+◌, ◌-◌, ◌*◌, ◌%◌, ◌≤◌, ◌<◌, ◌≡◌, ◌≢◌, inl, inr, refl, sym, ap, ◌∙◌, arith, true, false,
  some, List, ◌++◌, length, take, drop, get_elem?, take-take, length-take, u32, leb, le→leb, ◌==◌,
  ==_iff, Bool-cases, Returns, eq_of_some, subst,
}
use rcopy.Base.Loop.{loop_total, TurnOk}
use rcopy.Spec.{chunk, IsConfig}
use rcopy.Window.{Pane, max_int_32}
use rcopy.Window.Panes.{IsSized, pane_of, index_of, read_pane-eq}
use rcopy.Rcopy.Receive.{Receive, deliver_round, deliver}
use rcopy.Rcopy.Receive.Receiving.{Delivered, next, AllStored, IsGap, Fronts, IsBlock}

module _ {window size : ℕ} (c : IsConfig window size) (bytes : List ℕ) (Chunk : ℕ → Type 0)
    (s : Receive) (sized : IsSized window size s.wb)
    (stored : AllStored window size bytes Chunk (s.expected_seq + window) s.wb.panes)
    (fits : s.expected_seq + window < max_int_32) where
  -- Between the rounds only the number expected and the output change.
  abbrev pub progress : ℕ → List ℕ → Receive
  progress n out = record s { expected_seq = n; output = out }

  pub record Delivering (u : Receive) : Type 0 where
    pub number : ℕ
    pub out : List ℕ
    pub same : u ≡ progress number out
    pub above : s.expected_seq ≤ number
    pub below : number ≤ s.expected_seq + window
    pub blocks : Delivered window size bytes Chunk number out

  abbrev left : Receive → ℕ
  left u = s.expected_seq + window - u.expected_seq

  abbrev pub AllDelivered : Receive → Type 0
  AllDelivered u =
      (n : ℕ) × (out : List ℕ) × (u ≡ progress n out)
      × (s.expected_seq ≤ n)
      × (n ≤ s.expected_seq + window)
      × Delivered window size bytes Chunk n out
      × IsGap window size bytes n s.wb.panes

  -- The pane of `n` holds the packet of `n`: it has been stored, and its chunk stands at its front.
  hit_stored :
      (n : ℕ) (p : Pane)
      → get_elem? s.wb.panes (n % window) ≡ some p
      → p.seq_num ≡ n
      → n ≤ s.expected_seq + window
      → (n < s.expected_seq + window) × Chunk n × Fronts window size bytes n p.content
  hit_stored n p at hit below = elim (stored (n % window) p at) [
    | inl blank ↦ absurd (omega arith)
    | inr (_, lt, place, front) ↦ (
      omega arith,
      subst Chunk hit place,
      subst (λ k. Fronts window size bytes k p.content) hit front,
    )
  ]

  IsBlock-of :
      (n : ℕ) (p : Pane)
      → length p.content ≡ 1400
      → Chunk n × Fronts window size bytes n p.content
      → IsBlock window size bytes Chunk n (take s.wb.buffer_size p.content)
  IsBlock-of n p room (place, (inside, front)) = (
    omega (arith, length-take s.wb.buffer_size p.content, sized.buffer_size, c.size_max),
    place,
    (
      inside,
      take-take (length (chunk size bytes n)) s.wb.buffer_size p.content
            (omega (arith, length-take size (drop (n * size) bytes), sized.buffer_size))
          ∙ front,
    ),
  )

  round-TurnOk :
      (n : ℕ) (out : List ℕ)
      → s.expected_seq ≤ n
      → n ≤ s.expected_seq + window
      → Delivered window size bytes Chunk n out
      → Returns
          (TurnOk left Delivering AllDelivered (left (progress n out)))
          (deliver_round (progress n out))
  unfolding deliver_round
  round-TurnOk n out above below blocks =
      let (p, at, room) = pane_of sized c.window_pos n in
      elim (Bool-cases (p.seq_num == n)) [
        | inl e ↦
            let hit = (==_iff p.seq_num n).0 e in
            let (lt, place, front) = hit_stored n p at hit below in
            let step : u32 (n + 1) ≡ suc n = omega arith in
            let whole : leb s.wb.buffer_size (length p.content) ≡ true =
              le→leb _ _ (omega (arith, sized.buffer_size, c.size_max)) in
            rw (index_of sized c.window_pos n, read_pane-eq s.wb _ p at, e, whole, step)
              (
                record {
                  number = suc n;
                  out = out ++ take s.wb.buffer_size p.content;
                  same = refl;
                  above = omega arith;
                  below = omega arith;
                  blocks = next blocks _ (IsBlock-of n p room (place, front));
                },
                omega arith,
              )
        | inr e ↦
            rw (index_of sized c.window_pos n, read_pane-eq s.wb _ p at, e)
              (
                n,
                out,
                refl,
                above,
                below,
                blocks,
                λ q there same. absurd (
                    ne_of_test p n e
                      (ap (λ (r : Pane). r.seq_num) (eq_of_some (sym at ∙ there)) ∙ same)),
              )
      ]
    where
      ne_of_test : (p : Pane) (n : ℕ) → (p.seq_num == n) ≡ false → p.seq_num ≢ n
      ne_of_test p n e = ground arith

  -- The loop ends within a window of rounds, and leaves a gap.
  pub deliver_lem :
      Delivered window size bytes Chunk s.expected_seq s.output → Returns AllDelivered (deliver s)
  unfolding deliver
  deliver_lem blocks =
      loop_total left Delivering AllDelivered deliver_round
        (λ u d. rw d.same (round-TurnOk d.number d.out d.above d.below d.blocks))
        (suc s.wb.window_size) s (omega (arith, sized.window_size))
        (record {
          number = s.expected_seq;
          out = s.output;
          same = refl;
          above = omega arith;
          below = omega arith;
          blocks = blocks;
        })
