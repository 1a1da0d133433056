-- ===== src/Server/Transfer/Initial.antt =====
-- The first loop of `transferData`: the panes are filled one by one, and the file may end.
use rcopy.Base.{
  All, ℕ, suc, ◌+◌, ◌-◌, ◌*◌, ◌%◌, ◌≤◌, ◌<◌, ◌≡◌, refl, sym, ap, subst, ◌∙◌, arith, true, false,
  ◌||◌, ◌&&◌, not, some, get_elem?, take_all, inl, List, [], ◌∷◌, min, ◌++◌, length, take, drop,
  u32, ltb, lt→ltb, le→ltb, length-take, length-drop, ok, dec_le, ◌==◌, get_elem?-set_self,
  overwrite,
}
use rcopy.Base.Loop.{again, leave}
use rcopy.Checksum.{Checksum}
use rcopy.Net.{fread}
use rcopy.Spec.{chunk, IsConfig}
use rcopy.Window.{Pane}
use rcopy.Server.Transfer.{Transfer, initial_send, initial_end, initial_round}
use rcopy.Server.Transfer.Terms.{Terms, All-Sent-snoc, Placed-open, Placed-data, Placed-end}
use rcopy.Server.Transfer.Packets.{Honest, carries, ends, data_packet, send_eof_packet-eq}
use rcopy.Server.Transfer.Send.{after_chunk, wb_after, read_chunk-eq, send_chunk-eq}
use rcopy.Server.Transfer.Serving.{HoldsLast}
use rcopy.Server.Transfer.Refill.{
  Good, next-eq, length-rest, got-eq-chunk, after_held, before, step_rest, next_even,
}
use native.Mathlib.Nat.{mod-eq_of_lt, le_refl}

module _ (ck : Checksum) {window size : ℕ} (c : IsConfig window size) (bytes : List ℕ)
    (terms : Terms ck window size bytes) where
  open (terms.places) use {Place, early_data, early_end}

  abbrev IsGood : Transfer → Type 0
  IsGood = Good ck c bytes terms

  module _ (t : Transfer) (p : Pane) (g : IsGood t) (off : t.eof_sent ≡ false) (start : t.base ≡ 0)
      (below : t.next_seq < window) (at : get_elem? t.wb.panes t.next_seq ≡ some p) where
    open (g.serving) use {sized, reading}

    abbrev pub rest : ℕ
    rest = length t.file.rest

    abbrev pub got : List ℕ
    got = fread t.file t.wb.buffer_size

    abbrev pub read : Transfer
    read = after_chunk t t.next_seq p

    length-got : length got ≡ min size rest
    length-got = length-take t.wb.buffer_size t.file.rest ∙ ap (λ n. min n rest) sized.buffer_size

    there :
        get_elem? read.wb.panes (t.next_seq % window)
        ≡ some (record { seq_num = t.next_seq; content = overwrite got p.content })
    there =
        rw (mod-eq_of_lt below) (get_elem?-set_self t.wb.panes t.next_seq _ (rw sized.count below))

    -- The chunk goes out as data if it has any bytes.
    initial_send-eq :
        0 < rest
        → initial_send ck read (length got)
          ≡ ok (record read {
            next_seq = u32 (t.next_seq + 1);
            sent = t.sent ++ (data_packet ck t.client t.next_seq t.eof_sent got ∷ []);
          })
    unfolding initial_send
    initial_send-eq some_bytes =
        let e : ltb 0 (length got) ≡ true = lt→ltb _ _ (omega (arith, length-got, c.size_pos)) in
        rw (
          e,
          send_chunk-eq ck c t read p t.eof_sent
              (read_chunk-eq t t.next_seq p sized c.size_max at).1 there
              (omega (arith, length-got, c.size_max)),
        )

    abbrev pub data_sent : Transfer
    data_sent = record read {
      next_seq = u32 (t.next_seq + 1);
      sent = t.sent ++ (data_packet ck t.client t.next_seq t.eof_sent got ∷ []);
    }

    runs : (ltb t.next_seq t.wb.window_size && not t.file.eof) ≡ true
    runs = ground (arith, sized.window_size, reading off)

    pub round_full : size ≤ rest → initial_round ck t ≡ ok (again data_sent)
    unfolding initial_round
    round_full full =
        let e : (length got == 0) ≡ false = ground (arith, length-got, c.size_pos) in
        let m : ltb rest t.wb.buffer_size ≡ false = le→ltb _ _ (omega (arith, sized.buffer_size)) in
        rw (
          runs,
          (read_chunk-eq t t.next_seq p sized c.size_max at).0,
          initial_send-eq (omega (arith, c.size_pos)),
          initial_end,
          e,
          (reading off).2,
          m,
        )

    -- The packet that ends the file, sent behind what `v` has sent.
    abbrev pub ended_at : Transfer → Transfer
    ended_at v = record v {
      eof_sent = true;
      eof_seq = v.next_seq;
      next_seq = u32 (v.next_seq + 1);
      sent = v.sent ++ (data_packet ck v.client v.next_seq true [] ∷ []);
    }

    pub round_short : 0 < rest → rest < size → initial_round ck t ≡ ok (leave (ended_at data_sent))
    unfolding initial_round
    round_short more short =
        let closes : (length got == 0 || (t.file.eof || ltb rest t.wb.buffer_size)) ≡ true =
          ground (arith, sized.buffer_size) in
        rw (
          runs,
          (read_chunk-eq t t.next_seq p sized c.size_max at).0,
          initial_send-eq more,
          initial_end,
          closes,
          send_eof_packet-eq ck data_sent (u32 (t.next_seq + 1)),
        )

    pub round_empty : rest ≡ 0 → initial_round ck t ≡ ok (leave (ended_at read))
    unfolding initial_round initial_send
    round_empty none_left =
        let e : (length got == 0) ≡ true = ground (arith, length-got) in
        let n : ltb 0 (length got) ≡ false = ground (arith, length-got) in
        rw (
          runs,
          (read_chunk-eq t t.next_seq p sized c.size_max at).0,
          n,
          initial_end,
          e,
          send_eof_packet-eq ck read t.next_seq,
        )

    open (g.serving) use {fits}

    at_next : get_elem? t.wb.panes (t.next_seq % window) ≡ some p
    at_next = rw (mod-eq_of_lt below) at

    room : t.next_seq < t.base + window
    room = omega arith

    pub next_now : u32 (t.next_seq + 1) ≡ suc t.next_seq
    next_now = next-eq ck c bytes terms t p g off room at_next

    length_rest : rest ≡ length bytes - t.next_seq * size
    length_rest = length-rest ck c bytes terms t p g off room at_next

    chunk-got : got ≡ chunk size bytes t.next_seq
    chunk-got = got-eq-chunk ck c bytes terms t p g off room at_next

    held_now : HoldsLast window size bytes read.wb.panes (suc t.next_seq)
    held_now =
        subst (λ i. HoldsLast window size bytes (wb_after t i p).panes (suc t.next_seq))
          (mod-eq_of_lt below) (after_held ck c bytes terms t p g off room at_next)

    upto : t.next_seq * size < length bytes → (k : ℕ) → k < suc t.next_seq → k * size < length bytes
    upto h k lt = elim (dec_le (suc k) t.next_seq) [
      | yes below' ↦ before ck c bytes terms t p g off room at_next k below'
      | no last ↦ let e : k ≡ t.next_seq = omega arith in rw e h
    ]

    got_whole : take (length (chunk size bytes t.next_seq)) got ≡ chunk size bytes t.next_seq
    got_whole =
        ap (λ r. take (length r) got) (sym chunk-got) ∙ take_all _ got (le_refl _) ∙ chunk-got

    first_place : 0 < rest → Place t.next_seq false
    first_place more = early_data t.next_seq below (omega (arith, length_rest))

    standing : (k : ℕ) → k < t.next_seq → Place k false
    standing = Placed-open Place t.eof_seq off g.placed

    -- What has been read is on record, with data sent for it.
    data_sent-All : 0 < rest → All (terms.Sent (u32 (t.next_seq + 1))) data_sent.sent
    data_sent-All more = All-Sent-snoc terms t.next_seq _ t.sent _ next_now g.truthful (
        subst
          (λ b. Honest ck Place size bytes t.next_seq (data_packet ck t.client t.next_seq b got))
          (sym off)
          (carries got (omega (arith, fits)) (omega (arith, length-got)) refl
            (omega (arith, length_rest)) got_whole (first_place more)))

    pub data_sent-Good : size ≤ rest → IsGood data_sent
    data_sent-Good full = record {
      serving = record {
        sized = (read_chunk-eq t t.next_seq p sized c.size_max at).1;
        framed = g.serving.framed;
        filled = suc t.next_seq;
        held = held_now;
        reach = room;
        fits = fits;
        inside = λ k lt h. upto (omega (arith, length_rest, c.size_pos)) k lt;
        reading = λ e. (
          sym next_now,
          step_rest ck c bytes terms t p g off room at_next,
          rw ((reading off).2, le→ltb rest t.wb.buffer_size (omega (arith, sized.buffer_size))),
        );
        ended = λ e. cc;
      };
      truthful = data_sent-All (omega (arith, c.size_pos));
      grown = omega (arith, next_now, fits, g.grown);
      acked = g.acked;
      finished = g.finished;
      placed = λ k lt. rw off (
          Placed-data Place standing (first_place (omega (arith, c.size_pos))) k
            (omega (arith, next_now)));
      even = λ e. next_even ck c bytes terms t p g off room at_next full;
    }

    pub ended-data_sent-Good : 0 < rest → rest < size → IsGood (ended_at data_sent)
    ended-data_sent-Good more short = record {
      serving = record {
        sized = (read_chunk-eq t t.next_seq p sized c.size_max at).1;
        framed = g.serving.framed;
        filled = suc t.next_seq;
        held = held_now;
        reach = room;
        fits = fits;
        inside = λ k lt h. upto (omega (arith, length_rest)) k lt;
        reading = λ e. cc;
        ended =
            λ e. (omega (arith, next_now), omega (arith, next_now), omega (arith, next_now), past);
      };
      truthful =
          All-Sent-snoc terms (u32 (t.next_seq + 1)) _ data_sent.sent _
            (omega (arith, next_now, fits)) (data_sent-All more)
            (ends [] (omega arith) (omega arith) refl past
              (λ k lt. upto (omega (arith, length_rest)) k (omega (arith, next_now))) (inl refl)
              ending);
      grown = omega (arith, next_now, fits, g.grown);
      acked = g.acked;
      finished = g.finished;
      placed = λ k lt.
          Placed-end Place
            (λ j lower. Placed-data Place standing (first_place more) j (omega (arith, next_now)))
            ending k (omega (arith, next_now));
      even = λ e. cc;
    }
      where
        past : length (drop (u32 (t.next_seq + 1) * size) bytes) < size
        past =
            let e : suc t.next_seq * size ≡ t.next_seq * size + size = grind arith in
            omega (
              arith,
              ap (λ (n : ℕ). length (drop (n * size) bytes)) next_now,
              length-drop (suc t.next_seq * size) bytes,
              length_rest,
            )

        over : length bytes ≤ u32 (t.next_seq + 1) * size
        over =
            let e : suc t.next_seq * size ≡ t.next_seq * size + size = grind arith in
            rw (next_now, e) (omega (arith, length_rest))

        ending : Place (u32 (t.next_seq + 1)) true
        ending =
            early_end (u32 (t.next_seq + 1)) (omega (arith, next_now)) over
              (λ k lt. upto (omega (arith, length_rest)) k (omega (arith, next_now)))

    pub ended-read-Good : rest ≡ 0 → IsGood (ended_at read)
    ended-read-Good none_left = record {
      serving = record {
        sized = (read_chunk-eq t t.next_seq p sized c.size_max at).1;
        framed = g.serving.framed;
        filled = t.next_seq;
        held = λ k lt near. held_now k (omega arith) (omega arith);
        reach = omega arith;
        fits = fits;
        inside = λ k lt h. before ck c bytes terms t p g off room at_next k lt;
        reading = λ e. cc;
        ended = λ e. (omega (arith, next_now), omega (arith, next_now), omega arith, past);
      };
      truthful = All-Sent-snoc terms t.next_seq _ t.sent _ next_now g.truthful (
          ends [] (omega (arith, fits)) (omega arith) refl past
            (before ck c bytes terms t p g off room at_next) (inl refl) ending);
      grown = omega (arith, next_now, fits, g.grown);
      acked = g.acked;
      finished = g.finished;
      placed = λ k lt. Placed-end Place standing ending k (omega (arith, next_now));
      even = λ e. cc;
    }
      where
        past : length (drop (t.next_seq * size) bytes) < size
        past = omega (arith, ap length (reading off).1, c.size_pos)

        ending : Place t.next_seq true
        ending =
            early_end t.next_seq (omega arith) (omega (arith, length_rest))
              (before ck c bytes terms t p g off room at_next)
