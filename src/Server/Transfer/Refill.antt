-- ===== src/Server/Transfer/Refill.antt =====
-- `send_next_data` and the loop that refills the window keep the invariant.
use rcopy.Base.{
  All, ℕ, suc, ◌+◌, ◌-◌, ◌*◌, ◌%◌, ◌≤◌, ◌<◌, ◌≡◌, refl, sym, ap, ap₂, subst, ◌∙◌, arith, Bool, true,
  false, ◌&&◌, not, some, get_elem?, take_all, inl, inr, ◌⊎◌, List, length, take, drop, u32, ltb,
  ltb→lt, ltb→le, Bool-cases, length-take, length-drop, drop-drop, ok, Returns, Returns-bind,
  dec_le, ◌==◌,
}
use rcopy.Base.Loop.{again, loop_total, TurnOk}
use rcopy.Checksum.{Checksum}
use rcopy.Net.{fread}
use rcopy.Spec.{chunk, IsConfig}
use rcopy.Window.{Pane}
use rcopy.Server.Transfer.{Transfer, send_next_data, refill_round, refill}
use rcopy.Server.Transfer.Packets.{carries, ends}
use rcopy.Server.Transfer.Terms.{Terms, All-Sent-snoc, Placed-open, Placed-data, Placed-end}
use rcopy.Server.Transfer.Send.{after_send, wb_after, read_chunk-eq, send_next_data-eq}
use rcopy.Server.Transfer.Serving.{Serving, HoldsLast, HoldsLast-set}
use native.Mathlib.Nat.{mod-eq_of_lt, le_refl}

module _ (ck : Checksum) {window size : ℕ} (c : IsConfig window size) (bytes : List ℕ)
    (terms : Terms ck window size bytes) where
  open terms use {places, since, Sent, Acked, Finished}
  open places use {Place, full_data, late_end}

  -- The invariant, and the terms are kept.
  pub record Good (t : Transfer) : Type 0 where
    pub serving : Serving window size bytes t
    pub truthful : All (Sent t.next_seq) t.sent
    pub grown : since ≤ t.next_seq
    pub acked : Acked t.base
    pub finished : t.eof_acked ≡ true → Finished
    -- The packets sent stand where they may, and before the end there are only full ones.
    pub placed : (k : ℕ) → k < t.next_seq → Place k (t.eof_sent && (k == t.eof_seq))
    pub even : t.eof_sent ≡ false → t.next_seq * size ≤ length bytes

  abbrev shorter : Transfer → Bool
  shorter t = ltb (length t.file.rest) t.wb.buffer_size

  module _ (t : Transfer) (p : Pane) (g : Good t) (off : t.eof_sent ≡ false)
      (room : t.next_seq < t.base + window)
      (at : get_elem? t.wb.panes (t.next_seq % window) ≡ some p) where
    open (g.serving) use {sized, filled, held, inside, reading, fits}

    pub got-eq-chunk : fread t.file t.wb.buffer_size ≡ chunk size bytes t.next_seq
    got-eq-chunk = ap₂ take sized.buffer_size (reading off).1

    pub length-got : length (fread t.file t.wb.buffer_size) ≤ size
    length-got =
        omega (arith, length-take t.wb.buffer_size t.file.rest, sized.buffer_size, c.size_max)

    pub length-rest : length t.file.rest ≡ length bytes - t.next_seq * size
    length-rest = ap length (reading off).1 ∙ length-drop (t.next_seq * size) bytes

    pub next-eq : u32 (t.next_seq + 1) ≡ suc t.next_seq
    next-eq = omega (arith, fits)

    pub after_held :
        HoldsLast window size bytes (wb_after t (t.next_seq % window) p).panes (suc t.next_seq)
    after_held =
        HoldsLast-set window size bytes c t.wb.panes t.next_seq (fread t.file t.wb.buffer_size) p
          sized.count got-eq-chunk
          (subst (HoldsLast window size bytes t.wb.panes) (reading off).0 held)

    pub before : (k : ℕ) → k < t.next_seq → k * size < length bytes
    before k lt = inside k (omega (arith, (reading off).0)) (λ e. cc)

    pub here : size ≤ length t.file.rest → t.next_seq * size < length bytes
    here full = omega (arith, length-rest, c.size_pos)

    pub upto : size ≤ length t.file.rest → (k : ℕ) → k < suc t.next_seq → k * size < length bytes
    upto full k lt = elim (dec_le (suc k) t.next_seq) [
      | yes h ↦ before k h
      | no h ↦ let e : k ≡ t.next_seq = omega arith in rw e (here full)
    ]

    pub step_rest : drop t.wb.buffer_size t.file.rest ≡ drop (u32 (t.next_seq + 1) * size) bytes
    step_rest =
        let e : suc t.next_seq * size ≡ t.next_seq * size + size = grind arith in
        ap₂ drop sized.buffer_size (reading off).1
        ∙ drop-drop size (t.next_seq * size) bytes
        ∙ rw (next-eq, e)

    -- The next number is still free for a data packet or for the end.
    pub standing : (k : ℕ) → k < t.next_seq → Place k false
    standing = Placed-open Place t.eof_seq off g.placed

    pub next_even : size ≤ length t.file.rest → u32 (t.next_seq + 1) * size ≤ length bytes
    next_even full =
        let e : suc t.next_seq * size ≡ t.next_seq * size + size = grind arith in
        rw (next-eq, e) (omega (arith, length-rest, c.size_pos))

    pub data_place : size ≤ length t.file.rest → Place t.next_seq false
    data_place full = full_data t.next_seq (omega (arith, length-rest, c.size_pos))

    last_place : window ≤ t.next_seq → length t.file.rest < size → Place t.next_seq true
    last_place later short =
        late_end t.next_seq later (g.even off) (omega (arith, length-rest, g.even off))

    pub after_send-Good : window ≤ t.next_seq → Good (after_send ck c t (shorter t) p)
    after_send-Good later = elim (Bool-cases (shorter t)) [
      | inl last ↦
          let lack = ltb→lt _ _ last in
          rw last (record {
            serving = record {
              sized = (read_chunk-eq t (t.next_seq % window) p sized c.size_max at).1;
              framed = g.serving.framed;
              filled = suc t.next_seq;
              held = after_held;
              reach = room;
              fits = fits;
              inside = λ k lt h. before k (h refl);
              reading = λ e. cc;
              ended = λ e. (
                next-eq ∙ omega arith,
                omega (arith, next-eq),
                omega arith,
                omega
                    (arith, length-rest, length-drop (t.next_seq * size) bytes, sized.buffer_size),
              );
            };
            truthful = All-Sent-snoc terms t.next_seq _ t.sent _ next-eq g.truthful (
                ends _ (omega (arith, fits)) (omega (arith, length-got, c.size_max)) refl
                  (omega
                    (arith, length-rest, length-drop (t.next_seq * size) bytes, sized.buffer_size))
                  before (inr got-eq-chunk) (last_place later (omega (arith, sized.buffer_size))));
            grown = omega (arith, next-eq, g.grown);
            acked = g.acked;
            finished = g.finished;
            placed = λ k lt.
                Placed-end Place standing (last_place later (omega (arith, sized.buffer_size))) k
                  (omega (arith, next-eq));
            even = λ e. cc;
          })
      | inr more ↦
          let full = ltb→le _ _ more in
          let enough : size ≤ length t.file.rest = omega (arith, sized.buffer_size) in
          rw more (record {
            serving = record {
              sized = (read_chunk-eq t (t.next_seq % window) p sized c.size_max at).1;
              framed = g.serving.framed;
              filled = suc t.next_seq;
              held = after_held;
              reach = room;
              fits = fits;
              inside = λ k lt h. upto enough k lt;
              reading = λ e. (sym next-eq, step_rest, rw ((reading off).2));
              ended = λ e. cc;
            };
            truthful = All-Sent-snoc terms t.next_seq _ t.sent _ next-eq g.truthful (
                carries _ (omega (arith, fits)) length-got refl (here enough)
                  (ap (λ r. take (length r) (fread t.file t.wb.buffer_size)) (sym got-eq-chunk)
                    ∙ take_all _ (fread t.file t.wb.buffer_size) (le_refl _)
                    ∙ got-eq-chunk)
                  (data_place enough));
            grown = omega (arith, next-eq, g.grown);
            acked = g.acked;
            finished = g.finished;
            placed = λ k lt.
                rw off (Placed-data Place standing (data_place enough) k (omega (arith, next-eq)));
            even = λ e. next_even enough;
          })
    ]

  -- What the functions that send leave alone.
  abbrev pub Same : Transfer → Transfer → Type 0
  Same t u =
      (u.base ≡ t.base)
      × (u.attempts ≡ t.attempts)
      × (u.client ≡ t.client)
      × (u.eof_acked ≡ t.eof_acked)
      × (u.wb.window_size ≡ t.wb.window_size)

  send_next_data-Good :
      (t : Transfer)
      → Good t
      → t.eof_sent ≡ false
      → t.next_seq < t.base + window
      → window ≤ t.next_seq
      → Returns (λ u. Good u × Same t u × (u.next_seq ≡ suc t.next_seq)) (send_next_data ck t)
  send_next_data-Good t g off room later =
      let (p, at, e) = send_next_data-eq ck c t g.serving.sized off (g.serving.reading off).2 in
      rw e (
        after_send-Good t p g off room at later,
        (refl, refl, refl, refl, refl),
        next-eq t p g off room at,
      )

  abbrev limit : Transfer → ℕ
  limit t = u32 (t.base + t.wb.window_size)

  limit-eq : (t : Transfer) → Good t → limit t ≡ t.base + window
  limit-eq t g = rw (g.serving.sized.window_size, mod-eq_of_lt g.serving.fits)

  -- The window is used up, or the file is.
  abbrev pub IsRefilled : Transfer → Type 0
  IsRefilled u = (u.eof_sent ≡ true) ⊎ (u.base + window ≤ u.next_seq)

  pub Same-trans : (t u v : Transfer) → Same t u → Same u v → Same t v
  Same-trans t u v (a, b, d, e, f) (a', b', d', e', f') = (a' ∙ a, b' ∙ b, d' ∙ d, e' ∙ e, f' ∙ f)

  -- The first window has been sent.
  abbrev pub IsLater : Transfer → Type 0
  IsLater u = (u.eof_sent ≡ true) ⊎ (window ≤ u.next_seq)

  pub IsRefilled-IsLater : (u : Transfer) → IsRefilled u → IsLater u
  IsRefilled-IsLater u (inl on) = inl on
  IsRefilled-IsLater u (inr full) = inr (omega arith)

  beyond : (u : Transfer) → IsLater u → u.eof_sent ≡ false → window ≤ u.next_seq
  beyond u (inl on) off = cc
  beyond u (inr later) off = later

  module _ (t : Transfer) where
    abbrev Inv : Transfer → Type 0
    Inv u = Good u × Same t u × IsLater u

    running :
        (u : Transfer)
        → (ltb u.next_seq (limit u) && not u.eof_sent) ≡ true
        → (u.next_seq < limit u) × (u.eof_sent ≡ false)
    running u run = ground arith

    stopped :
        (u : Transfer)
        → Good u
        → (ltb u.next_seq (limit u) && not u.eof_sent) ≡ false
        → IsRefilled u
    stopped u g done = ground (arith, limit-eq u g)

    Same-limit : (u : Transfer) → Same t u → limit u ≡ limit t
    Same-limit u same = ap₂ (λ (a b : ℕ). u32 (a + b)) same.0 same.4

    refill_round-TurnOk :
        (u : Transfer)
        → Inv u
        → Returns
            (TurnOk
              (λ v. limit t - v.next_seq)
              Inv
              (λ v. Good v × Same t v × IsRefilled v)
              (limit t - u.next_seq))
            (refill_round ck u)
    unfolding refill_round
    refill_round-TurnOk u (g, same, later) =
        elim (Bool-cases (ltb u.next_seq (limit u) && not u.eof_sent)) [
          | inl run ↦
              let (below, off) = running u run in
              rw run (
                Returns-bind (λ v. Good v × Same u v × (v.next_seq ≡ suc u.next_seq)) _
                  (send_next_data ck u) (λ v. ok (again v))
                  (send_next_data-Good u g off (omega (arith, limit-eq u g)) (beyond u later off))
                  (λ v k. (
                    (k.0, Same-trans t u v same k.1, inr (omega (arith, k.2, beyond u later off))),
                    omega (arith, k.2, Same-limit u same),
                  )))
          | inr done ↦ rw done (g, same, stopped u g done)
        ]

    -- The loop that refills the window ends, with the window or the file used up.
    pub refill-Good :
        Good t → IsLater t → Returns (λ u. Good u × Same t u × IsRefilled u) (refill ck t)
    unfolding refill
    refill-Good g later =
        loop_total (λ v. limit t - v.next_seq) Inv (λ v. Good v × Same t v × IsRefilled v)
          (refill_round ck) refill_round-TurnOk (suc (limit t - t.next_seq)) t (omega arith)
          (g, (refl, refl, refl, refl, refl), later)
