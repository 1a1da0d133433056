-- ===== src/Server/Transfer/Start.antt =====
-- `transferData` from its start: the first window, and then the main loop.
use rcopy.Base.{
  ℕ, suc, ◌-◌, ◌*◌, ◌≤◌, ◌<◌, ◌≡◌, refl, arith, false, ◌&&◌, not, none, some, get_elem?,
  get_elem?_of_lt, inl, inr, ◌⊎◌, List, [], length, ltb, ok, stop, exit_failure, Returns,
  Returns-eq, dec_le, dec_lt,
}
use rcopy.Base.Loop.{loop_total, TurnOk}
use rcopy.Checksum.{Checksum}
use rcopy.Net.{Event, File}
use rcopy.Spec.{IsConfig}
use rcopy.Window.{Pane, Malloc, IsAllocator, WindowBuffer, init_window}
use rcopy.Window.Panes.{IsSized, IsFramed, init_window-IsFramed, init_window_lem}
use rcopy.Wire.{Address}
use rcopy.Server.Transfer.{Transfer, initial_round, initial_window, transfer_loop, transfer_data}
use rcopy.Server.Transfer.Terms.{Terms}
use rcopy.Server.Transfer.Refill.{Good, IsRefilled}
use rcopy.Server.Transfer.Initial.{
  round_full, round_short, round_empty, data_sent-Good, ended-data_sent-Good, ended-read-Good,
  next_now,
}
use rcopy.Server.Transfer.Round as Round
use rcopy.Server.Transfer.Round.{FairRun, transfer_loop-Good}

-- The state in which `transferData` comes to its first loop.
abbrev pub starting : List ℕ → WindowBuffer → Address → ℕ → Transfer
starting bytes wb client attempts = record {
  client = client;
  attempts = attempts;
  wb = wb;
  file = record { rest = bytes; eof = false };
  next_seq = 0;
  base = 0;
  eof_seq = 0;
  eof_sent = false;
  eof_acked = false;
  sent = [];
}

module _ (ck : Checksum) {window size : ℕ} (c : IsConfig window size) (bytes : List ℕ)
    (terms : Terms ck window size bytes) where
  abbrev pub IsGood : Transfer → Type 0
  IsGood = Good ck c bytes terms

  -- While the first window is being filled.
  abbrev Filling : Transfer → Type 0
  Filling t = IsGood t × (t.base ≡ 0) × (t.eof_sent ≡ false) × (t.next_seq ≤ window)

  abbrev pub Filled : Transfer → Type 0
  Filled t = IsGood t × (t.base ≡ 0) × IsRefilled ck c bytes terms t

  Filling-step :
      (t : Transfer)
      → IsGood t
      → t.base ≡ 0
      → t.eof_sent ≡ false
      → t.next_seq < window
      → (p : Pane) → get_elem? t.wb.panes t.next_seq ≡ some p
      → Returns
          (TurnOk (λ u. window - u.next_seq) Filling Filled (window - t.next_seq))
          (initial_round ck t)
  Filling-step t g start off below p at = elim (dec_le size (length t.file.rest)) [
    | yes full ↦
        let now = next_now ck c bytes terms t p g off start below at in
        rw (round_full ck c bytes terms t p g off start below at full) (
          (
            data_sent-Good ck c bytes terms t p g off start below at full,
            start,
            off,
            omega (arith, now),
          ),
          omega (arith, now),
        )
    | no short ↦ elim (dec_lt 0 (length t.file.rest)) [
      | yes more ↦ rw (round_short ck c bytes terms t p g off start below at more (omega arith)) (
        ended-data_sent-Good ck c bytes terms t p g off start below at more (omega arith),
        start,
        inl refl,
      )
      | no none_left ↦
          rw (round_empty ck c bytes terms t p g off start below at (omega arith)) (
            ended-read-Good ck c bytes terms t p g off start below at (omega arith),
            start,
            inl refl,
          )
    ]
  ]

  initial_round-TurnOk :
      (t : Transfer)
      → Filling t
      → Returns
          (TurnOk (λ u. window - u.next_seq) Filling Filled (window - t.next_seq))
          (initial_round ck t)
  unfolding initial_round
  initial_round-TurnOk t (g, start, off, upto) = elim (dec_lt t.next_seq window) [
    | yes below ↦
        let (p, at) = get_elem?_of_lt t.wb.panes t.next_seq (rw g.serving.sized.count below) in
        Filling-step t g start off below p at
    | no full ↦
        let e : (ltb t.next_seq t.wb.window_size && not t.file.eof) ≡ false =
          ground (arith, g.serving.sized.window_size) in
        rw e (g, start, inr (omega arith))
  ]

  -- The window is set up and filled: the loop ends, with the window or the file used up.
  pub initial_window-Good : (t : Transfer) → Filling t → Returns Filled (initial_window ck t)
  unfolding initial_window
  initial_window-Good t f =
      loop_total (λ u. window - u.next_seq) Filling Filled (initial_round ck) initial_round-TurnOk
        (suc t.wb.window_size) t (omega (arith, f.0.serving.sized.window_size)) f

  pub starting-Filling :
      (wb : WindowBuffer) (client attempts : ℕ)
      → IsSized window size wb
      → IsFramed window 0 wb
      → terms.since ≤ 0
      → terms.Acked 0
      → Filling (starting bytes wb client attempts)
  starting-Filling wb client attempts s f z first = (
    record {
      serving = record {
        sized = s;
        framed = f;
        filled = 0;
        held = λ k lt near. elim lt [ ];
        reach = omega arith;
        fits = omega (arith, c.window_max);
        inside = λ k lt h. elim lt [ ];
        reading = λ e. (refl, let z : 0 * size ≡ 0 = omega arith in rw z, refl);
        ended = λ e. cc;
      };
      truthful = tt;
      grown = z;
      acked = first;
      finished = λ e. cc;
      placed = λ k lt. elim lt [ ];
      even = λ e. let z : 0 * size ≡ 0 = omega arith in rw z (omega arith);
    },
    refl,
    refl,
    omega arith,
  )

  -- A whole transfer over fair events: the program ends for want of memory, or it runs without a
  -- fault, ends each of its loops, and keeps the invariant.
  pub transfer_data-Good :
      (malloc : Malloc) (client attempts : ℕ) (events : List Event)
      → IsAllocator malloc
      → terms.since ≤ 0
      → terms.Acked 0
      → ((wb : WindowBuffer) (t : Transfer)
          → init_window malloc window size ≡ ok wb
          → initial_window ck (starting bytes wb client attempts) ≡ ok t
          → FairRun ck c bytes terms events t)
      → let file : File = record { rest = bytes; eof = false } in
        let run = transfer_data ck malloc (some file) client attempts window size events in
        ((malloc window ≡ none) × (run ≡ stop exit_failure))
        ⊎ ((u : Transfer) × (run ≡ ok (some u)) × IsGood u)
  unfolding transfer_data
  transfer_data-Good malloc client attempts events a z first fair =
      elim (init_window_lem malloc window size a) [
        | inl (e, no_memory) ↦ inl (e, rw no_memory)
        | inr (wb, e, s, blank) ↦
            let start = starting bytes wb client attempts in
            let (t, et, ft) = Returns-eq Filled (initial_window ck start) (
              initial_window-Good start (
                starting-Filling wb client attempts s
                  (init_window-IsFramed malloc window size wb c.window_pos c.window_max e) z
                  first)) in
            let (u, eu, gu) =
              Returns-eq (Round.IsGood ck c bytes terms) (transfer_loop ck events t)
                (transfer_loop-Good ck c bytes terms events t (ft.0, ft.2) (fair wb t e et)) in
            inr (u, rw (e, et, eu), gu.0)
      ]
