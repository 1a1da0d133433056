-- ===== src/Window/Panes.antt =====
-- windowBuffer.c: a fresh window, and reads and writes of panes that stay inside the block.
use rcopy.Base.{
  ℕ, zero, suc, ◌+◌, ◌-◌, ◌%◌, ◌^◌, ◌≤◌, ◌<◌, ◌≡◌, refl, ap, subst, ◌∙◌, arith, some, List, [], ◌∷◌,
  length, get_elem?, get_elem?_of_lt, get_elem?-set_cases, inl, inr, length-set, overwrite,
  length-overwrite, set, none, u32, ◌⊎◌, Option-cases, ok, stop, exit_failure,
}
use rcopy.Window.{
  Pane, WindowBuffer, Malloc, IsAllocator, max_int_32, reset_panes, init_window, slide_window,
  pane_index, read_pane, write_pane,
}
use native.Mathlib.Nat.{mod-lt}

-- The block has a pane for each place in the window, and each pane room for MAX_BUFFER bytes.
pub record IsSized (window size : ℕ) (wb : WindowBuffer) : Type 0 where
  pub window_size : wb.window_size ≡ window
  pub buffer_size : wb.buffer_size ≡ size
  pub count : length wb.panes ≡ window
  pub room : (i : ℕ) (p : Pane) → get_elem? wb.panes i ≡ some p → length p.content ≡ 1400

pub pane_index-eq :
    (wb : WindowBuffer) (seq : ℕ)
    → 0 < wb.window_size
    → pane_index wb seq ≡ ok (seq % wb.window_size)
unfolding pane_index
pane_index-eq wb seq h = ground arith

module _ {window size : ℕ} {wb : WindowBuffer} (s : IsSized window size wb) (pos : 0 < window) where
  -- The pane of a sequence number is there.
  pub pane_of :
      (seq : ℕ)
      → (p : Pane) × (get_elem? wb.panes (seq % window) ≡ some p) × (length p.content ≡ 1400)
  pane_of seq =
      let (p, at) = get_elem?_of_lt wb.panes (seq % window) (rw s.count (mod-lt seq pos)) in
      (p, at, s.room (seq % window) p at)

  pub index_of : (seq : ℕ) → pane_index wb seq ≡ ok (seq % window)
  index_of seq = pane_index-eq wb seq (rw s.window_size pos) ∙ ap (λ w. ok (seq % w)) s.window_size

pub read_pane-eq :
    (wb : WindowBuffer) (i : ℕ) (p : Pane) → get_elem? wb.panes i ≡ some p → read_pane wb i ≡ ok p
unfolding read_pane
read_pane-eq wb i p at = rw at

pub write_pane-eq :
    (wb : WindowBuffer) (i seq : ℕ) (bytes : List ℕ) (p : Pane)
    → get_elem? wb.panes i ≡ some p
    → length bytes ≤ 1400
    → write_pane wb i seq bytes
      ≡ ok (record wb {
        panes = set wb.panes i (record { seq_num = seq; content = overwrite bytes p.content });
      })
unfolding write_pane
write_pane-eq wb i seq bytes p at len = ground arith

-- A write of at most MAX_BUFFER bytes keeps the sizes.
pub IsSized-set :
    {window size : ℕ} {wb : WindowBuffer} (i seq : ℕ) (bytes : List ℕ) (p : Pane)
    → IsSized window size wb
    → get_elem? wb.panes i ≡ some p
    → length bytes ≤ 1400
    → IsSized window size (record wb {
      panes = set wb.panes i (record { seq_num = seq; content = overwrite bytes p.content });
    })
IsSized-set {wb} i seq bytes p s at len = record {
  window_size = s.window_size;
  buffer_size = s.buffer_size;
  count = length-set wb.panes i _ ∙ s.count;
  room = λ j q e. elim (get_elem?-set_cases wb.panes i j _ e) [
    | inl (same, new) ↦
        rw new (length-overwrite bytes p.content (rw (s.room i p at) len) ∙ s.room i p at)
    | inr old ↦ s.room j q old
  ];
}

pub IsSized-slide :
    {window size : ℕ} {wb : WindowBuffer} (n : ℕ)
    → IsSized window size wb
    → IsSized window size (slide_window wb n)
unfolding slide_window
IsSized-slide n s = record {
  window_size = s.window_size;
  buffer_size = s.buffer_size;
  count = s.count;
  room = s.room;
}

-- The edges of the window, for a base and a number of panes: its first number and its last.
abbrev pub IsFramed : ℕ → ℕ → WindowBuffer → Type 0
IsFramed window base wb = (wb.lower ≡ base) × (wb.upper ≡ base + window - 1)

pub slide_window-IsFramed :
    (window base to : ℕ) (wb : WindowBuffer)
    → base ≤ to
    → to + window < 2 ^ 32
    → 0 < window
    → IsFramed window base wb
    → IsFramed window to (slide_window wb (to - base))
unfolding slide_window
slide_window-IsFramed window base to wb up fits pos (low, high) =
    (omega (arith, low), omega (arith, high))

abbrev fresh : ℕ → ℕ → List Pane → WindowBuffer
fresh window size block = record {
  panes = reset_panes block;
  window_size = window;
  buffer_size = size;
  lower = 0;
  curr_index = 0;
  upper = u32 (window + 2 ^ 32 - 1);
}

fresh-IsFramed :
    (window size : ℕ) (block : List Pane)
    → 0 < window
    → window < 2 ^ 31
    → IsFramed window 0 (fresh window size block)
fresh-IsFramed window size block pos small = (refl, omega arith)

pub init_window-IsFramed :
    (malloc : Malloc) (window size : ℕ) (wb : WindowBuffer)
    → 0 < window
    → window < 2 ^ 31
    → init_window malloc window size ≡ ok wb
    → IsFramed window 0 wb
unfolding init_window
init_window-IsFramed malloc window size wb pos small made = elim (Option-cases (malloc window)) [
  | inl e ↦ let failed : init_window malloc window size ≡ stop exit_failure = rw e refl in absurd cc
  | inr (ps, e) ↦
      let given : init_window malloc window size ≡ ok (fresh window size ps) = rw e refl in
      let same : fresh window size ps ≡ wb = cc in
      subst (λ v. IsFramed window 0 v) same (fresh-IsFramed window size ps pos small)
]

length-reset_panes : (ps : List Pane) → length (reset_panes ps) ≡ length ps
unfolding reset_panes
length-reset_panes [] = refl
length-reset_panes (p ∷ ps) = omega (arith, length-reset_panes ps)

get_elem?-reset_panes :
    (ps : List Pane) (i : ℕ) (p : Pane)
    → get_elem? (reset_panes ps) i ≡ some p
    → (q : Pane) × (get_elem? ps i ≡ some q) × (p ≡ record q { seq_num = max_int_32 })
unfolding reset_panes
get_elem?-reset_panes [] i p e = cc
get_elem?-reset_panes (q ∷ ps) zero p e = (q, refl, cc)
get_elem?-reset_panes (q ∷ ps) (suc i) p e = get_elem?-reset_panes ps i p e

-- Before anything is received no pane holds a packet: each has the number MAX_INT_32.
abbrev pub IsBlank : WindowBuffer → Type 0
IsBlank wb = (i : ℕ) (p : Pane) → get_elem? wb.panes i ≡ some p → p.seq_num ≡ max_int_32

-- `init_window` gives a window of the sizes asked for, or ends the program if there is no memory.
pub init_window_lem :
    (malloc : Malloc) (window size : ℕ)
    → IsAllocator malloc
    → ((malloc window ≡ none) × (init_window malloc window size ≡ stop exit_failure))
      ⊎ ((wb : WindowBuffer) × (init_window malloc window size ≡ ok wb)
          × IsSized window size wb
          × IsBlank wb)
unfolding init_window
init_window_lem malloc window size a = elim (Option-cases (malloc window)) [
  | inl e ↦ inl (e, rw e)
  | inr (ps, e) ↦ inr (
    record {
      panes = reset_panes ps;
      window_size = window;
      buffer_size = size;
      lower = 0;
      curr_index = 0;
      upper = u32 (window + 2 ^ 32 - 1);
    },
    rw e,
    record {
      window_size = refl;
      buffer_size = refl;
      count = length-reset_panes ps ∙ a.panes_given window ps e;
      room = λ i p at.
          let (q, there, same) = get_elem?-reset_panes ps i p at in
          rw same (a.room_given window ps i q e there);
    },
    λ i p at. let (q, there, same) = get_elem?-reset_panes ps i p at in rw same,
  )
]
