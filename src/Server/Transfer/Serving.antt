-- ===== src/Server/Transfer/Serving.antt =====
-- The invariant of `transferData`: which chunks the panes hold, and where the file stands.
use rcopy.Base.{
  ℕ, suc, ◌+◌, ◌-◌, ◌*◌, ◌%◌, ◌^◌, ◌≤◌, ◌<◌, ◌≡◌, sym, ◌∙◌, arith, Bool, true, false, some, List,
  length, take, drop, get_elem?, set, overwrite, get_elem?-set_self, get_elem?-set_ne,
  take-append_length, dec_le,
}
use rcopy.Base.Index.{mod-ne}
use rcopy.Spec.{chunk, IsConfig}
use rcopy.Wire.{Datagram}
use rcopy.Window.{Pane, slide_window}
use rcopy.Window.Panes.{IsSized, IsFramed, slide_window-IsFramed, IsSized-slide}
use rcopy.Server.Transfer.{Transfer}
use native.Mathlib.Nat.{mod-lt}

module _ (window size : ℕ) (bytes : List ℕ) where
  -- Chunk `k` stands at the front of the pane of `k`.
  abbrev pub Holds : List Pane → ℕ → Type 0
  Holds panes k =
      (p : Pane) × (get_elem? panes (k % window) ≡ some p)
      × (take (length (chunk size bytes k)) p.content ≡ chunk size bytes k)

  -- So does each of the last `window` chunks before `filled`.
  abbrev pub HoldsLast : List Pane → ℕ → Type 0
  HoldsLast panes filled = (k : ℕ) → k < filled → filled ≤ k + window → Holds panes k

  -- `filled` chunks have been read into the panes; the last may go with the packet that ends the
  -- file.
  pub record Serving (t : Transfer) : Type 0 where
    pub sized : IsSized window size t.wb
    pub framed : IsFramed window t.base t.wb
    pub filled : ℕ
    pub held : HoldsLast t.wb.panes filled
    pub reach : filled ≤ t.base + window
    pub fits : t.base + window < 2 ^ 32
    pub inside :
        (k : ℕ) → k < filled → (t.eof_sent ≡ true → k < t.eof_seq) → k * size < length bytes
    pub reading :
        t.eof_sent ≡ false
        → (filled ≡ t.next_seq)
          × (t.file.rest ≡ drop (t.next_seq * size) bytes)
          × (t.file.eof ≡ false)
    pub ended :
        t.eof_sent ≡ true
        → (t.next_seq ≡ t.eof_seq + 1)
          × (filled ≤ t.next_seq)
          × (t.eof_seq ≤ filled)
          × (length (drop (t.eof_seq * size) bytes) < size)

  -- A chunk written into its pane leaves the others of the window in place.
  pub HoldsLast-set :
      IsConfig window size
      → (panes : List Pane) (next : ℕ) (got : List ℕ) (p : Pane) → length panes ≡ window
      → got ≡ chunk size bytes next
      → HoldsLast panes next
      → HoldsLast
          (set panes (next % window) (record { seq_num = next; content = overwrite got p.content }))
          (suc next)
  HoldsLast-set c panes next got p len e held k lt near = elim (dec_le (suc k) next) [
    | yes before ↦
        let (q, at, front) = held k before (omega arith) in
        (
          q,
          get_elem?-set_ne panes _ (λ h. mod-ne window k next before (omega arith) (sym h)) ∙ at,
          front,
        )
    | no last ↦
        let now : k ≡ next = omega arith in
        rw now (
          record { seq_num = next; content = overwrite got p.content },
          get_elem?-set_self panes _ _ (rw len (mod-lt next c.window_pos)),
          rw (← e) (take-append_length got (drop (length got) p.content)),
        )
  ]

  -- The invariant says nothing of the peer, the attempts, the acknowledgement and the packets sent.
  pub Serving-with :
      (t : Transfer) (client attempts : ℕ) (acked : Bool) (sent : List Datagram)
      → Serving t
      → Serving (record t { client = client; attempts = attempts; eof_acked = acked; sent = sent })
  Serving-with t client attempts acked sent s = record {
    sized = s.sized;
    framed = s.framed;
    filled = s.filled;
    held = s.held;
    reach = s.reach;
    fits = s.fits;
    inside = s.inside;
    reading = s.reading;
    ended = s.ended;
  }

  -- The window moves up to an acknowledged number.
  pub Serving-slide :
      (t : Transfer) (to : ℕ)
      → Serving t
      → 0 < window
      → t.base < to
      → to + window < 2 ^ 32
      → Serving (record t { wb = slide_window t.wb (to - t.base); base = to })
  unfolding slide_window
  Serving-slide t to s pos up fits = record {
    sized = unfold slide_window in IsSized-slide (to - t.base) s.sized;
    framed = slide_window-IsFramed window t.base to t.wb (omega arith) fits pos s.framed;
    filled = s.filled;
    held = s.held;
    reach = omega (arith, s.reach);
    fits = fits;
    inside = s.inside;
    reading = s.reading;
    ended = s.ended;
  }
