-- ===== src/Protocol/Agree.antt =====
-- What the child and the client know of each other, as the terms of the transfer and of the reception.
use rcopy.Base.{
  All-map, ℕ, ◌+◌, ◌^◌, ◌≤◌, ◌<◌, ◌≡◌, ◌⊎◌, inl, inr, arith, Bool, true, false, List, subst, ◌&&◌,
  ◌==◌,
}
use rcopy.Checksum.{Checksum}
use rcopy.Spec.{IsConfig}
use rcopy.Spec.Last.{EndsAt, early_data, full_data, early_end, late_end}
use rcopy.Wire.{Datagram}
use rcopy.Server.Transfer.{Transfer}
use rcopy.Server.Transfer.Packets.{Honest}
use rcopy.Server.Transfer.Terms.{Terms, Places, Labelled}
use rcopy.Server.Transfer.Refill.{Good}
use rcopy.Rcopy.Receive.{Receive}
use rcopy.Rcopy.Receive.Receiving.{Peer, Reply, rr, srej, done, Receiving}
use rcopy.Protocol.{System}

-- Data has the numbers before the one at which the file ends.
abbrev pub PlaceAt : ℕ → ℕ → Bool → Type 0
PlaceAt top k true = k ≡ top
PlaceAt top k false = k < top

-- The client asks only for packets before `next`, which the child has sent.
abbrev pub child_at : ℕ → ℕ → Peer
child_at top next = record { Asked = λ k. k < next; Chunk = λ k. k < top; End = λ k. k ≡ top }

module _ (ck : Checksum) {window size : ℕ} (c : IsConfig window size) (bytes : List ℕ) (top : ℕ)
    (at : EndsAt window size bytes top) where
  abbrev ends_at : Places window size bytes
  ends_at = record {
    Place = PlaceAt top;
    early_data = early_data at;
    full_data = full_data at;
    early_end = early_end at;
    late_end = late_end at;
  }

  -- A packet of a number before `n`. It is honest, or it is a data packet of whatever content for a
  -- chunk that the client has.
  abbrev pub SentFor : ℕ → ℕ → Datagram → Type 0
  SentFor expected n d =
      (k : ℕ) × (k < n)
      × (Honest ck (PlaceAt top) size bytes k d ⊎ ((k < expected) × Labelled ck k false d))

  -- The terms of the transfer while the client expects `expected` and has, or has not, taken the end.
  abbrev pub serving_terms : ℕ → ℕ → ℕ → Bool → Terms ck window size bytes
  serving_terms since from expected eof = record {
    places = ends_at;
    Sent = SentFor expected;
    since = since;
    Acked = λ k. (k ≤ expected) × (k + window < 2 ^ 32) × (from ≤ k);
    Finished = eof ≡ true;
    tells = λ n k d lt h. (k, lt, inl h);
    grows = λ n d (k, lt, h). (k, omega arith, h);
    acked_fits = λ k h. h.1;
  }

  abbrev pub IsServing : ℕ → ℕ → ℕ → Bool → Transfer → Type 0
  IsServing since from expected eof t = Good ck c bytes (serving_terms since from expected eof) t

  abbrev pub IsHearing : ℕ → ℕ → Receive → Type 0
  IsHearing next since s = Receiving window size bytes ck (child_at top next) since s

  pub IsServing-mono :
      (since since' from from' expected expected' : ℕ) (eof eof' : Bool) (t : Transfer)
      → IsServing since from expected eof t
      → since' ≤ t.next_seq
      → from' ≤ t.base
      → expected ≤ expected'
      → (eof ≡ true → eof' ≡ true)
      → IsServing since' from' expected' eof' t
  IsServing-mono since since' from from' expected expected' eof eof' t g fresh low le over =
      record {
        serving = g.serving;
        truthful =
            All-map (SentFor expected t.next_seq) (SentFor expected' t.next_seq) later t.sent
              g.truthful;
        grown = fresh;
        acked = (omega (arith, g.acked.0), g.acked.1, low);
        finished = λ acked. over (g.finished acked);
        placed = g.placed;
        even = g.even;
      }
    where
      later : (d : Datagram) → SentFor expected t.next_seq d → SentFor expected' t.next_seq d
      later d (k, lt, inl honest) = (k, lt, inl honest)
      later d (k, lt, inr (old, label)) = (k, lt, inr (omega arith, label))

  -- The end has been sent where the file ends.
  pub IsServing-end :
      (since from expected : ℕ) (eof : Bool) (t : Transfer)
      → IsServing since from expected eof t
      → t.eof_sent ≡ true
      → t.eof_seq ≡ top
  IsServing-end since from expected eof t g on =
      let flag : (t.eof_sent && (t.eof_seq == t.eof_seq)) ≡ true = ground arith in
      subst (λ b. PlaceAt top t.eof_seq b) flag
        (g.placed t.eof_seq (omega (arith, g.serving.ended on)))

  pub IsHearing-mono :
      (next next' since since' : ℕ) (s : Receive)
      → IsHearing next since s
      → since' ≤ s.expected_seq
      → next ≤ next'
      → IsHearing next' since' s
  IsHearing-mono next next' since since' s r from le = record {
    sized = r.sized;
    grown = from;
    same_window = r.same_window;
    stored = r.stored;
    gap = r.gap;
    written = r.written;
    finished = r.finished;
    ended = r.ended;
    told = r.told;
    replies =
        All-map (Reply ck (λ k. k < next) s.eof s.expected_seq)
          (Reply ck (λ k. k < next') s.eof s.expected_seq) later s.sent r.replies;
  }
    where
      later :
          (d : Datagram)
          → Reply ck (λ k. k < next) s.eof s.expected_seq d
          → Reply ck (λ k. k < next') s.eof s.expected_seq d
      later d (rr k h e) = rr k h e
      later d (srej k h asked e) = srej k h (omega arith) e
      later d (done ended e) = done ended e

  pub record Agree (s : System) : Type 0 where
    pub serving : IsServing 0 0 s.client.expected_seq s.client.eof s.child
    pub hearing : IsHearing s.child.next_seq 0 s.client
    pub refilled : (s.child.eof_sent ≡ true) ⊎ (s.child.base + window ≤ s.child.next_seq)
