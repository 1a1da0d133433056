-- ===== src/Rcopy/Receive/Output.antt =====
-- What the output file of rcopy.c amounts to.
use rcopy.Base.{
  ℕ, suc, ◌+◌, ◌*◌, ◌≤◌, ◌<◌, ◌≡◌, refl, sym, ap, ap₂, ◌∙◌, arith, inl, inr, List, [], ◌++◌, length,
  drop, length-append, length-drop, length-take, take_all, true, false, Bool-cases, ◌⊎◌, dec_le,
}
use rcopy.Checksum.{Checksum}
use rcopy.Spec.{chunk, chunks_until, length-chunk, chunks_until-append-drop, IsConfig}
use rcopy.Spec.Whole.{nil_of_length, lt_of_mul, full_chunk}
use rcopy.Rcopy.Receive.{Receive}
use rcopy.Rcopy.Receive.Receiving.{Peer, Delivered, nothing, next, Receiving, IsLast}

module _ {window size : ℕ} (c : IsConfig window size) (bytes : List ℕ) where
  -- Each packet delivered has added a block of full size.
  pub length-Delivered :
      {Chunk : ℕ → Type 0} (n : ℕ) (out : List ℕ)
      → Delivered window size bytes Chunk n out
      → length out ≡ n * size
  length-Delivered n out nothing = omega arith
  length-Delivered n out (next {n = k} {out = front} d block b) =
      let e : suc k * size ≡ k * size + size = grind arith in
      omega (arith, length-append front block, length-Delivered k front d, b.0)

  -- The size of the output says nothing of the size of the last chunk, unless that came with the end.
  pub length-output :
      (ck : Checksum) (peer : Peer) (since : ℕ) (s : Receive)
      → Receiving window size bytes ck peer since s
      → ((s.eof ≡ false) × (length s.output ≡ s.expected_seq * size))
        ⊎ ((s.eof ≡ true)
            × (length (drop (s.expected_seq * size) bytes) < size)
            × (s.expected_seq * size ≤ length s.output)
            × (length s.output < s.expected_seq * size + size))
  length-output ck peer since s r = elim (Bool-cases s.eof) [
    | inr running ↦ inl (running, length-Delivered s.expected_seq s.output (r.written running))
    | inl over ↦
        let (out, last, e, d, (short, ending)) = r.finished over in
        let front = length-Delivered s.expected_seq out d in
        let both = ap length e ∙ length-append out last in
        let small : length last < size = elim ending [
          | inl empty ↦ omega (arith, ap length empty)
          | inr chunk_last ↦
              omega
                (arith, ap length chunk_last, length-take size (drop (s.expected_seq * size) bytes))
        ] in
        inr (over, short, omega arith, omega arith)
  ]

  -- Data has come for the numbers before the one expected only.
  Delivered-Chunk :
      {Chunk : ℕ → Type 0} (top n : ℕ) (out : List ℕ)
      → ((k : ℕ) → Chunk k → k < top)
      → Delivered window size bytes Chunk n out
      → n ≤ top
  Delivered-Chunk top n out upto nothing = omega arith
  Delivered-Chunk top n out upto (next {n = k} d block b) = upto k b.1

  -- The client never expects a packet past the one that ends the file.
  pub expected_le :
      (ck : Checksum) (peer : Peer) (since top : ℕ) (s : Receive)
      → ((k : ℕ) → peer.Chunk k → k < top)
      → Receiving window size bytes ck peer since s
      → s.expected_seq ≤ top
  expected_le ck peer since top s upto r = elim (Bool-cases s.eof) [
    | inl over ↦
        let (out, last, e, d, ending) = r.finished over in
        Delivered-Chunk top s.expected_seq out upto d
    | inr running ↦ Delivered-Chunk top s.expected_seq s.output upto (r.written running)
  ]

  module _ (count : ℕ) (whole : length bytes ≡ count * size) where
    -- Of a file of whole chunks, exactly the first of them have been written.
    Delivered-exact :
        {Chunk : ℕ → Type 0} (n : ℕ) (out : List ℕ)
        → Delivered window size bytes Chunk n out
        → (n ≤ count) × (out ≡ chunks_until size bytes n)
    unfolding chunks_until
    Delivered-exact n out nothing = (omega arith, refl)
    Delivered-exact n out (next {n = k} {out = front} d block (len, place, (inside, fronts))) =
        let (le, same) = Delivered-exact k front d in
        let lt = lt_of_mul size k count (omega arith) in
        let whole_chunk = length-chunk size bytes k (full_chunk size bytes count whole k lt) in
        (
          lt,
          ap₂ ◌++◌ same (sym (take_all (length (chunk size bytes k)) block (omega arith)) ∙ fronts),
        )

    -- The packet that ends the file stands where the file ends, and brings nothing.
    at_end :
        (n : ℕ) (last : List ℕ)
        → n ≤ count
        → IsLast window size bytes n last
        → (drop (n * size) bytes ≡ []) × (last ≡ [])
    at_end n last le (short, ending) = elim (dec_le (suc n) count) [
      | yes lt ↦ absurd (omega (arith, full_chunk size bytes count whole n lt))
      | no ge ↦
          let same : n ≡ count = omega arith in
          let gone : drop (n * size) bytes ≡ [] =
            nil_of_length _
              (omega (arith, length-drop (n * size) bytes, ap (λ (k : ℕ). k * size) same)) in
          (
            gone,
            elim ending [
              | inl e ↦ e
              | inr e ↦
                  e
                  ∙ nil_of_length _
                      (omega (arith, length-take size (drop (n * size) bytes), ap length gone))
            ],
          )
    ]

    -- Of a file of whole chunks the output is always the front, and all of it once the client has
    -- taken the end.
    pub output_correct :
        (ck : Checksum) (peer : Peer) (since : ℕ) (s : Receive)
        → Receiving window size bytes ck peer since s
        → ((s.eof ≡ true) × (s.output ≡ bytes))
          ⊎ ((s.eof ≡ false) × (s.output ++ drop (s.expected_seq * size) bytes ≡ bytes))
    output_correct ck peer since s r = elim (Bool-cases s.eof) [
      | inl over ↦
          let (out, last, e, d, ending) = r.finished over in
          let (le, same) = Delivered-exact s.expected_seq out d in
          let (gone, empty) = at_end s.expected_seq last le ending in
          inl (
            over,
            e
                ∙ ap₂ ◌++◌ same (empty ∙ sym gone)
                ∙ chunks_until-append-drop size bytes s.expected_seq,
          )
      | inr running ↦ inr (
        running,
        ap (λ l. l ++ drop (s.expected_seq * size) bytes)
              (Delivered-exact s.expected_seq s.output (r.written running)).1
            ∙ chunks_until-append-drop size bytes s.expected_seq,
      )
    ]
