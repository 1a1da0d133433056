-- ===== src/Rcopy/Receive/Prefix.antt =====
-- What the output of rcopy.c has in common with the file, whatever the size of the file.
use rcopy.Base.{
  ℕ, zero, suc, ◌+◌, ◌-◌, ◌*◌, ◌≤◌, ◌<◌, ◌≡◌, ◌⊎◌, inl, inr, refl, sym, ap, ap₂, subst, ◌∙◌, arith,
  false, Bool-cases, List, [], ◌∷◌, ◌++◌, append-nil, length, take, drop, length-append,
  length-drop, length-take, take_all, take-append, dec_le,
}
use rcopy.Checksum.{Checksum}
use rcopy.Spec.{chunk, chunks_until, length-chunk, chunks_until-append-drop, IsConfig}
use rcopy.Rcopy.Receive.{Receive}
use rcopy.Rcopy.Receive.Receiving.{Peer, Delivered, nothing, next, Receiving}
use rcopy.Rcopy.Receive.Output.{length-Delivered}

-- As far as both go, the output is the file. What is missing is nothing, or all behind the first `n`
-- chunks, and what is too much is less than a chunk.
abbrev pub IsCopy : ℕ → List ℕ → ℕ → List ℕ → Type 0
IsCopy size bytes n output =
    (rest : List ℕ) × (take (length bytes) output ++ rest ≡ bytes)
    × ((rest ≡ []) ⊎ (rest ≡ drop (n * size) bytes))
    × (length output < length bytes + size)

-- Taking goes on behind a front.
take_past :
    (n : ℕ) (xs ys : List ℕ) → length xs ≤ n → take n (xs ++ ys) ≡ xs ++ take (n - length xs) ys
take_past n [] ys h = ap (λ k. take k ys) (omega arith)
take_past zero (x ∷ xs) ys h = absurd (omega arith)
take_past (suc n) (x ∷ xs) ys h =
    ap (λ r. x ∷ r) (take_past n xs ys (omega arith) ∙ ap (λ k. xs ++ take k ys) (omega arith))

-- The first `n` chunks, and behind them nothing or the next one; or the file, with bytes behind its end.
abbrev pub IsWritten : ℕ → List ℕ → ℕ → List ℕ → Type 0
IsWritten size bytes n output =
    ((last : List ℕ) × (output ≡ chunks_until size bytes n ++ last)
      × ((last ≡ []) ⊎ (last ≡ chunk size bytes n)))
    ⊎ ((length bytes < n * size) × (take (length bytes) output ≡ bytes))

module _ {window size : ℕ} (c : IsConfig window size) (bytes : List ℕ) (Chunk : ℕ → Type 0) where
  abbrev IsDelivered : ℕ → List ℕ → Type 0
  IsDelivered n out = Delivered window size bytes Chunk n out

  -- Full chunks are delivered as they are.
  full-IsDelivered :
      (n : ℕ) (out : List ℕ)
      → IsDelivered n out
      → n * size ≤ length bytes
      → out ≡ chunks_until size bytes n
  unfolding chunks_until
  full-IsDelivered n out nothing full = refl
  full-IsDelivered n out (next {n = k} {out = front} d block (len, place, (inside, fronts))) full =
      let e : suc k * size ≡ k * size + size = grind arith in
      let here = length-chunk size bytes k (omega (arith, length-drop (k * size) bytes)) in
      ap₂ ◌++◌ (full-IsDelivered k front d (omega arith))
        (sym (take_all (length (chunk size bytes k)) block (omega arith)) ∙ fronts)

  -- A block that reaches past the end of the file has the last chunk at its front.
  padded-IsDelivered :
      (n : ℕ) (out : List ℕ)
      → IsDelivered n out
      → length bytes < n * size
      → take (length bytes) out ≡ bytes
  padded-IsDelivered n out nothing past = absurd (omega arith)
  padded-IsDelivered n out (next {n = k} {out = front} d block (len, place, (inside, fronts)))
        past =
      let e : suc k * size ≡ k * size + size = grind arith in
      let same = full-IsDelivered k front d (omega arith) in
      let long = length-Delivered c bytes k front d in
      let tail : chunk size bytes k ≡ drop (k * size) bytes =
        take_all size (drop (k * size) bytes) (omega (arith, length-drop (k * size) bytes)) in
      take_past (length bytes) front block (omega arith)
      ∙ ap (λ k. front ++ take k block)
          (omega (arith, ap length tail, length-drop (k * size) bytes))
      ∙ ap₂ ◌++◌ same (fronts ∙ tail)
      ∙ chunks_until-append-drop size bytes k

  -- The chunks before `n` have been written, and the last may have come with the end; or the last of
  -- them is padded.
  delivered-IsWritten :
      (n : ℕ) (out last : List ℕ)
      → IsDelivered n out
      → (last ≡ []) ⊎ (last ≡ chunk size bytes n)
      → IsWritten size bytes n (out ++ last)
  delivered-IsWritten n out last d ending = elim (dec_le (n * size) (length bytes)) [
    | yes full ↦ inl (last, ap (λ l. l ++ last) (full-IsDelivered n out d full), ending)
    | no past ↦ inr (
      omega arith,
      take-append (length bytes) out last (omega (arith, length-Delivered c bytes n out d))
          ∙ padded-IsDelivered n out d (omega arith),
    )
  ]

  -- The last block begins inside the file.
  near_end : (n : ℕ) (out : List ℕ) → IsDelivered n out → length out < length bytes + size
  near_end n out nothing = omega (arith, c.size_pos)
  near_end n out (next {n = k} {out = front} d block (len, place, (inside, fronts))) =
      omega (arith, length-append front block, length-Delivered c bytes k front d)

  -- With what has come with the end, if anything.
  delivered-IsCopy :
      (n : ℕ) (out last : List ℕ)
      → IsDelivered n out
      → (last ≡ []) ⊎ ((length (drop (n * size) bytes) < size) × (last ≡ chunk size bytes n))
      → IsCopy size bytes n (out ++ last)
  delivered-IsCopy n out last d ending = elim (dec_le (n * size) (length bytes)) [
    | yes full ↦
        let same = full-IsDelivered n out d full in
        let long = length-Delivered c bytes n out d in
        elim ending [
          | inl empty ↦ (
            drop (n * size) bytes,
            ap (λ l. take (length bytes) (out ++ l) ++ drop (n * size) bytes) empty
                ∙ ap (λ l. take (length bytes) l ++ drop (n * size) bytes) (append-nil out)
                ∙ ap (λ l. l ++ drop (n * size) bytes)
                    (take_all (length bytes) out (omega arith) ∙ same)
                ∙ chunks_until-append-drop size bytes n,
            inr refl,
            omega (arith, length-append out last, ap length empty, c.size_pos),
          )
          | inr (short, brought) ↦
              let tail : last ≡ drop (n * size) bytes =
                brought ∙ take_all size (drop (n * size) bytes) (omega arith) in
              (
                [],
                append-nil _
                    ∙ take_all (length bytes) (out ++ last) (
                        omega (
                          arith,
                          length-append out last,
                          ap length tail,
                          length-drop (n * size) bytes,
                        ))
                    ∙ ap₂ ◌++◌ same tail
                    ∙ chunks_until-append-drop size bytes n,
                inl refl,
                omega (
                  arith,
                  length-append out last,
                  ap length tail,
                  length-drop (n * size) bytes,
                  c.size_pos,
                ),
              )
        ]
    | no past ↦
        let nothing_past : length last ≡ 0 = elim ending [
          | inl empty ↦ ap length empty
          | inr (short, brought) ↦ omega (
            arith,
            ap length brought,
            length-take size (drop (n * size) bytes),
            length-drop (n * size) bytes,
          )
        ] in
        (
          [],
          append-nil _
              ∙ take-append (length bytes) out last
                  (omega (arith, length-Delivered c bytes n out d))
              ∙ padded-IsDelivered n out d (omega arith),
          inl refl,
          omega (arith, length-append out last, near_end n out d, nothing_past),
        )
  ]

module _ {window size : ℕ} (c : IsConfig window size) (bytes : List ℕ) (ck : Checksum) (peer : Peer)
    (since : ℕ) where
  pub output-IsCopy :
      (s : Receive)
      → Receiving window size bytes ck peer since s
      → IsCopy size bytes s.expected_seq s.output
        × ((s.eof ≡ false) ⊎ (length (drop (s.expected_seq * size) bytes) < size))
  output-IsCopy s r = elim (Bool-cases s.eof) [
    | inr running ↦ (
      subst (λ l. IsCopy size bytes s.expected_seq l) (append-nil s.output)
          (delivered-IsCopy c bytes peer.Chunk s.expected_seq s.output [] (r.written running)
            (inl refl)),
      inl running,
    )
    | inl over ↦
        let (out, last, e, d, (short, ending)) = r.finished over in
        (
          subst (λ l. IsCopy size bytes s.expected_seq l) (sym e)
              (delivered-IsCopy c bytes peer.Chunk s.expected_seq out last d
                (elim ending [ inl empty ↦ inl empty | inr brought ↦ inr (short, brought) ])),
          inr short,
        )
  ]

  pub output-IsWritten :
      (s : Receive)
      → Receiving window size bytes ck peer since s
      → IsWritten size bytes s.expected_seq s.output
  output-IsWritten s r = elim (Bool-cases s.eof) [
    | inr running ↦
        subst (λ l. IsWritten size bytes s.expected_seq l) (append-nil s.output)
          (delivered-IsWritten c bytes peer.Chunk s.expected_seq s.output [] (r.written running)
            (inl refl))
    | inl over ↦
        let (out, last, e, d, (short, ending)) = r.finished over in
        subst (λ l. IsWritten size bytes s.expected_seq l) (sym e)
          (delivered-IsWritten c bytes peer.Chunk s.expected_seq out last d ending)
  ]
