-- ===== src/Server/Transfer/Reference.antt =====
-- What `transferData` sends for a file of whole chunks, packet by packet, to the byte.
use rcopy.Base.{
  All, All-map, ℕ, ◌*◌, ◌≤◌, ◌≡◌, ◌⊎◌, inl, inr, sym, ap, ◌∙◌, arith, true, false, none, some, List,
  [], length, take, drop, take_all, ltb, lt→ltb, if◌then◌else◌, dec_le, ok, stop, exit_failure,
}
use rcopy.Checksum.{Checksum}
use rcopy.Net.{Event, File}
use rcopy.Spec.{chunk, IsConfig, length-chunk}
use rcopy.Spec.Whole.{lt_of_mul, full_chunk, past_end, nothing_left}
use rcopy.Window.{Malloc, IsAllocator, WindowBuffer, init_window}
use rcopy.Wire.{Address, Datagram}
use rcopy.Server.Transfer.{Transfer, initial_window, transfer_data}
use rcopy.Server.Transfer.Packets.{Honest, carries, ends, data_packet}
use rcopy.Server.Transfer.Round.{FairRun}
use rcopy.Server.Transfer.Start.{starting}
use rcopy.Server.Transfer.Correct.{strict, transfer-Truthful}

-- The packets of a file: one for each chunk, and an empty one for the number at which the file ends.
unfoldable pub reference : Checksum → ℕ → List ℕ → Address → ℕ → Datagram
reference ck size bytes to k =
    if ltb (k * size) (length bytes)
    then data_packet ck to k false (chunk size bytes k)
    else data_packet ck to k true []

take_nil : (n : ℕ) (xs : List ℕ) → xs ≡ [] → take n xs ≡ []
take_nil n xs e = take_all n xs (omega (arith, ap length e)) ∙ e

module _ (ck : Checksum) {window size : ℕ} (c : IsConfig window size) (bytes : List ℕ) (count : ℕ)
    (whole : length bytes ≡ count * size) where
  abbrev pub IsReference : Datagram → Type 0
  IsReference d = (k : ℕ) × (k ≤ count) × (d ≡ reference ck size bytes d.dest k)

  Honest-IsReference :
      (d : Datagram) (k : ℕ) → Honest ck (λ n b. Unit) size bytes k d → IsReference d
  unfolding reference
  Honest-IsReference d k (carries body bound len e inside front place) =
      let lt = lt_of_mul size k count (omega arith) in
      let full : length (chunk size bytes k) ≡ size =
        length-chunk size bytes k (full_chunk size bytes count whole k lt) in
      let same : body ≡ chunk size bytes k =
        sym (take_all (length (chunk size bytes k)) body (omega arith)) ∙ front in
      (k, omega arith, rw (lt→ltb _ _ inside) (e ∙ ap (λ b. data_packet ck d.dest k false b) same))
  Honest-IsReference d k (ends body bound len e short before ending place) =
      let low = past_end size bytes count whole k short in
      let here : k ≡ count = elim (dec_le k count) [
        | yes le ↦ omega arith
        | no gt ↦ absurd (omega (arith, before count (omega arith)))
      ] in
      let over : ltb (k * size) (length bytes) ≡ false =
        ground (arith, ap (λ (n : ℕ). n * size) here) in
      let gone : drop (k * size) bytes ≡ [] =
        ap (λ (n : ℕ). drop (n * size) bytes) here ∙ nothing_left size bytes count whole in
      let empty : body ≡ [] = elim ending [ inl e ↦ e | inr e ↦ e ∙ take_nil size _ gone ] in
      (k, omega arith, rw over (e ∙ ap (λ b. data_packet ck d.dest k true b) empty))

-- For a file of `count` full chunks, window and buffer sizes in range, an allocator that gives what
-- it is asked for, and events whose intact packets have a full header, whose RRs that move the
-- window keep it inside 32 bits and whose SREJs ask for a packet of the window: `transferData` ends
-- the program for want of memory, or returns, and every packet that it has sent, the first time or
-- again, is to the byte a packet of the reference: that of a chunk, or the empty one of the number
-- `count`.
pub sends-IsReference :
    (ck : Checksum) {window size : ℕ} (c : IsConfig window size) (bytes : List ℕ) (count : ℕ)
    → (whole : length bytes ≡ count * size)
    → (malloc : Malloc) (client attempts : ℕ) (events : List Event) → IsAllocator malloc
    → ((wb : WindowBuffer) (t : Transfer)
        → init_window malloc window size ≡ ok wb
        → initial_window ck (starting bytes wb client attempts) ≡ ok t
        → FairRun ck c bytes (strict ck c bytes) events t)
    → let file : File = record { rest = bytes; eof = false } in
      let run = transfer_data ck malloc (some file) client attempts window size events in
      ((malloc window ≡ none) × (run ≡ stop exit_failure))
      ⊎ ((u : Transfer) × (run ≡ ok (some u)) × All (IsReference ck c bytes count whole) u.sent)
sends-IsReference ck {size = size} c bytes count whole malloc client attempts events a fair =
    elim (transfer-Truthful ck c bytes malloc client attempts events a fair) [
      | inl stopped ↦ inl stopped
      | inr (u, e, all) ↦ inr (
        u,
        e,
        All-map (λ d. (k : ℕ) × Honest ck (λ n b. Unit) size bytes k d)
            (IsReference ck c bytes count whole)
            (λ d (k, h). Honest-IsReference ck c bytes count whole d k h) u.sent all,
      )
    ]
