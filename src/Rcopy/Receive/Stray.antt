-- ===== src/Rcopy/Receive/Stray.antt =====
-- rcopy.c: an acknowledgement of the file name that comes late, when the file is already awaited.
use rcopy.Base.{
  ℕ, ◌*◌, ◌≤◌, ◌<◌, ◌≡◌, inl, inr, refl, sym, ap, subst, ◌∙◌, arith, List, [], ◌++◌, append-nil,
  length, take, drop, take_all, length-drop, ok, ok-inj, Returns-eq,
}
use rcopy.Checksum.{Checksum}
use rcopy.Net.{arrival, received}
use rcopy.Spec.{chunk, IsConfig}
use rcopy.Spec.Whole.{nil_of_length}
use rcopy.Window.{WindowBuffer}
use rcopy.Window.Panes.{IsSized, IsBlank}
use rcopy.Wire.{PduHeader, Address, htonl, read_header, header_size}
use rcopy.Rcopy.Handshake.{text_ok}
use rcopy.Rcopy.Receive.{Receive, receive_turn}
use rcopy.Rcopy.Receive.Receiving.{Fronts, anyone}
use rcopy.Rcopy.Receive.Replies.{IsReceiving}
use rcopy.Rcopy.Receive.Round.{starting, starting-Receiving, free, receive_turn-Receiving}
use rcopy.Rcopy.Receive.Advance.{Advanced, data_heard}
use rcopy.Rcopy.Receive.Prefix.{output-IsCopy}

-- All of a short file is its first chunk.
first_chunk : (size : ℕ) (bytes : List ℕ) → length bytes ≤ size → chunk size bytes 0 ≡ bytes
first_chunk size bytes short =
    let z : 0 * size ≡ 0 = omega arith in rw z (take_all size bytes short)

-- Its first chunk stands at the front of it.
Fronts-first :
    (window size : ℕ) (bytes payload : List ℕ)
    → 0 < length bytes
    → length bytes ≤ size
    → payload ≡ bytes
    → Fronts window size bytes 0 payload
Fronts-first window size bytes payload some_bytes short same = (
  omega arith,
  rw (first_chunk size bytes short, same) (take_all (length bytes) bytes (omega arith)),
)

module _ (ck : Checksum) {window size : ℕ} (c : IsConfig window size) where
  open ck use {in_cksum}

  -- For a client that has just come to its loop with an empty window, sizes in range with buffers
  -- of at least two bytes: an intact datagram with the flag 9, the number 0 and the text Ok, as the
  -- answer to the file name has them, is taken for the first chunk of the file; the client expects
  -- a later packet then, and its output begins with Ok.
  pub late_answer :
      (cwb : WindowBuffer) (server src : Address) (packet : List ℕ) (h : PduHeader)
      → IsSized window size cwb
      → IsBlank cwb
      → 2 ≤ size
      → in_cksum (received packet) ≡ 0
      → read_header (received packet) ≡ ok h
      → h.flag ≡ 9
      → htonl h.seq ≡ 0
      → drop header_size (received packet) ≡ text_ok
      → (u : Receive) × (receive_turn ck (starting window cwb server) (arrival src packet) ≡ ok u)
        × (0 < u.expected_seq)
        × (take 2 u.output ≡ text_ok)
  late_answer cwb server src packet h sized blank room intact read nine zero_seq text =
      let s = starting window cwb server in
      let r = starting-Receiving ck c text_ok anyone 0 cwb server sized blank (omega arith) in
      let front =
        Fronts-first window size text_ok (drop header_size (received packet)) (omega arith) room
          text in
      let (u, turned, advanced) =
        Returns-eq (Advanced ck c text_ok anyone 0 0 s) (receive_turn ck s (arrival src packet)) (
          data_heard ck c text_ok anyone 0 s 0 h packet src r refl intact read
            (ground (arith, nine)) zero_seq (omega (arith, ap length text)) (omega arith)
            (omega (arith, c.window_max)) tt front) in
      let (v, again, heard) =
        Returns-eq (IsReceiving ck c text_ok anyone 0) (receive_turn ck s (arrival src packet)) (
          receive_turn-Receiving ck c text_ok anyone 0 s (arrival src packet) r refl
            (λ passed. (
              omega (arith, c.window_max),
              (h, read, (λ ten. absurd (omega (arith, nine))), λ other low high. rw zero_seq front),
            ))
            (free ck c text_ok s (arrival src packet))) in
      let same : v ≡ u = ok-inj v u (sym again ∙ turned) in
      let ((rest, whole, missing, long), ended) =
        output-IsCopy c text_ok ck anyone 0 u
          (subst (λ w. IsReceiving ck c text_ok anyone 0 w) same heard) in
      let none_left : rest ≡ [] = elim missing [
        | inl empty ↦ empty
        | inr behind ↦ behind ∙ nil_of_length _ (past u.expected_seq advanced.0 room)
      ] in
      (
        u,
        turned,
        advanced.0,
        sym (append-nil (take 2 u.output)) ∙ ap (λ l. take 2 u.output ++ l) (sym none_left) ∙ whole,
      )
    where
      past : (n : ℕ) → 0 < n → 2 ≤ size → length (drop (n * size) text_ok) ≡ 0
      past n pos room =
          let e : 2 ≤ n * size = grind arith in omega (arith, length-drop (n * size) text_ok)
