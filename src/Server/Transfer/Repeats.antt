-- ===== src/Server/Transfer/Repeats.antt =====
-- Where a packet that is sent again differs from what the file has for its number.
use rcopy.Base.{
  ℕ, ◌-◌, ◌*◌, ◌%◌, ◌≤◌, ◌<◌, ◌≡◌, refl, sym, ap, ◌∙◌, arith, true, false, ◌&&◌, List, [], ◌∷◌,
  ◌++◌, length, take, take-take, length-take, drop, get_elem?, eq_of_some, ltb, lt→ltb, ◌==◌, ok,
  Returns,
}
use rcopy.Checksum.{Checksum}
use rcopy.Spec.{chunk, IsConfig}
use rcopy.Server.Transfer.{Transfer, send_next_data, resend, on_packet, transfer_turn}
use rcopy.Net.{arrival, received}
use rcopy.Wire.{Address, PduHeader, read_header, htonl}
use rcopy.Server.Transfer.Packets.{data_packet, send_data_packet-eq}
use rcopy.Server.Transfer.Send.{send_next_data-eq, read_chunk-eq, after_send}
use rcopy.Server.Transfer.Serving.{Serving, Serving-with}
use native.Mathlib.Nat.{add-mod_right}

-- What `resend` makes of the number that comes next.
unsent_again :
    (ck : Checksum) {window size : ℕ} (c : IsConfig window size) (bytes : List ℕ) (t : Transfer)
    → Serving window size bytes t
    → t.eof_sent ≡ false
    → window ≤ t.next_seq
    → let old = chunk size bytes (t.next_seq - window) in
      (body : List ℕ) × (resend ck t t.next_seq
        ≡ ok (record t { sent = t.sent ++ (data_packet ck t.client t.next_seq false body ∷ []) }))
      × (take (length old) body ≡ old)
unfolding resend
unsent_again ck {window} {size} c bytes t s off past =
    let k = t.next_seq - window in
    let not_end : (t.eof_sent && (t.next_seq == t.eof_seq)) ≡ false = ground arith in
    let (p, at, e) =
      send_data_packet-eq ck t t.next_seq false t.wb.buffer_size s.sized c.window_pos
        (omega (arith, s.sized.buffer_size, c.size_max)) in
    let (q, there, holds) =
      s.held k (omega (arith, s.reading off, c.window_pos)) (omega (arith, s.reading off)) in
    let same : k % window ≡ t.next_seq % window =
      sym (add-mod_right k window) ∙ ap (λ (n : ℕ). n % window) (omega arith) in
    let pane : q ≡ p = eq_of_some (sym there ∙ ap (λ (i : ℕ). get_elem? t.wb.panes i) same ∙ at) in
    (
      take t.wb.buffer_size p.content,
      rw (not_end, e) refl,
      take-take (length (chunk size bytes k)) t.wb.buffer_size p.content
            (omega (arith, length-take size (drop (k * size) bytes), s.sized.buffer_size))
          ∙ ap (λ x. take (length (chunk size bytes k)) x.content) (sym pane)
          ∙ holds,
    )

-- For a child that keeps the invariant and has at least a window of packets behind it, while the file
-- goes on: an intact SREJ of the next number, which has not been sent, is answered to its source by a
-- data packet of this number with the chunk of a window before at its front. Besides, the child only
-- takes the source for its peer and sets its attempts back.
pub unsent_repeated :
    (ck : Checksum) {window size : ℕ} (c : IsConfig window size) (bytes : List ℕ) (t : Transfer)
    (src : Address) (packet : List ℕ) (h : PduHeader)
    → Serving window size bytes t
    → t.eof_sent ≡ false
    → window ≤ t.next_seq
    → 0 < length (received packet)
    → ck.in_cksum (received packet) ≡ 0
    → read_header (received packet) ≡ ok h
    → h.flag ≡ 6
    → htonl h.seq ≡ t.next_seq
    → let old = chunk size bytes (t.next_seq - window) in
      (body : List ℕ) × (transfer_turn ck t (arrival src packet)
        ≡ ok (record t {
          attempts = 0;
          client = src;
          sent = t.sent ++ (data_packet ck src t.next_seq false body ∷ []);
        }))
      × (take (length old) body ≡ old)
unfolding transfer_turn on_packet
unsent_repeated ck {window} {size} c bytes t src packet h s off past some_bytes intact header srej
      next =
    let u : Transfer = record t { attempts = 0; client = src } in
    let (body, again, old) =
      unsent_again ck c bytes u (Serving-with window size bytes t src 0 t.eof_acked t.sent s) off
        past in
    (body, rw (lt→ltb _ _ some_bytes, intact, header, srej, next) again, old)

-- For a child that keeps the invariant, has not sent the end, and for whose file less than a buffer is
-- left: `send_next_data` sends what is left in the packet that ends the file; when this packet is sent
-- again it is empty.
pub last_chunk_dropped :
    (ck : Checksum) {window size : ℕ} (c : IsConfig window size) (bytes : List ℕ) (t : Transfer)
    → Serving window size bytes t
    → t.eof_sent ≡ false
    → length t.file.rest < size
    → let last = data_packet ck t.client t.next_seq true (chunk size bytes t.next_seq) in
      (u : Transfer) × (send_next_data ck t ≡ ok u)
      × (u.sent ≡ t.sent ++ (last ∷ []))
      × Returns
          (λ v. v.sent ≡ u.sent ++ (data_packet ck t.client t.next_seq true [] ∷ []))
          (resend ck u t.next_seq)
unfolding resend
last_chunk_dropped ck {window} {size} c bytes t s off short =
    let (p, at, e) = send_next_data-eq ck c t s.sized off (s.reading off).2 in
    let few : ltb (length t.file.rest) t.wb.buffer_size ≡ true =
      lt→ltb _ _ (omega (arith, s.sized.buffer_size)) in
    let u = after_send ck c t true p in
    let sized = (read_chunk-eq t (t.next_seq % window) p s.sized c.size_max at).1 in
    let (q, there, again) =
      send_data_packet-eq ck u t.next_seq true 0 sized c.window_pos (omega arith) in
    let hit : (t.next_seq == t.next_seq) ≡ true = ground arith in
    (
      u,
      e ∙ ap (λ b. ok (after_send ck c t b p)) few,
      ap (λ l. t.sent ++ (data_packet ck t.client t.next_seq true l ∷ []))
          (ap (λ n. take n t.file.rest) s.sized.buffer_size
            ∙ ap (λ l. take size l) (s.reading off).1),
      rw (hit, again) refl,
    )
