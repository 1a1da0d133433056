-- ===== src/Server/Transfer/Send.antt =====
-- `send_next_data`: a chunk is read into its pane and sent, and the invariant is kept.
use rcopy.Base.{
  ℕ, ◌+◌, ◌%◌, ◌≤◌, ◌≡◌, sym, ap, ◌∙◌, arith, Bool, false, ◌||◌, ◌&&◌, some, [], ◌∷◌, ◌++◌, length,
  take, drop, set, get_elem?, overwrite, u32, ltb, length-take, get_elem?-set_self,
  take-append_length, ok, ◌==◌, eq_of_some, if◌then◌else◌,
}
use rcopy.Checksum.{Checksum}
use rcopy.Net.{fread, after_fread}
use rcopy.Spec.{IsConfig}
use rcopy.Window.{Pane, WindowBuffer}
use rcopy.Window.Panes.{IsSized, IsSized-set, pane_of, index_of, write_pane-eq}
use rcopy.Server.Transfer.{Transfer, read_chunk, send_next_data, send_data_packet}
use rcopy.Server.Transfer.Packets.{data_packet, send_data_packet-eq}
use native.Mathlib.Nat.{mod-lt}

-- The window and the file after a chunk has been read into pane `i`, which was `p`.
abbrev pub wb_after : Transfer → ℕ → Pane → WindowBuffer
wb_after t i p = record t.wb {
  panes = set t.wb.panes i (record {
    seq_num = t.next_seq;
    content = overwrite (fread t.file t.wb.buffer_size) p.content;
  });
}

abbrev pub after_chunk : Transfer → ℕ → Pane → Transfer
after_chunk t i p = record t { wb = wb_after t i p; file = after_fread t.file t.wb.buffer_size }

length-fread :
    (t : Transfer) (size : ℕ)
    → t.wb.buffer_size ≡ size
    → size ≤ 1400
    → length (fread t.file t.wb.buffer_size) ≤ 1400
length-fread t size e h = omega (arith, length-take t.wb.buffer_size t.file.rest)

pub read_chunk-eq :
    {window size : ℕ} (t : Transfer) (i : ℕ) (p : Pane)
    → IsSized window size t.wb
    → size ≤ 1400
    → get_elem? t.wb.panes i ≡ some p
    → (read_chunk t i ≡ ok (after_chunk t i p, length (fread t.file t.wb.buffer_size)))
      × IsSized window size (wb_after t i p)
unfolding read_chunk
read_chunk-eq {size} t i p s len at =
    let short = length-fread t size s.buffer_size len in
    (rw (write_pane-eq t.wb i t.next_seq _ p at short), IsSized-set i t.next_seq _ p s at short)

module _ (ck : Checksum) {window size : ℕ} (c : IsConfig window size) where
  -- The chunk just read into the pane of `next_seq` is what is sent.
  pub send_chunk-eq :
      (t : Transfer) (v : Transfer) (p : Pane) (isEOF : Bool)
      → IsSized window size v.wb
      → get_elem? v.wb.panes (t.next_seq % window)
        ≡ some (record {
          seq_num = t.next_seq;
          content = overwrite (fread t.file t.wb.buffer_size) p.content;
        })
      → length (fread t.file t.wb.buffer_size) ≤ 1400
      → send_data_packet ck v t.next_seq isEOF (length (fread t.file t.wb.buffer_size))
        ≡ ok (record v {
          sent =
              v.sent
              ++ (data_packet ck v.client t.next_seq isEOF (fread t.file t.wb.buffer_size) ∷ []);
        })
  send_chunk-eq t v p isEOF s at short =
      let got = fread t.file t.wb.buffer_size in
      let n = length got in
      let (q, there, e) = send_data_packet-eq ck v t.next_seq isEOF n s c.window_pos short in
      let now : q ≡ record { seq_num = t.next_seq; content = overwrite got p.content } =
        eq_of_some (sym there ∙ at) in
      e
      ∙ ap
          (λ (r : Pane). ok (record v {
            sent = v.sent ++ (data_packet ck v.client t.next_seq isEOF (take n r.content) ∷ []);
          }))
          now
      ∙ rw (take-append_length got (drop n p.content))

  -- What `send_next_data` leaves when it has read chunk `next_seq` into pane `p` and sent it.
  abbrev pub after_send : Transfer → Bool → Pane → Transfer
  after_send t last p = record t {
    wb = wb_after t (t.next_seq % window) p;
    file = after_fread t.file t.wb.buffer_size;
    eof_sent = last || t.eof_sent;
    eof_seq = if last then t.next_seq else t.eof_seq;
    next_seq = u32 (t.next_seq + 1);
    sent = t.sent ++ (data_packet ck t.client t.next_seq last (fread t.file t.wb.buffer_size) ∷ []);
  }

  -- The chunk goes out as data, or with the packet that ends the file if the file ran out.
  pub send_next_data-eq :
      (t : Transfer)
      → IsSized window size t.wb
      → t.eof_sent ≡ false
      → t.file.eof ≡ false
      → (p : Pane) × (get_elem? t.wb.panes (t.next_seq % window) ≡ some p)
        × (send_next_data ck t ≡ ok (after_send t (ltb (length t.file.rest) t.wb.buffer_size) p))
  unfolding send_next_data
  send_next_data-eq t s off clear =
      let (p, at, room) = pane_of s c.window_pos t.next_seq in
      let (read, sized) = read_chunk-eq t (t.next_seq % window) p s c.size_max at in
      (
        p,
        at,
        rw (index_of s c.window_pos t.next_seq, read, short, ending)
            (rw (
              send_chunk-eq t
                (record (after_chunk t (t.next_seq % window) p) {
                  eof_sent = last || t.eof_sent;
                  eof_seq = if last then t.next_seq else t.eof_seq;
                })
                p last sized
                (get_elem?-set_self t.wb.panes _ _ (rw s.count (mod-lt t.next_seq c.window_pos)))
                (length-fread t size s.buffer_size c.size_max))),
      )
    where
      last : Bool
      last = ltb (length t.file.rest) t.wb.buffer_size

      short :
          (ltb (length (fread t.file t.wb.buffer_size)) t.wb.buffer_size
            || (t.file.eof || ltb (length t.file.rest) t.wb.buffer_size))
          ≡ last
      short = ground (arith, length-take t.wb.buffer_size t.file.rest)

      ending :
          ((last || t.eof_sent) && (t.next_seq == (if last then t.next_seq else t.eof_seq))) ≡ last
      ending = ground arith
