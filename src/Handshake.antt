-- ===== src/Handshake.antt =====
-- The handshake of rcopy.c and server.c: what one side sends is what the other reads.
pub mod Agrees
pub mod Ends
pub mod Serves
use rcopy.Base.{
  ℕ, ◌%◌, ◌+◌, ◌*◌, ◌^◌, ◌≤◌, ◌<◌, ◌≡◌, refl, sym, ap, ◌∙◌, arith, Bool, true, false, some, List,
  [], ◌∷◌, ◌++◌, length, take, drop, if◌then◌else◌, Result, ok, stop, exit_failure, length-drop,
  take_all, Bool-cases, inl, inr, c_string, IsText, c_string-IsText, ltb, leb, le→leb, le→ltb,
  lt→ltb, ==_iff, ◌==◌,
}
use rcopy.Checksum.{Checksum}
use rcopy.Net.{arrival, received}
use rcopy.Wire.{PduHeader, Address, Datagram, htonl, bytes32, read_header, send_pdu, header_size}
use rcopy.Wire.RoundTrip.{htonl-htonl, htonl-lt, value32_of_digits, packet_received}
use rcopy.Rcopy.Handshake.{
  Handshake, RcopyState, state_file_receive, filename_header, filename_payload, send_filename,
  on_answer, on_ack, text_ok,
}
use rcopy.Server.Client.{
  Access, Child, Server, ServerState, state_transfer_to_child, read_sizes, copy_filename,
  lookup_filename, answer_client, process_client, wait_packet, ack_header, text_not_ok,
}

-- A packet as its receiver finds it: it passes the checksum test, and has the header and the
-- payload.
pub record Carries (ck : Checksum) (h : PduHeader) (payload p : List ℕ) : Type 0 where
  pub intact : ck.in_cksum p ≡ 0
  pub checksum : ℕ
  pub header : read_header p ≡ ok (record { seq = h.seq; checksum = checksum; flag = h.flag })
  pub content : drop header_size p ≡ payload

sent_whole :
    (ck : Checksum) (n : ℕ) (to : Address) (h : PduHeader) (payload : List ℕ)
    → h.checksum ≡ 0
    → h.seq < 2 ^ 32
    → h.flag < 256
    → length payload ≤ 1400
    → (p : List ℕ) × (send_pdu ck (some n) (some to) h (some payload) (length payload)
        ≡ ok (some n, record { dest = to; packet = p } ∷ []))
      × Carries ck h payload p
sent_whole ck n to h payload blank hs hf short =
    let (p, eq, intact, (c, header), content) =
      packet_received ck (some n) to h payload (length payload) blank hs hf short (omega arith) in
    (
      p,
      eq,
      record {
        intact = intact;
        checksum = c;
        header = header;
        content = content ∙ take_all (length payload) payload (omega arith);
      },
    )

-- A length that fits a `uint8_t`.
name_len : (n : ℕ) → n ≤ 100 → n % 256 ≡ n
name_len n h = omega arith

length-Carries :
    (ck : Checksum) (h : PduHeader) (payload p : List ℕ)
    → Carries ck h payload p
    → 0 < length payload
    → length p ≡ length payload + 7
length-Carries ck h payload p c some_bytes = omega (arith, length-drop 7 p, ap length c.content)

length-received :
    (text q : List ℕ)
    → drop header_size q ≡ text
    → 0 < length text
    → length text ≤ 1400
    → (0 < length q) × (length q ≤ 1407)
length-received text q got some_bytes short = omega (arith, length-drop 7 q, ap length got)

-- The server reads the sizes and the name that the client has put in.
read_sizes-filename_payload :
    (filename : List ℕ) (buffersize windowsize : ℕ)
    → buffersize < 2 ^ 32
    → windowsize < 2 ^ 32
    → length filename ≤ 100
    → read_sizes (filename_payload filename buffersize windowsize)
      ≡ ok (windowsize, buffersize, length filename, filename)
unfolding read_sizes filename_payload bytes32
read_sizes-filename_payload filename buffersize windowsize hb hw hl =
    rw
      (
        value32_of_digits (htonl windowsize) (htonl-lt windowsize),
        value32_of_digits (htonl buffersize) (htonl-lt buffersize),
        htonl-htonl windowsize hw,
        htonl-htonl buffersize hb,
        name_len (length filename) hl,
        take_all (length filename) filename (omega arith),
      )
      refl

copy_filename-IsText :
    (filename : List ℕ)
    → IsText filename
    → length filename ≤ 100
    → copy_filename (length filename) filename ≡ ok filename
unfolding copy_filename
copy_filename-IsText filename text short =
    rw
      (
        le→leb (length filename) 100 short,
        le→leb (length filename) (length filename) (omega arith),
        take_all (length filename) filename (omega arith),
        c_string-IsText filename text,
      )
      refl

pub length-filename_payload :
    (filename : List ℕ) (buffersize windowsize : ℕ)
    → length filename ≤ 100
    → length (filename_payload filename buffersize windowsize) ≡ length filename + 9
unfolding filename_payload bytes32
length-filename_payload filename buffersize windowsize short =
    rw (name_len (length filename) short, take_all (length filename) filename (omega arith))
      (omega arith)

module _ (ck : Checksum) where
  -- The request is handed over, and carries what the server wants to read.
  pub send_filename-Carries :
      (n : ℕ) (s : Handshake)
      → length s.filename ≤ 100
      → (p : List ℕ) × (send_filename ck (some n) s
          ≡ ok (record s { sent = s.sent ++ (record { dest = s.server; packet = p } ∷ []) }))
        × Carries ck filename_header (filename_payload s.filename s.buffersize s.windowsize) p
  unfolding send_filename
  send_filename-Carries n s short =
      let payload = filename_payload s.filename s.buffersize s.windowsize in
      let (p, eq, carries) =
        sent_whole ck n s.server filename_header payload refl (htonl-lt 0) (omega arith)
          (omega (arith, length-filename_payload s.filename s.buffersize s.windowsize short)) in
      (p, rw eq refl, carries)

module _ (ck : Checksum) (access : Access) where
  -- The answer to a name: whether there is such a file.
  unfoldable pub answer : List ℕ → List ℕ
  answer filename = if access filename then text_ok else text_not_ok

  length-answer : (filename : List ℕ) → length (answer filename) ≤ 1400
  unfolding answer
  length-answer filename = elim (Bool-cases (access filename)) [
    | inl e ↦ rw e (omega arith)
    | inr e ↦ rw e (omega arith)
  ]

  pub answer_client-Carries :
      (m : ℕ) (child : Child)
      → (q : List ℕ) × (answer_client ck access (some m) child
          ≡ ok (
            access child.filename,
            record child { sent = child.sent ++ (record { dest = child.client; packet = q } ∷ []) },
          ))
        × Carries ck ack_header (answer child.filename) q
  unfolding answer_client lookup_filename answer
  answer_client-Carries m child =
      let (q, eq, carries) =
        sent_whole ck m child.client ack_header (answer child.filename) refl (htonl-lt 0)
          (omega arith) (length-answer child.filename) in
      (q, rw eq refl, carries)

  -- The child takes the sizes and the name from the request.
  pub process_client-Carries :
      (m : ℕ) (s : Handshake) (child : Child)
      → IsText s.filename
      → length s.filename ≤ 100
      → s.buffersize < 2 ^ 32
      → s.windowsize < 2 ^ 32
      → Carries ck filename_header (filename_payload s.filename s.buffersize s.windowsize) child.pdu
      → process_client ck access (some m) child
        ≡ answer_client ck access (some m) (record child {
          win_size = s.windowsize;
          buf_size = s.buffersize;
          filename = s.filename;
        })
  unfolding process_client
  process_client-Carries m s child text short hb hw c =
      let len = length-filename_payload s.filename s.buffersize s.windowsize short in
      let whole = length-Carries ck _ _ child.pdu c (omega (arith, len)) in
      rw
        (
          c.header,
          le→ltb (length child.pdu) 16 (omega (arith, len, whole)),
          c.content,
          read_sizes-filename_payload s.filename s.buffersize s.windowsize hb hw short,
          copy_filename-IsText s.filename text short,
        )
        refl

  -- The parent takes the request.
  pub wait_packet-Carries :
      (parent : Server) (src : Address) (h : PduHeader) (payload p : List ℕ)
      → 0 < length payload
      → length payload ≤ 1400
      → Carries ck h payload p
      → wait_packet ck parent src p
        ≡ record parent { client = src; state = state_transfer_to_child; pdu = p }
  unfolding wait_packet
  wait_packet-Carries parent src h payload p some_bytes short c =
      let whole = length-Carries ck h payload p c some_bytes in
      rw
        (
          take_all 1407 p (omega (arith, whole)),
          c.intact,
          le→ltb (length p) 7 (omega (arith, whole)),
        )
        refl

  -- The client reads the answer.
  pub on_answer-Carries :
      (resolved src : Address) (s : Handshake) (filename q : List ℕ)
      → Carries ck ack_header (answer filename) q
      → on_answer ck resolved s (arrival src q) ≡ (
          if access filename
          then ok (some state_file_receive, record s { server = src })
          else stop exit_failure)
  unfolding on_answer on_ack answer
  on_answer-Carries resolved src s filename q c = elim (Bool-cases (access filename)) [
    | inl e ↦
        let got : drop header_size q ≡ text_ok =
          c.content ∙ ap (λ (b : Bool). if b then text_ok else text_not_ok) e in
        let whole = length-received text_ok q got (omega arith) (omega arith) in
        rw (take_all 1407 q whole.1, lt→ltb 0 (length q) whole.0, c.header, got, e) refl
    | inr e ↦
        let got : drop header_size q ≡ text_not_ok =
          c.content ∙ ap (λ (b : Bool). if b then text_ok else text_not_ok) e in
        let whole = length-received text_not_ok q got (omega arith) (omega arith) in
        rw (take_all 1407 q whole.1, lt→ltb 0 (length q) whole.0, c.header, got, e) refl
  ]
