-- ===== src/Handshake/Agrees.antt =====
-- The handshake from end to end: the request, the parent, the child, and the answer.
use rcopy.Base.{
  ℕ, ◌^◌, ◌≤◌, ◌<◌, ◌≡◌, ◌∙◌, arith, some, List, [], ◌∷◌, ◌++◌, length, if◌then◌else◌, ok, stop,
  exit_failure, IsText,
}
use rcopy.Checksum.{Checksum}
use rcopy.Net.{arrival}
use rcopy.Wire.{Address}
use rcopy.Rcopy.Handshake.{
  Handshake, state_file_receive, filename_header, filename_payload, send_filename, on_answer,
}
use rcopy.Server.Client.{
  Access, Child, Server, state_transfer_to_child, process_client, wait_packet,
}
use rcopy.Handshake.{
  send_filename-Carries, process_client-Carries, answer_client-Carries, on_answer-Carries,
  wait_packet-Carries, length-filename_payload,
}

-- For a name of at most 100 bytes without a zero byte, sizes that fit a `uint32_t`, and sends that
-- succeed: the client's request passes the tests of the parent process, which keeps it and its
-- sender for the next child. A child that starts with it takes exactly the client's window size,
-- buffer size and file name, goes on to the transfer just if there is such a file, and sends one
-- answer, at which the client goes on to the file with the child's address, or ends the program if
-- there is no such file.
pub handshake_agrees :
    (ck : Checksum) (access : Access) (n m : ℕ) (s : Handshake)
    → IsText s.filename
    → length s.filename ≤ 100
    → s.buffersize < 2 ^ 32
    → s.windowsize < 2 ^ 32
    → (p : List ℕ) × (send_filename ck (some n) s
        ≡ ok (record s { sent = s.sent ++ (record { dest = s.server; packet = p } ∷ []) }))
      × ((parent : Server) (src : Address)
          → wait_packet ck parent src p
            ≡ record parent { client = src; state = state_transfer_to_child; pdu = p })
      × ((child : Child)
          → (q : List ℕ) × (process_client ck access (some m) (record child { pdu = p })
              ≡ ok (
                access s.filename,
                record child {
                  pdu = p;
                  win_size = s.windowsize;
                  buf_size = s.buffersize;
                  filename = s.filename;
                  sent = child.sent ++ (record { dest = child.client; packet = q } ∷ []);
                },
              ))
            × ((resolved src : Address) (t : Handshake)
                → on_answer ck resolved t (arrival src q) ≡ (
                    if access s.filename
                    then ok (some state_file_receive, record t { server = src })
                    else stop exit_failure)))
handshake_agrees ck access n m s text short hb hw =
    let (p, eq, carries) = send_filename-Carries ck n s short in
    let payload = filename_payload s.filename s.buffersize s.windowsize in
    let len = length-filename_payload s.filename s.buffersize s.windowsize short in
    (
      p,
      eq,
      λ parent src.
          wait_packet-Carries ck access parent src filename_header payload p (omega (arith, len))
            (omega (arith, len)) carries,
      λ child.
          let (q, sent, reads) = answer_client-Carries ck access m (record child {
            pdu = p;
            win_size = s.windowsize;
            buf_size = s.buffersize;
            filename = s.filename;
          }) in
          (
            q,
            process_client-Carries ck access m s (record child { pdu = p }) text short hb hw carries
                ∙ sent,
            λ resolved src t. on_answer-Carries ck access resolved src t s.filename q reads,
          ),
    )
