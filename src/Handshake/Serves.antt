-- ===== src/Handshake/Serves.antt =====
-- server.c: a child that starts with a client's request serves it.
use rcopy.Base.{
  ℕ, ◌≤◌, ◌≡◌, ◌∙◌, ◌⊎◌, inl, inr, refl, arith, true, false, none, some, List, All, IsText, length,
  Option, ok, stop, exit_failure,
}
use rcopy.Checksum.{Checksum}
use rcopy.Net.{Event, File}
use rcopy.Spec.{IsConfig}
use rcopy.Window.{Malloc, IsAllocator, WindowBuffer, init_window}
use rcopy.Rcopy.Handshake.{Handshake, filename_header, filename_payload}
use rcopy.Server.Client.{Access, Child, run_child}
use rcopy.Server.Transfer.{Transfer, initial_window}
use rcopy.Server.Transfer.Correct.{transfer-Truthful, strict}
use rcopy.Server.Transfer.Packets.{Truthful}
use rcopy.Server.Transfer.Round.{FairRun}
use rcopy.Server.Transfer.Start.{starting}
use rcopy.Handshake.{Carries, process_client-Carries, answer_client-Carries}

-- For a request with a name of at most 100 bytes without a zero byte and sizes in range, a file of
-- that name, an allocator that gives what it is asked for, a child that has the request and whose
-- answer is sent, and events whose intact packets have a full header, whose RRs that move the
-- window keep it inside 32 bits and whose SREJs ask for a packet of the window: `runChild` ends the
-- program for want of memory, or returns, and every packet that its transfer has sent is a data
-- packet with its chunk of the file at the front, or the packet that ends the file, empty or with
-- the last chunk; the chunks are of the size that the client asked for.
pub run_child_lem :
    (ck : Checksum) (access : Access) (s : Handshake) (c : IsConfig s.windowsize s.buffersize)
    (bytes : List ℕ) (malloc : Malloc) (fopen : List ℕ → Option File) (m : ℕ) (events : List Event)
    (child : Child)
    → IsText s.filename
    → length s.filename ≤ 100
    → access s.filename ≡ true
    → fopen s.filename ≡ some (record { rest = bytes; eof = false })
    → IsAllocator malloc
    → Carries ck filename_header (filename_payload s.filename s.buffersize s.windowsize) child.pdu
    → ((wb : WindowBuffer) (t : Transfer)
        → init_window malloc s.windowsize s.buffersize ≡ ok wb
        → initial_window ck (starting bytes wb child.client child.attempts) ≡ ok t
        → FairRun ck c bytes (strict ck c bytes) events t)
    → let run = run_child ck access malloc fopen (some m) events child in
      ((malloc s.windowsize ≡ none) × (run ≡ stop exit_failure))
      ⊎ ((d : Child) × (u : Transfer) × (run ≡ ok (d, some u))
          × All (Truthful ck s.buffersize bytes) u.sent)
unfolding run_child
run_child_lem ck access s c bytes malloc fopen m events child text short there opens a asks fair =
    let (q, answered, carries) =
      answer_client-Carries ck access m (record child {
        win_size = s.windowsize;
        buf_size = s.buffersize;
        filename = s.filename;
      }) in
    let asked =
      process_client-Carries ck access m s child text short (omega (arith, c.size_max))
        (omega (arith, c.window_max)) asks
      ∙ answered in
    elim (transfer-Truthful ck c bytes malloc child.client child.attempts events a fair) [
      | inl (nothing, stopped) ↦ rw (asked, there, opens, stopped) (inl (nothing, refl))
      | inr (u, done, truthful) ↦ rw (asked, there, opens, done) (inr (_, u, refl, truthful))
    ]
