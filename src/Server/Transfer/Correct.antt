-- ===== src/Server/Transfer/Correct.antt =====
-- `transferData` as a whole: it runs without a fault, and what it sends.
use rcopy.Base.{
  All, ℕ, ◌+◌, ◌^◌, ◌<◌, arith, ◌≡◌, ◌⊎◌, inl, inr, false, none, some, List, ok, stop, exit_failure,
}
use rcopy.Checksum.{Checksum}
use rcopy.Net.{Event, File}
use rcopy.Spec.{IsConfig, window_fits}
use rcopy.Window.{Malloc, IsAllocator, WindowBuffer, init_window}
use rcopy.Server.Transfer.{Transfer, initial_window, transfer_data}
use rcopy.Server.Transfer.Packets.{Truthful}
use rcopy.Server.Transfer.Terms.{Terms, anywhere}
use rcopy.Server.Transfer.Serving.{Serving}
use rcopy.Server.Transfer.Round.{FairRun}
use rcopy.Server.Transfer.Start.{starting, transfer_data-Good}

module _ (ck : Checksum) {window size : ℕ} (c : IsConfig window size) (bytes : List ℕ) where
  -- An RR that moves the window must keep it inside 32 bits. An SREJ may name any number, and
  -- whatever stands in the pane is sent for it.
  abbrev pub lenient : Terms ck window size bytes
  lenient = record {
    since = 0;
    places = anywhere;
    Sent = λ n d. Unit;
    Acked = λ k. k + window < 2 ^ 32;
    Finished = Unit;
    tells = λ n k d lt h. tt;
    grows = λ n d h. tt;
    acked_fits = λ k h. h;
  }

  -- The same, but what is sent must be truthful.
  abbrev pub strict : Terms ck window size bytes
  strict = record {
    since = 0;
    places = anywhere;
    Sent = λ n d. Truthful ck size bytes d;
    Acked = λ k. k + window < 2 ^ 32;
    Finished = Unit;
    tells = λ n k d lt h. (k, h);
    grows = λ n d h. h;
    acked_fits = λ k h. h;
  }

-- For window and buffer sizes in range and an allocator that gives what it is asked for, over
-- events whose intact packets have a full header and whose RRs that move the window keep it inside
-- 32 bits, whatever the SREJs ask for: `transferData` ends the program for want of memory, or runs
-- without a fault and leaves each loop, its panes then hold the last chunks read, and the edges of its
-- window are the base and the last number that it admits.
pub transfer_safe :
    (ck : Checksum) {window size : ℕ} (c : IsConfig window size) (bytes : List ℕ) (malloc : Malloc)
    (client attempts : ℕ) (events : List Event)
    → IsAllocator malloc
    → ((wb : WindowBuffer) (t : Transfer)
        → init_window malloc window size ≡ ok wb
        → initial_window ck (starting bytes wb client attempts) ≡ ok t
        → FairRun ck c bytes (lenient ck c bytes) events t)
    → let file : File = record { rest = bytes; eof = false } in
      let run = transfer_data ck malloc (some file) client attempts window size events in
      ((malloc window ≡ none) × (run ≡ stop exit_failure))
      ⊎ ((u : Transfer) × (run ≡ ok (some u)) × Serving window size bytes u)
transfer_safe ck c bytes malloc client attempts events a fair =
    elim (transfer_data-Good ck c bytes (lenient ck c bytes) malloc client attempts events a
      (omega arith) (window_fits c) fair) [
        | inl stopped ↦ inl stopped
        | inr (u, e, g) ↦ inr (u, e, g.serving)
      ]

-- For window and buffer sizes in range, an allocator that gives what it is asked for, and events
-- whose intact packets have a full header, whose RRs that move the window keep it inside 32 bits
-- and whose SREJs ask for a packet of the window: `transferData` ends the program for want of
-- memory, or returns, and every packet it has sent is a data packet with its chunk of the file at
-- the front, or the packet that ends the file, empty or with the last chunk.
pub transfer-Truthful :
    (ck : Checksum) {window size : ℕ} (c : IsConfig window size) (bytes : List ℕ) (malloc : Malloc)
    (client attempts : ℕ) (events : List Event)
    → IsAllocator malloc
    → ((wb : WindowBuffer) (t : Transfer)
        → init_window malloc window size ≡ ok wb
        → initial_window ck (starting bytes wb client attempts) ≡ ok t
        → FairRun ck c bytes (strict ck c bytes) events t)
    → let file : File = record { rest = bytes; eof = false } in
      let run = transfer_data ck malloc (some file) client attempts window size events in
      ((malloc window ≡ none) × (run ≡ stop exit_failure))
      ⊎ ((u : Transfer) × (run ≡ ok (some u)) × All (Truthful ck size bytes) u.sent)
transfer-Truthful ck {size = size} c bytes malloc client attempts events a fair =
    elim (transfer_data-Good ck c bytes (strict ck c bytes) malloc client attempts events a
      (omega arith) (window_fits c) fair) [
        | inl stopped ↦ inl stopped
        | inr (u, e, g) ↦ inr (u, e, g.truthful)
      ]
