-- ===== src/Server/Transfer/Advance.antt =====
-- How the main loop of `transferData` goes on at an acknowledgement.
use rcopy.Base.{
  ℕ, ◌-◌, ◌<◌, ◌≡◌, refl, true, List, length, ltb, lt→ltb, ok, Returns, Returns-weaken,
}
use rcopy.Checksum.{Checksum}
use rcopy.Net.{arrival, received}
use rcopy.Spec.{IsConfig}
use rcopy.Wire.{PduHeader, htonl, read_header}
use rcopy.Window.{slide_window}
use rcopy.Server.Transfer.{Transfer, transfer_turn, on_packet, on_rr, refill}
use rcopy.Server.Transfer.Terms.{Terms}
use rcopy.Server.Transfer.Refill.{IsRefilled-IsLater, refill-Good}
use rcopy.Server.Transfer.Round.{IsGood, Good-with, slid-Good}

module _ (ck : Checksum) {window size : ℕ} (c : IsConfig window size) (bytes : List ℕ)
    (terms : Terms ck window size bytes) where
  open ck use {in_cksum}

  -- An RR past the base moves the base to its number, and the attempts are counted anew for its sender.
  pub rr_heard :
      (t : Transfer) (k : ℕ) (h : PduHeader) (packet : List ℕ) (src : ℕ)
      → IsGood ck c bytes terms t
      → terms.Acked k
      → t.base < k
      → 0 < length (received packet)
      → in_cksum (received packet) ≡ 0
      → read_header (received packet) ≡ ok h
      → h.flag ≡ 5
      → htonl h.seq ≡ k
      → Returns
          (λ u. (u.base ≡ k) × (u.attempts ≡ 0) × (u.client ≡ src) × (u.eof_acked ≡ t.eof_acked))
          (transfer_turn ck t (arrival src packet))
  unfolding transfer_turn on_packet on_rr
  rr_heard t k h packet src g allowed ahead some_bytes intact read flag number =
      let some_test : ltb 0 (length (received packet)) ≡ true = lt→ltb _ _ some_bytes in
      let up : ltb t.base k ≡ true = lt→ltb _ _ ahead in
      let heard : Transfer = record t { attempts = 0; client = src } in
      let good =
        Good-with ck c bytes terms t src 0 t.eof_acked t.sent g g.0.truthful g.0.finished in
      let u : Transfer = record heard { wb = slide_window t.wb (k - t.base); base = k } in
      rw (some_test, intact, read, flag, number, up)
        (Returns-weaken _ _ (refill ck u)
          (refill-Good ck c bytes terms u (slid-Good ck c bytes terms heard k good allowed ahead)
            (IsRefilled-IsLater ck c bytes terms t g.1))
          (λ v (kept, same, full). (same.0, same.1, same.2, same.3)))

  -- The acknowledgement of the end.
  pub end_heard :
      (t : Transfer) (h : PduHeader) (packet : List ℕ) (src : ℕ)
      → 0 < length (received packet)
      → in_cksum (received packet) ≡ 0
      → read_header (received packet) ≡ ok h
      → h.flag ≡ 10
      → Returns (λ u. u.eof_acked ≡ true) (transfer_turn ck t (arrival src packet))
  unfolding transfer_turn on_packet
  end_heard t h packet src some_bytes intact read flag =
      let some_test : ltb 0 (length (received packet)) ≡ true = lt→ltb _ _ some_bytes in
      rw (some_test, intact, read, flag) refl
