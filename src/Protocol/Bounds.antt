-- ===== src/Protocol/Bounds.antt =====
-- How far the two programs come apart, and how large what they send and write becomes.
use rcopy.Base.{
  ℕ, true, ◌⊎◌, dec_lt, ◌&&◌, ◌==◌, ◌-◌, ◌+◌, ◌≤◌, ◌<◌, ◌≡◌, inl, inr, arith, Bool-cases, List,
}
use rcopy.Checksum.{Checksum}
use rcopy.Spec.{IsConfig}
use rcopy.Spec.Last.{EndsAt}
use rcopy.Window.{Malloc, IsAllocator, max_int_32}
use rcopy.Server.Transfer.{Transfer}
use rcopy.Server.Transfer.Serving.{Serving, Holds}
use rcopy.Server.Transfer.Resend.{in_window}
use rcopy.Protocol.{System}
use rcopy.Protocol.Correct.{Reached, Reach-Agree}

module _ (ck : Checksum) {window size : ℕ} (c : IsConfig window size) (bytes : List ℕ) (top : ℕ)
    (at : EndsAt window size bytes top) (small : top + window < max_int_32)
    (server_malloc client_malloc : Malloc) (sa : IsAllocator server_malloc)
    (ca : IsAllocator client_malloc) where
  -- For any file, with the number at which its transfer ends, window and buffer sizes in range with
  -- the numbers of the window behind that number below the one that marks an empty pane, and
  -- allocators that give what they are asked for: in every state that a child and a client reach
  -- over a network that loses, repeats, delays and reorders packets, and corrupts them in ways that
  -- the checksum test finds, where no corrupt packet reaches a client whose packet expected has not
  -- been sent, the edges of the child's window buffer are its base and the last number that the
  -- window admits; and every packet from the base to the next number, except the one that ends the
  -- file, is in its pane: its chunk stands at the front.
  pub window_kept :
      (s : System) (k : ℕ)
      → Reached ck c bytes top at small server_malloc client_malloc sa ca s
      → (s.child.wb.lower ≡ s.child.base)
        × (s.child.wb.upper ≡ s.child.base + window - 1)
        × ((k < s.child.base)
            ⊎ (s.child.next_seq ≤ k)
            ⊎ ((s.child.eof_sent && (k == s.child.eof_seq)) ≡ true)
            ⊎ Holds window size bytes s.child.wb.panes k)
  window_kept s k r =
      let a = Reach-Agree ck c bytes top at small server_malloc client_malloc sa ca r in
      let serving = a.serving.serving in
      (
        serving.framed.0,
        serving.framed.1,
        elim (dec_lt k s.child.base) [
          | yes behind ↦ inl behind
          | no low ↦ elim (dec_lt k s.child.next_seq) [
            | no past ↦ inr (inl (omega arith))
            | yes high ↦ elim (Bool-cases (s.child.eof_sent && (k == s.child.eof_seq))) [
              | inl ending ↦ inr (inr (inl ending))
              | inr other ↦
                  let (before, near, off) =
                    in_window ck c bytes s.child k serving (omega arith) high other in
                  inr (inr (inr (serving.held k before near)))
            ]
          ]
        ],
      )
