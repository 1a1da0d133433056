-- ===== src/Protocol/Complete.antt =====
-- From every state that the two programs reach, the transfer can still be completed.
use rcopy.Base.{
  ℕ, ◌+◌, ◌*◌, ◌<◌, ◌≡◌, ◌⊎◌, inl, inr, ◌∙◌, arith, true, List, length, drop, Bool-cases,
}
use rcopy.Checksum.{Checksum}
use rcopy.Spec.{IsConfig}
use rcopy.Spec.Last.{EndsAt, whole-EndsAt}
use rcopy.Window.{Malloc, IsAllocator, max_int_32}
use rcopy.Rcopy.Receive.Prefix.{IsCopy, output-IsCopy}
use rcopy.Protocol.{System, Reach, Leads, stay, go, next}
use rcopy.Protocol.Agree.{child_at, Agree}
use rcopy.Protocol.Correct.{Reached, Reach-Agree, acknowledged}
use rcopy.Protocol.Laps.{laps, end-Step}
use rcopy.Protocol.Routed.{IsRouted, IsJoined}
use rcopy.Wire.{Address}

module _ (ck : Checksum) {window size : ℕ} (c : IsConfig window size) (bytes : List ℕ) (top : ℕ)
    (at : EndsAt window size bytes top) (small : top + window < max_int_32)
    (server_malloc client_malloc : Malloc) (sa : IsAllocator server_malloc)
    (ca : IsAllocator client_malloc) where
  pub Leads-Reached :
      {s t : System}
      → Reached ck c bytes top at small server_malloc client_malloc sa ca s
      → Leads ck s t
      → Reached ck c bytes top at small server_malloc client_malloc sa ca t
  Leads-Reached r stay = r
  Leads-Reached r (go p step) = next (Leads-Reached r p) step

  module _ (peer server : Address) where
    -- A client that has taken the end has said so, and the child can still hear it.
    hears_end :
        (s : System)
        → Agree ck c bytes top at s
        → s.client.eof ≡ true
        → s.child.attempts < 9
        → IsJoined ck peer server s
        → (t : System) × (path : Leads ck s t) × IsRouted ck peer server path
          × (t.child.eof_acked ≡ true)
    hears_end s a over few joined = elim (Bool-cases s.child.eof_acked) [
      | inl heard ↦ (s, stay, tt, heard)
      | inr not_yet ↦
          let (x, sent, e, there) = a.hearing.told over in
          let (t, step, way, acked) =
            end-Step ck c bytes top at small server_malloc client_malloc sa ca peer server s not_yet
              (omega arith) x sent (there ∙ joined.1) e in
          (t, go stay step, (tt, way), acked)
    ]

    still_ends :
        (s : System)
        → Agree ck c bytes top at s
        → (s.client.eof ≡ true) ⊎ (s.client.attempts < 10)
        → s.child.attempts < 9
        → IsJoined ck peer server s
        → (t : System) × (path : Leads ck s t) × IsRouted ck peer server path
          × (t.child.eof_acked ≡ true)
    still_ends s a alive few joined = elim (Bool-cases s.client.eof) [
      | inl over ↦ hears_end s a over few joined
      | inr open_yet ↦
          let few_waits : s.client.attempts < 10 = elim alive [
            | inl over ↦ absurd cc
            | inr h ↦ h
          ] in
          laps ck c bytes top at small server_malloc client_malloc sa ca peer server top s a
            (few, open_yet, few_waits, joined) (omega arith)
    ]

    -- For any file, with the number at which its transfer ends, window and buffer sizes in range with
    -- the numbers of the window behind that number below the one that marks an empty pane, and
    -- allocators that give what they are asked for: in every state that a child and a client reach
    -- over a network that loses, repeats, delays and reorders packets, and corrupts them in ways that
    -- the checksum test finds, where no corrupt packet reaches a client whose packet expected has not
    -- been sent, in which the client has taken the end or has not given up, the child has at most
    -- eight attempts behind it, and either side sends to the address of the other: there are further
    -- rounds, in which each packet that is heard was sent to the hearer's address and comes from the
    -- address of the other side, after which the client has taken the end and
    -- the child has it acknowledged, the output agrees with the file as far as both go, and lacks
    -- nothing or what lies behind the chunks before the packet expected, which is less than a buffer.
    pub can_end :
        (s : System)
        → Reached ck c bytes top at small server_malloc client_malloc sa ca s
        → (s.client.eof ≡ true) ⊎ (s.client.attempts < 10)
        → s.child.attempts < 9
        → IsJoined ck peer server s
        → (t : System) × (path : Leads ck s t) × IsRouted ck peer server path
          × (t.child.eof_acked ≡ true)
          × (t.client.eof ≡ true)
          × IsCopy size bytes t.client.expected_seq t.client.output
          × (length (drop (t.client.expected_seq * size) bytes) < size)
    can_end s r alive few joined =
        let a = Reach-Agree ck c bytes top at small server_malloc client_malloc sa ca r in
        let (t, path, routed, over) = still_ends s a alive few joined in
        let b =
          Reach-Agree ck c bytes top at small server_malloc client_malloc sa ca
            (Leads-Reached r path) in
        let ended = b.serving.finished over in
        let (copy, short) =
          output-IsCopy c bytes ck (child_at top t.child.next_seq) 0 t.client b.hearing in
        (t, path, routed, over, ended, copy, elim short [ inl running ↦ absurd cc | inr h ↦ h ])

module _ (ck : Checksum) {window size : ℕ} (c : IsConfig window size) (bytes : List ℕ) (count : ℕ)
    (whole : length bytes ≡ count * size) (small : count + window < max_int_32)
    (server_malloc client_malloc : Malloc) (sa : IsAllocator server_malloc)
    (ca : IsAllocator client_malloc) (peer server : Address) where
  -- For a file of `count` full chunks, window and buffer sizes in range with the numbers of the
  -- last window below the one that marks an empty pane, and allocators that give what they are
  -- asked for: in every state that a child and a client reach over a network that loses,
  -- repeats, delays and reorders packets, and corrupts them in ways that the checksum test
  -- finds, where no corrupt packet reaches a client whose packet expected has not been sent, in
  -- which the client has taken the end or has not given up, the child has at most eight attempts
  -- behind it, and either side sends to the address of the other: there are further rounds, in
  -- which each packet that is heard was sent to the hearer's address and comes from the address of
  -- the other side, that end with the child's end acknowledged, the client's end taken, and the
  -- file as the client's output.
  pub can_complete :
      (s : System)
      → Reach ck server_malloc client_malloc window size bytes s
      → (s.client.eof ≡ true) ⊎ (s.client.attempts < 10)
      → s.child.attempts < 9
      → IsJoined ck peer server s
      → (t : System) × (path : Leads ck s t) × IsRouted ck peer server path
        × (t.child.eof_acked ≡ true)
        × (t.client.eof ≡ true)
        × (t.client.output ≡ bytes)
  can_complete s r alive few joined =
      let at = whole-EndsAt window size bytes count c.size_pos whole in
      let (t, path, routed, over, ended, copy, short) =
        can_end ck c bytes count at small server_malloc client_malloc sa ca peer server s r alive
          few joined in
      let at_end =
        acknowledged ck c bytes count whole small server_malloc client_malloc sa ca t
          (Leads-Reached ck c bytes count at small server_malloc client_malloc sa ca r path) in
      (t, path, routed, over, ended, elim at_end.1 [ inl not_yet ↦ absurd cc | inr same ↦ same ])
