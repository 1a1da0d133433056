-- ===== src/Protocol/Routed.antt =====
-- Paths of the joined loops on which every packet goes where it has been sent to.
use rcopy.Base.{◌≡◌, List}
use rcopy.Checksum.{Checksum}
use rcopy.Net.{Event}
use rcopy.Wire.{Address, Datagram}
use rcopy.Protocol.{
  System, Delivers, silence, brings, noise, Step, child_turn, client_turn, Leads, stay, go,
}

module _ (ck : Checksum) where
  -- What a wait brings comes from `from`, and, where it is a packet, was sent to `to`.
  abbrev pub IsSentOn :
      Address
      → Address
      → {Noise : Type 0} {ds : List Datagram} {e : Event} → Delivers ck Noise ds e
      → Type 0
  IsSentOn from to silence = Unit
  IsSentOn from to (brings src d h) = (src ≡ from) × (d.dest ≡ to)
  IsSentOn from to (noise src bytes bad may) = src ≡ from

  -- The client has the address `peer` and the child the address `server`.
  abbrev pub IsRoutedStep : Address → Address → {s t : System} → Step ck s t → Type 0
  IsRoutedStep peer server (child_turn e u runs h turned) = IsSentOn peer server h
  IsRoutedStep peer server (client_turn e u runs h turned) = IsSentOn server peer h

  abbrev pub IsRouted : Address → Address → {s t : System} → Leads ck s t → Type 0
  IsRouted peer server stay = Unit
  IsRouted peer server (go path step) = IsRouted peer server path × IsRoutedStep peer server step

  -- The sides send to each other.
  abbrev pub IsJoined : Address → Address → System → Type 0
  IsJoined peer server s = (s.child.client ≡ peer) × (s.client.server ≡ server)

  pub Leads-trans : {s t u : System} → Leads ck s t → Leads ck t u → Leads ck s u
  Leads-trans p stay = p
  Leads-trans p (go q step) = go (Leads-trans p q) step

  pub Leads-trans-IsRouted :
      (peer server : Address) {s t u : System} (p : Leads ck s t) (q : Leads ck t u)
      → IsRouted peer server p
      → IsRouted peer server q
      → IsRouted peer server (Leads-trans p q)
  unfolding Leads-trans
  Leads-trans-IsRouted peer server p stay hp hq = hp
  Leads-trans-IsRouted peer server p (go q step) hp (hq, h) =
      (Leads-trans-IsRouted peer server p q hp hq, h)
