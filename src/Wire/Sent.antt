-- ===== src/Wire/Sent.antt =====
-- The packets that one side has handed over, as the network may pick them.
use rcopy.Base.{◌≡◌, ◌⊎◌, inl, inr, refl, sym, subst, All, List, [], ◌∷◌, ◌++◌}
use rcopy.Wire.{Datagram}

-- `d` is among the packets.
abbrev pub Has : Datagram → List Datagram → Type 0
Has d [] = ⊥
Has d (x ∷ xs) = (d ≡ x) ⊎ Has d xs

pub Has-All :
    (P : Datagram → Type 0) (d : Datagram) (ds : List Datagram) → All P ds → Has d ds → P d
Has-All P d [] all h = elim h [ ]
Has-All P d (x ∷ xs) all (inl e) = subst P (sym e) all.0
Has-All P d (x ∷ xs) all (inr h) = Has-All P d xs all.1 h

pub Has-in : (d : Datagram) (xs rest : List Datagram) → Has d (xs ++ (d ∷ rest))
Has-in d [] rest = inl refl
Has-in d (x ∷ xs) rest = inr (Has-in d xs rest)

pub Has-append : (d : Datagram) (xs ys : List Datagram) → Has d xs → Has d (xs ++ ys)
Has-append d [] ys h = elim h [ ]
Has-append d (x ∷ xs) ys (inl e) = inl e
Has-append d (x ∷ xs) ys (inr h) = inr (Has-append d xs ys h)
