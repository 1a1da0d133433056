-- ===== src/Protocol/Abstract.antt =====
-- What a transfer of `count` chunks comes to, with no packets, windows or timeouts: a receiver that
-- writes the chunks in order and then ends, and a sender that lets go of what has been written and
-- closes when the receiver has ended.
use rcopy.Base.{ℕ, zero, suc, ◌+◌, ◌≤◌, ◌<◌, ◌≡◌, subst, arith, Bool, true, false}

pub record Copying : Type 0 where
  pub written : ℕ
  pub ended : Bool
  pub released : ℕ
  pub closed : Bool

abbrev pub blank : Copying
blank = record { written = 0; ended = false; released = 0; closed = false }

module _ (count : ℕ) where
  pub data Move (s : Copying) : Copying → Type 0 where
    write : s.ended ≡ false → s.written < count → Move s (record s { written = s.written + 1 })
    finish : s.ended ≡ false → s.written ≡ count → Move s (record s { ended = true })
    release : s.released < s.written → Move s (record s { released = s.released + 1 })
    close : s.ended ≡ true → Move s (record s { closed = true })

  -- Any number of moves.
  pub data Moves (s : Copying) : Copying → Type 0 where
    none_yet : Moves s s
    more : {t u : Copying} → Moves s t → Move t u → Moves s u

  pub Moves-trans : {s t u : Copying} → Moves s t → Moves t u → Moves s u
  Moves-trans p none_yet = p
  Moves-trans p (more q m) = more (Moves-trans p q) m

  pub write_many :
      (n : ℕ) (s : Copying)
      → s.ended ≡ false
      → s.written + n ≤ count
      → Moves s (record s { written = s.written + n })
  write_many zero s going room =
      subst (λ k. Moves s (record s { written = k })) (omega arith) none_yet
  write_many (suc n) s going room =
      subst (λ k. Moves s (record s { written = k })) (omega arith)
        (more (write_many n s going (omega arith)) (write going (omega arith)))

  pub release_many :
      (n : ℕ) (s : Copying)
      → s.released + n ≤ s.written
      → Moves s (record s { released = s.released + n })
  release_many zero s room = subst (λ k. Moves s (record s { released = k })) (omega arith) none_yet
  release_many (suc n) s room =
      subst (λ k. Moves s (record s { released = k })) (omega arith)
        (more (release_many n s (omega arith)) (release (omega arith)))
