-- ===== src/Examples.antt =====
-- Concrete data for the tests: a memory, a small file, and packets as they look on the wire.
mod Sending
mod Receiving
mod Meeting
mod Polling
mod Networking
mod Joining
mod Faults
mod Stray
use rcopy.Base.{
  ℕ, zero, suc, ◌+◌, ◌≤◌, ◌<◌, ◌≡◌, ◌∙◌, ap, arith, some, List, [], ◌∷◌, length, get_elem?,
  replicate, eq_of_some, refl, sym,
}
use rcopy.Spec.{IsConfig}
use rcopy.Window.{Pane, Malloc, IsAllocator}

-- A pane as the allocator may leave it.
abbrev pub dirty : Pane
dirty = record { seq_num = 77; content = replicate 1400 0xee }

abbrev pub heap : Malloc
heap n = some (replicate n dirty)

length-replicate {ℓ} : {A : Type ℓ} (n : ℕ) (a : A) → length (replicate n a) ≡ n
length-replicate zero a = refl
length-replicate (suc n) a = ap suc (length-replicate n a)

get_elem?-replicate {ℓ} :
    {A : Type ℓ} (n i : ℕ) (a : A) {b : A} → get_elem? (replicate n a) i ≡ some b → b ≡ a
get_elem?-replicate zero i a e = cc
get_elem?-replicate (suc n) zero a e = cc
get_elem?-replicate (suc n) (suc i) a e = get_elem?-replicate n i a e

pub heap-IsAllocator : IsAllocator heap
heap-IsAllocator = record {
  panes_given = λ n ps e. ap length (sym (eq_of_some e)) ∙ length-replicate n dirty;
  room_given = λ n ps i p e at.
      ap (λ (q : Pane). length q.content)
        (get_elem?-replicate n i dirty (ap (λ l. get_elem? l i) (eq_of_some e) ∙ at))
      ∙ length-replicate {A = ℕ} 1400 0xee;
}

abbrev pub small_file : List ℕ
small_file = b'a' ∷ b'b' ∷ b'c' ∷ b'd' ∷ []

pub small_config : IsConfig 2 2
small_config = omega arith

-- The data packet 0 with two bytes, and an RR for packet 1.
abbrev pub data_0 : List ℕ
data_0 = 0 ∷ 0 ∷ 0 ∷ 0 ∷ 0x8d ∷ 0x9e ∷ 16 ∷ b'a' ∷ b'b' ∷ []

abbrev pub rr_1 : List ℕ
rr_1 = 0 ∷ 0 ∷ 0 ∷ 1 ∷ 0xa8 ∷ 0xac ∷ 5 ∷ b'R' ∷ b'R' ∷ []
