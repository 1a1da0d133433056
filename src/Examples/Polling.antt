-- ===== src/Examples/Polling.antt =====
-- Tests of the poll set.
use rcopy.Base.{
  ℕ, ◌<◌, ◌≡◌, ◌≢◌, ◌⊎◌, refl, arith, none, some, List, [], ◌∷◌, take, get_elem?, replicate, ok,
}
use rcopy.Poll.{PollFd, PollSet, PollAnswer, Realloc, remove_from_poll_set, poll_call}
use rcopy.Poll.Set.{IsPollSet, remove_from_poll_set_lem}
use rcopy.Poll.Call.{IsQuiet, poll_call_lem}

-- A set of one entry, for socket 0, and a `realloc` that always has memory.
abbrev one_entry : PollSet
one_entry = record {
  poll_file_descriptors = record { fd = 0; events = 1; revents = 0 } ∷ [];
  max_file_descriptor = 1;
  current_poll_set_size = 1;
}

abbrev plenty : Realloc
plenty n = some (replicate n (record { fd = 7; events = 7; revents = 7 }))

remove_from_poll_set_example :
    (u : PollSet) × (remove_from_poll_set one_entry 0 ≡ ok u)
    × IsPollSet u
    × (u.max_file_descriptor ≡ 1)
    × ((p : PollFd) × (get_elem? u.poll_file_descriptors 0 ≡ some p) × (p.fd ≡ 0) × (p.events ≡ 0))
    × ((j : ℕ)
        → 0 ≢ j
        → get_elem? u.poll_file_descriptors j ≡ get_elem? one_entry.poll_file_descriptors j)
remove_from_poll_set_example =
    remove_from_poll_set_lem one_entry 0 (record { count = refl; inside = omega arith })
      (omega arith)

abbrev three_entries : PollSet
three_entries = record one_entry { max_file_descriptor = 3 }

abbrev second_ready : PollAnswer
second_ready = record { value = 1; revents = 0 ∷ 1 ∷ 0 ∷ [] }

poll_call_example :
    let rs : List ℕ = take 3 second_ready.revents in
    ((poll_call three_entries (some second_ready) ≡ ok none) × ((k : ℕ) → IsQuiet rs k))
    ⊎ ((k r : ℕ) × (poll_call three_entries (some second_ready) ≡ ok (some k))
        × (get_elem? rs k ≡ some r)
        × (0 < r)
        × ((j : ℕ) → j < k → IsQuiet rs j))
poll_call_example = poll_call_lem three_entries second_ready (λ e. absurd (omega arith))
