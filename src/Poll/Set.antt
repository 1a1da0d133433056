-- ===== src/Poll/Set.antt =====
-- pollLib.c: what setting up, adding and removing do to the poll set.
use rcopy.Base.{
  ℕ, ◌+◌, ◌≤◌, ◌<◌, ◌≡◌, ◌≢◌, refl, ◌∙◌, arith, some, length, get_elem?, length-set,
  get_elem?-set_self, get_elem?-set_ne, get_elem?_of_lt, leb, if◌then◌else◌, ok,
}
use rcopy.Poll.{PollFd, PollSet, pollin, write_entry, remove_from_poll_set}

-- The block has as many entries as it is said to have, and `poll` is told of no more.
pub record IsPollSet (s : PollSet) : Type 0 where
  pub count : length s.poll_file_descriptors ≡ s.current_poll_set_size
  pub inside : s.max_file_descriptor ≤ s.current_poll_set_size

-- `poll` watches the socket for input.
abbrev pub Watches : PollSet → ℕ → Type 0
Watches s i =
    (i < s.max_file_descriptor)
    × ((p : PollFd) × (get_elem? s.poll_file_descriptors i ≡ some p)
        × (p.fd ≡ i)
        × (p.events ≡ pollin))

-- The entry is written; the rest stays.
write_entry-IsPollSet :
    (s : PollSet) (i fd events : ℕ)
    → IsPollSet s
    → i < s.current_poll_set_size
    → (t : PollSet) × (write_entry s i fd events ≡ ok t)
      × IsPollSet t
      × (t.max_file_descriptor ≡ s.max_file_descriptor)
      × ((p : PollFd) × (get_elem? t.poll_file_descriptors i ≡ some p)
          × (p.fd ≡ fd)
          × (p.events ≡ events))
      × ((j : ℕ)
          → i ≢ j
          → get_elem? t.poll_file_descriptors j ≡ get_elem? s.poll_file_descriptors j)
unfolding write_entry
write_entry-IsPollSet s i fd events v lt =
    let (p, at) = get_elem?_of_lt s.poll_file_descriptors i (omega (arith, v.count)) in
    (
      _,
      rw at refl,
      record { count = length-set s.poll_file_descriptors i _ ∙ v.count; inside = v.inside },
      refl,
      (
        record p { fd = fd; events = events },
        get_elem?-set_self s.poll_file_descriptors i _ (omega (arith, v.count)),
        refl,
        refl,
      ),
      λ j ne. get_elem?-set_ne s.poll_file_descriptors _ ne,
    )

-- The bound that `poll` is told.
raised : PollSet → ℕ → PollSet
raised t i =
    if leb t.max_file_descriptor (i + 1) then record t { max_file_descriptor = i + 1 } else t

-- For a poll set whose block has the size recorded, and a socket inside it: `removeFromPollSet`
-- returns a poll set of that kind with the same bound for `poll`, in which the socket's entry has the
-- descriptor 0 and asks for nothing, and every other entry is what it was.
pub remove_from_poll_set_lem :
    (s : PollSet) (i : ℕ)
    → IsPollSet s
    → i < s.current_poll_set_size
    → (u : PollSet) × (remove_from_poll_set s i ≡ ok u)
      × IsPollSet u
      × (u.max_file_descriptor ≡ s.max_file_descriptor)
      × ((p : PollFd) × (get_elem? u.poll_file_descriptors i ≡ some p)
          × (p.fd ≡ 0)
          × (p.events ≡ 0))
      × ((j : ℕ)
          → i ≢ j
          → get_elem? u.poll_file_descriptors j ≡ get_elem? s.poll_file_descriptors j)
unfolding remove_from_poll_set
remove_from_poll_set_lem s i v lt = write_entry-IsPollSet s i 0 0 v lt
