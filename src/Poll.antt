-- ===== src/Poll.antt =====
-- pollLib.h and pollLib.c: the set of descriptors that the programs wait for. The file's static
-- variables are one record. A socket number is not negative.
pub mod Set
pub mod Call
use rcopy.Base.{
  ℕ, ◌+◌, ◌-◌, ◌≡◌, Bool, true, false, Option, none, some, List, [], ◌∷◌, ◌++◌, length, take,
  replicate, set, get_elem?, ltb, leb, if◌then◌else◌, Result, ok, stop, exit_failure, out_of_bounds,
  present, guard, ◌>>=◌, ◌>>◌,
}
use rcopy.Network.{srealloc, s_calloc}

-- `struct pollfd`
pub record PollFd : Type 0 where
  pub fd : ℕ
  pub events : ℕ
  pub revents : ℕ

pub record PollSet : Type 0 where
  pub poll_file_descriptors : List PollFd
  pub max_file_descriptor : ℕ
  pub current_poll_set_size : ℕ

abbrev pub poll_set_size : ℕ
poll_set_size = 10

abbrev pub pollin : ℕ
pollin = 1

-- What `calloc` gives for the set: entries of zeros, or nothing.
abbrev pub zeroed : Bool → Option (List PollFd)
zeroed true = some (replicate poll_set_size (record { fd = 0; events = 0; revents = 0 }))
zeroed false = none

-- `found` says whether there is memory.
unfoldable pub setup_poll_set : Bool → PollSet → Result PollSet
setup_poll_set found s = do
  block ← s_calloc (zeroed found)
  ok (record s { poll_file_descriptors = block; current_poll_set_size = poll_set_size })

-- What `realloc` adds to a block for more entries: the new ones hold anything, or there is no memory.
abbrev pub Realloc : Type 0
Realloc = ℕ → Option (List PollFd)

abbrev pub IsRealloc : Realloc → Type 0
IsRealloc realloc = (n : ℕ) (ps : List PollFd) → realloc n ≡ some ps → length ps ≡ n

-- The loop of `growPollSet` over the new entries.
unfoldable pub zero_entries : List PollFd → List PollFd
zero_entries [] = []
zero_entries (p ∷ ps) = record p { fd = 0; events = 0 } ∷ zero_entries ps

unfoldable pub grow_poll_set : Realloc → PollSet → ℕ → Result PollSet
grow_poll_set realloc s newSetSize = do
  guard (ltb s.current_poll_set_size newSetSize) exit_failure
  added ← srealloc (realloc (newSetSize - s.current_poll_set_size))
  ok (record s {
    poll_file_descriptors = s.poll_file_descriptors ++ zero_entries added;
    current_poll_set_size = newSetSize;
  })

-- The fields `fd` and `events` of an entry.
unfoldable pub write_entry : PollSet → ℕ → ℕ → ℕ → Result PollSet
write_entry s i fd events = present out_of_bounds (get_elem? s.poll_file_descriptors i) >>= λ p.
    ok (record s {
      poll_file_descriptors = set s.poll_file_descriptors i (record p { fd = fd; events = events });
    })

unfoldable pub add_to_poll_set : Realloc → PollSet → ℕ → Result PollSet
add_to_poll_set realloc s socketNumber = do
  t ←
      (if leb s.current_poll_set_size socketNumber
        then grow_poll_set realloc s (socketNumber + poll_set_size)
        else ok s)
  let u =
      (if leb t.max_file_descriptor (socketNumber + 1)
        then record t { max_file_descriptor = socketNumber + 1 }
        else t)
  write_entry u socketNumber socketNumber pollin

unfoldable pub remove_from_poll_set : PollSet → ℕ → Result PollSet
remove_from_poll_set s socketNumber = write_entry s socketNumber 0 0

-- What `poll` answers: a negative number, or how many entries have events, and what `revents`
-- says for each entry.
pub record PollAnswer : Type 0 where
  pub value : ℕ
  pub revents : List ℕ

-- The loop of `pollCall`, from entry `i`: the first entry with events.
unfoldable pub first_ready : List ℕ → ℕ → Option ℕ
first_ready [] i = none
first_ready (r ∷ rs) i = let later = first_ready rs (i + 1) in if ltb 0 r then some i else later

-- `pollCall`: the number of a socket that is ready, `none` for -1.
unfoldable pub poll_call : PollSet → Option PollAnswer → Result (Option ℕ)
poll_call s answer = present exit_failure answer >>= λ a.
    ok (if ltb 0 a.value then first_ready (take s.max_file_descriptor a.revents) 0 else none)
