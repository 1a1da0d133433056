-- ===== src/Net.antt =====
-- What the code waits for: pollLib.c's `pollCall` with a time limit, then safeUtil.c's
-- `safeRecvfrom`; and a file open for reading. The environment decides what happens.
use rcopy.Base.{ℕ, Bool, ◌||◌, List, length, take, drop, ltb}
use rcopy.Wire.{Address, max_pdu_size}

-- One wait: nothing within the time limit, or a datagram with its source.
pub data Event : Type 0 where
  timeout : Event
  arrival : Address → List ℕ → Event

-- `recvfrom` into a buffer of MAX_PDU_SIZE bytes cuts a longer datagram off.
abbrev pub received : List ℕ → List ℕ
received bytes = take max_pdu_size bytes

-- A `FILE` open for reading: what is left of it, and its end-of-file indicator.
pub record File : Type 0 where
  pub rest : List ℕ
  pub eof : Bool

-- `fread(p, 1, n, file)`: the bytes stored. The indicator is set when there were fewer than `n`.
abbrev pub fread : File → ℕ → List ℕ
fread file n = take n file.rest

abbrev pub after_fread : File → ℕ → File
after_fread file n = record { rest = drop n file.rest; eof = file.eof || ltb (length file.rest) n }
