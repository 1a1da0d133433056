-- ===== src/Rcopy/Program/Ends.antt =====
-- rcopy.c: the client as a whole.
use rcopy.Base.{
  arith, Bool, Bool-cases, ltb, ltb→lt, ℤ, ◌<◌, [], ◌∷◌, ℕ, ◌*◌, ◌≤◌, ◌≡◌, ◌⊎◌, inl, inr, refl,
  subst, ap₂, ◌∙◌, true, false, Option, none, some, List, ◌++◌, All, length, drop, to_u32, Result,
  ok, stop, exit_failure,
}
use rcopy.Base.Loop.{loop}
use rcopy.Checksum.{Checksum}
use rcopy.Net.{Event}
use rcopy.Spec.{IsConfig}
use rcopy.Window.{Malloc, IsAllocator, WindowBuffer, init_window}
use rcopy.Wire.{Address, max_attempts, max_filename}
use rcopy.Rcopy.Handshake.{Handshake, state_file_receive, state_done, state_handshake}
use rcopy.Rcopy.Program.{
  Arguments, Program, started, at_most_2_30, check_args, rcopy_round, rcopy_fsm, rcopy_main,
}
use rcopy.Rcopy.Receive as Receiver
use rcopy.Rcopy.Receive.{Receive, receive_runs}
use rcopy.Rcopy.Receive.Silence.{IsOver, silent, silent-FairRun, state_file_receive-IsOver}
use rcopy.Rcopy.Receive.Round.{FairRun, starting}
use rcopy.Rcopy.Receive.Correct.{receive_correct}
use rcopy.Handshake.Ends.{IsAnswer, handshake_decides}

-- The output is the file if the end has been taken, and the front of the file otherwise.
abbrev pub IsCopied : ℕ → List ℕ → Receive → Type 0
IsCopied size bytes s =
    ((s.eof ≡ true) × (s.output ≡ bytes))
    ⊎ ((s.eof ≡ false) × (s.output ++ drop (s.expected_seq * size) bytes ≡ bytes))

-- The program has ended, with a failure or in its last state; what it has received, if the
-- handshake has led there, is a copy as far as it goes.
abbrev pub IsEnded : ℕ → List ℕ → Result Program → Type 0
IsEnded size bytes run =
    (run ≡ stop exit_failure)
    ⊎ ((r : Program) × (run ≡ ok r)
        × (r.state ≡ state_done)
        × ((r.outcome ≡ none)
            ⊎ ((s : Receive) × (r.outcome ≡ some s)
                × (receive_runs s ≡ false)
                × IsCopied size bytes s)))

module _ (ck : Checksum) {window size : ℕ} (c : IsConfig window size) (bytes : List ℕ) where
  -- What the reception of the file needs of the events, whoever the server is.
  abbrev pub AllFair : Malloc → List Event → Type 0
  AllFair malloc events =
      (server : Address) (wb : WindowBuffer)
      → init_window malloc window size ≡ ok wb
      → FairRun ck c bytes events (starting window wb server)

  -- The events end the loop of the reception, whoever the server is.
  abbrev AllOver : Malloc → List Event → Type 0
  AllOver malloc events =
      (server : Address)
      → IsOver (Receiver.state_file_receive ck malloc true server window size false events)

  -- The rounds from STATE_FILE_RECEIVE on.
  receive_rounds :
      (count : ℕ) (malloc : Malloc) (sent_bytes : Option ℕ) (resolved : Address)
      (answers events : List Event) (t : Handshake)
      → length bytes ≡ count * size
      → IsAllocator malloc
      → AllFair malloc events
      → AllOver malloc events
      → t.windowsize ≡ window
      → t.buffersize ≡ size
      → IsEnded size bytes (
          loop
            (rcopy_round ck malloc true sent_bytes resolved answers events)
            2
            (record { state = state_file_receive; handshake = t; outcome = none }))
  unfolding loop rcopy_round
  receive_rounds count malloc sent_bytes resolved answers events t whole a fair ends same_window
        same_size =
      let run : ℕ → ℕ → Result Receive =
        λ w n. Receiver.state_file_receive ck malloc true t.server w n false events in
      let same : run t.windowsize t.buffersize ≡ run window size = ap₂ run same_window same_size in
      elim (receive_correct ck c bytes count whole malloc t.server events a (fair t.server)) [
        | inl (nothing, stopped) ↦ rw (loop, same ∙ stopped) (inl refl)
        | inr (s, done, copied) ↦
            let over : receive_runs s ≡ false = subst IsOver done (ends t.server) in
            rw (loop, same ∙ done, over) (inr (_, refl, refl, inr (s, refl, over, copied)))
      ]

  -- The rounds from STATE_HANDSHAKE on.
  handshake_rounds :
      (count : ℕ) (malloc : Malloc) (sent_bytes : Option ℕ) (resolved : Address)
      (answers events : List Event) (s : Handshake)
      → length bytes ≡ count * size
      → IsAllocator malloc
      → AllFair malloc events
      → AllOver malloc events
      → s.windowsize ≡ window
      → s.buffersize ≡ size
      → length s.filename ≤ 100
      → All IsAnswer answers
      → max_attempts ≤ length answers
      → IsEnded size bytes (
          loop
            (rcopy_round ck malloc true sent_bytes resolved answers events)
            3
            (record { state = state_handshake; handshake = s; outcome = none }))
  unfolding loop rcopy_round
  handshake_rounds count malloc sent_bytes resolved answers events s whole a fair ends same_window
        same_size short f enough =
      elim (handshake_decides ck sent_bytes resolved answers s short f enough) [
        | inl stopped ↦ rw (loop, stopped) (inl refl)
        | inr (t, same, inl going) ↦
            rw (loop, going)
              (receive_rounds count malloc sent_bytes resolved answers events t whole a fair ends
                (same.1 ∙ same_window) (same.2 ∙ same_size))
        | inr (t, same, inr done) ↦ rw (loop, done) (inr (_, refl, refl, inl refl))
      ]

-- Names of at most 99 bytes.
ShortNames : Arguments → Type 0
ShortNames a = (length a.server_filename < max_filename) × (length a.rcopy_filename < max_filename)

-- Whatever the arguments are, they are refused, or the names are short.
check_args-ShortNames :
    (atoi : List ℕ → ℤ) (rate_in_range : List ℕ → Bool) (argv : List (List ℕ))
    → (check_args atoi rate_in_range argv ≡ stop exit_failure)
      ⊎ ((a : Arguments) × (check_args atoi rate_in_range argv ≡ ok a) × ShortNames a)
unfolding check_args ShortNames
check_args-ShortNames atoi rate_in_range [] = inl refl
check_args-ShortNames atoi rate_in_range (a ∷ []) = inl refl
check_args-ShortNames atoi rate_in_range (a ∷ b ∷ []) = inl refl
check_args-ShortNames atoi rate_in_range (a ∷ b ∷ c ∷ []) = inl refl
check_args-ShortNames atoi rate_in_range (a ∷ b ∷ c ∷ d ∷ []) = inl refl
check_args-ShortNames atoi rate_in_range (a ∷ b ∷ c ∷ d ∷ e ∷ []) = inl refl
check_args-ShortNames atoi rate_in_range (a ∷ b ∷ c ∷ d ∷ e ∷ f ∷ []) = inl refl
check_args-ShortNames atoi rate_in_range (a ∷ b ∷ c ∷ d ∷ e ∷ f ∷ g ∷ []) = inl refl
check_args-ShortNames atoi rate_in_range (a ∷ b ∷ c ∷ d ∷ e ∷ f ∷ g ∷ h ∷ i ∷ more) = inl refl
check_args-ShortNames atoi rate_in_range (a ∷ b ∷ c ∷ d ∷ e ∷ f ∷ g ∷ h ∷ []) =
    elim (Bool-cases (ltb (length b) max_filename)) [
      | inr long ↦ rw long (inl refl)
      | inl short_b ↦ elim (Bool-cases (ltb (length c) max_filename)) [
        | inr long ↦ rw (short_b, long) (inl refl)
        | inl short_c ↦ elim (Bool-cases (at_most_2_30 (atoi d))) [
          | inr wide ↦ rw (short_b, short_c, wide) (inl refl)
          | inl narrow ↦ elim (Bool-cases (rate_in_range f)) [
            | inr out ↦ rw (short_b, short_c, narrow, out) (inl refl)
            | inl fine ↦
                rw (short_b, short_c, narrow, fine)
                  (inr (_, refl, (ltb→lt _ _ short_b, ltb→lt _ _ short_c)))
          ]
        ]
      ]
    ]

-- For a command line whose sizes, if it is accepted, are in range, a file of `count` full chunks,
-- an allocator that gives what it is asked for, an output file that can be opened, at least ten
-- waits in the handshake whose datagrams are empty or have a full header, with an acknowledgement
-- of at most 1393 bytes, and events in the reception whose intact packets are fair (a full header;
-- a packet that ends the file, if it has the number expected, comes where less than a chunk of the
-- file is left, and brings that or nothing; any other packet that falls into the window brings its
-- chunk; the numbers of the window stay below the one that marks an empty pane), whoever the server
-- is: if ten waits in vain follow these events, the client ends with a failure, or comes to its last
-- state without a fault. It has received nothing then, or the loop of the reception has ended and
-- the output is the file if the packet that ends it was taken, and otherwise the front of the file.
pub rcopy_main_lem :
    (ck : Checksum) {window size : ℕ} (c : IsConfig window size) (bytes : List ℕ) (count : ℕ)
    (atoi : List ℕ → ℤ) (rate_in_range : List ℕ → Bool) (argv : List (List ℕ)) (malloc : Malloc)
    (sent_bytes : Option ℕ) (resolved : Address) (answers events : List Event)
    → length bytes ≡ count * size
    → ((args : Arguments)
        → check_args atoi rate_in_range argv ≡ ok args
        → (to_u32 args.windowsize ≡ window) × (to_u32 args.buffersize ≡ size))
    → IsAllocator malloc
    → All IsAnswer answers
    → max_attempts ≤ length answers
    → AllFair ck c bytes malloc events
    → IsEnded size bytes (
        rcopy_main ck malloc true sent_bytes atoi rate_in_range resolved answers
          (events ++ silent)
          argv)
unfolding rcopy_main rcopy_fsm rcopy_round loop ShortNames
rcopy_main_lem ck c bytes count atoi rate_in_range argv malloc sent_bytes resolved answers events
      whole sizes a f enough fair =
    elim (check_args-ShortNames atoi rate_in_range argv) [
      | inl refused ↦ rw refused (inl refl)
      | inr (args, accepted, (short, other)) ↦ rw accepted (
          handshake_rounds ck c bytes count malloc sent_bytes resolved answers (events ++ silent)
            (record (started args).handshake { server = resolved }) whole a
            (λ server wb made.
              silent-FairRun ck c bytes max_attempts events _ (fair server wb made))
            (λ server. state_file_receive-IsOver ck malloc server _ _ events)
            (sizes args accepted).0 (sizes args accepted).1 (omega arith) f enough)
    ]
