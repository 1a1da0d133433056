-- ===== src/Poll/Call.antt =====
-- pollLib.c: `pollCall` returns the lowest socket that is ready.
use rcopy.Base.{
  ℕ, zero, suc, ◌+◌, ◌<◌, ◌≡◌, ◌⊎◌, inl, inr, refl, sym, ap, ◌∙◌, arith, none, some, List, [], ◌∷◌,
  take, get_elem?, eq_of_some, Bool-cases, ltb, ltb→lt, ltb→le, ok,
}
use rcopy.Poll.{PollSet, PollAnswer, poll_call, first_ready}

-- The entry `k` has no events.
abbrev pub IsQuiet : List ℕ → ℕ → Type 0
IsQuiet rs k = (r : ℕ) → get_elem? rs k ≡ some r → r ≡ 0

-- What the loop finds from entry `i`: nothing in the list, or its first entry with events.
IsLowest : List ℕ → ℕ → Type 0
IsLowest rs i =
    ((first_ready rs i ≡ none) × ((k : ℕ) → IsQuiet rs k))
    ⊎ ((k r : ℕ) × (first_ready rs i ≡ some (i + k))
        × (get_elem? rs k ≡ some r)
        × (0 < r)
        × ((j : ℕ) → j < k → IsQuiet rs j))

cons_IsQuiet :
    (r : ℕ) (rs : List ℕ) (n : ℕ)
    → r ≡ 0
    → ((j : ℕ) → j < n → IsQuiet rs j)
    → (j : ℕ) → j < suc n
    → IsQuiet (r ∷ rs) j
cons_IsQuiet r rs n none_here quiet zero lt x at = sym (eq_of_some at) ∙ none_here
cons_IsQuiet r rs n none_here quiet (suc j) lt x at = quiet j (omega arith) x at

first_ready-IsLowest : (rs : List ℕ) (i : ℕ) → IsLowest rs i
unfolding IsLowest first_ready
first_ready-IsLowest [] i = inl (refl, λ k r at. cc)
first_ready-IsLowest (r ∷ rs) i = elim (Bool-cases (ltb 0 r)) [
  | inl e ↦
      let here : i ≡ i + 0 = omega arith in
      rw e (inr (0, r, ap some here, refl, ltb→lt 0 r e, λ j lt. absurd (omega arith)))
  | inr e ↦
      let quiet_here : r ≡ 0 = omega (arith, ltb→le 0 r e) in
      elim (first_ready-IsLowest rs (i + 1)) [
        | inl (eq, quiet) ↦ inl (
          rw (e, first_ready, eq) refl,
          λ k. cons_IsQuiet r rs k quiet_here (λ j lt. quiet j) k (omega arith),
        )
        | inr (k, x, eq, at, busy, quiet) ↦
            let next : i + 1 + k ≡ i + suc k = omega arith in
            inr (
              suc k,
              x,
              rw (e, first_ready, eq) (ap some next),
              at,
              busy,
              cons_IsQuiet r rs k quiet_here quiet,
            )
      ]
]

-- For an answer of `poll` whose value is 0 only if no entry below the bound has events: `pollCall`
-- returns -1 if no entry below the bound has events, and otherwise the first entry that has.
pub poll_call_lem :
    (s : PollSet) (a : PollAnswer)
    → (a.value ≡ 0 → (k : ℕ) → IsQuiet (take s.max_file_descriptor a.revents) k)
    → let rs = take s.max_file_descriptor a.revents in
      ((poll_call s (some a) ≡ ok none) × ((k : ℕ) → IsQuiet rs k))
      ⊎ ((k r : ℕ) × (poll_call s (some a) ≡ ok (some k))
          × (get_elem? rs k ≡ some r)
          × (0 < r)
          × ((j : ℕ) → j < k → IsQuiet rs j))
unfolding poll_call IsLowest
poll_call_lem s a told = elim (Bool-cases (ltb 0 a.value)) [
  | inr e ↦ rw e (inl (refl, told (omega (arith, ltb→le 0 a.value e))))
  | inl e ↦ elim (first_ready-IsLowest (take s.max_file_descriptor a.revents) 0) [
    | inl (eq, quiet) ↦ inl (rw (e, eq) refl, quiet)
    | inr (k, r, eq, at, busy, quiet) ↦
        let here : 0 + k ≡ k = omega arith in
        inr (k, r, rw (e, eq) (ap (λ n. ok (some n)) here), at, busy, quiet)
  ]
]
