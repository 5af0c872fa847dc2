-- ===== src/Registration/Polling/Requests.antt =====
-- How many requests `ActionResult` makes before it stops.
use fce_extension_scaffold.Base.{
  ℕ, [], zero, suc, ◌+◌, ◌<◌, ◌≤◌, Bytes, true, false, ◌==◌, ==_iff, if◌then◌else◌, Result, ◌≡◌,
  sym, ap, ◌∙◌, ◌⊎◌, inl, inr, arith, Bool-cases,
}
use fce_extension_scaffold.Registration.Polling.{
  Attempt, failed, repeats, is_ok, poll_from, conclude, action_result,
}

-- The rounds of the loop that are run, of those that are left from number `i` on.
unfoldable pub rounds_run : (ℕ → Attempt) → ℕ → ℕ → ℕ
rounds_run get zero i = 0
rounds_run get (suc rounds) i =
    let later = suc (rounds_run get rounds (i + 1)) in if is_ok (get i) then 1 else later

-- The requests of `ActionResult`.
unfoldable pub requests : (ℕ → Attempt) → ℕ
unfolding rounds_run
requests get = rounds_run get repeats 0

-- The loop stops at the request `stop`, after `rounds + 1` rounds at most.
record Stopped (get : ℕ → Attempt) (rounds i : ℕ) (last : Attempt) : Type 0 where
  stop : ℕ
  count : rounds_run get (suc rounds) i + i ≡ suc stop
  from : i ≤ stop
  within : stop ≤ i + rounds
  returned : poll_from get (suc rounds) i last ≡ get stop
  failed_before : (j : ℕ) → i ≤ j → j < stop → is_ok (get j) ≡ false
  reason : (is_ok (get stop) ≡ true) ⊎ (stop ≡ i + rounds)

module _ (get : ℕ → Attempt) where
  poll_one : (i : ℕ) (last : Attempt) → poll_from get 1 i last ≡ get i
  unfolding poll_from
  poll_one i last = elim (Bool-cases (is_ok (get i))) [ inl e ↦ rw e | inr e ↦ rw e ]

  run_one : (i : ℕ) → rounds_run get 1 i ≡ 1
  unfolding rounds_run
  run_one i = elim (Bool-cases (is_ok (get i))) [ inl e ↦ rw e | inr e ↦ rw e ]

  poll_ok :
      (rounds i : ℕ) (last : Attempt)
      → is_ok (get i) ≡ true
      → (poll_from get (suc rounds) i last ≡ get i) × (rounds_run get (suc rounds) i ≡ 1)
  unfolding poll_from rounds_run
  poll_ok rounds i last e = (rw e, rw e)

  poll_failed :
      (rounds i : ℕ) (last : Attempt)
      → is_ok (get i) ≡ false
      → (poll_from get (suc rounds) i last ≡ poll_from get rounds (i + 1) (get i))
        × (rounds_run get (suc rounds) i ≡ suc (rounds_run get rounds (i + 1)))
  unfolding poll_from rounds_run
  poll_failed rounds i last e = (rw e, rw e)

  poll_stops : (rounds i : ℕ) (last : Attempt) → Stopped get rounds i last
  poll_stops zero i last = record {
    stop = i;
    count = omega (arith, run_one i);
    from = omega arith;
    within = omega arith;
    returned = poll_one i last;
    failed_before = λ j l h. absurd (omega arith);
    reason = inr (omega arith);
  }
  poll_stops (suc rounds) i last = elim (Bool-cases (is_ok (get i))) [
    | inl e ↦
        let (returns, count) = poll_ok (suc rounds) i last e in
        record {
          stop = i;
          count = omega (arith, count);
          from = omega arith;
          within = omega arith;
          returned = returns;
          failed_before = λ j l h. absurd (omega arith);
          reason = inl e;
        }
    | inr e ↦
        let (returns, count) = poll_failed (suc rounds) i last e in
        let later = poll_stops rounds (i + 1) (get i) in
        record {
          stop = later.stop;
          count = omega (arith, count, later.count);
          from = omega (arith, later.from);
          within = omega (arith, later.within);
          returned = returns ∙ later.returned;
          failed_before = λ j l h. elim (Bool-cases (i == j)) [
            | inl same ↦ ap (λ k. is_ok (get k)) (sym ((==_iff i j).0 same)) ∙ e
            | inr other ↦ later.failed_before j (ground arith) h
          ];
          reason = elim later.reason [ inl good ↦ inl good | inr all ↦ inr (omega (arith, all)) ];
        }
  ]

-- ActionResult stops: it makes at least one request and 15 at most, its result is what the last of them
-- says, all before it failed, and it makes fewer than 15 only where the last one was answered with 200.
pub action_result_stops {ℓ} :
    {A : Type ℓ} (decode : Bytes → Result A) (get : ℕ → Attempt)
    → (last : ℕ) × (requests get ≡ last + 1)
      × (requests get ≤ repeats)
      × (action_result decode get ≡ conclude decode (get last))
      × ((j : ℕ) → j < last → is_ok (get j) ≡ false)
      × ((is_ok (get last) ≡ true) ⊎ (requests get ≡ repeats))
unfolding action_result requests
action_result_stops decode get =
    let s = poll_stops get 14 0 (failed []) in
    (
      s.stop,
      omega (arith, s.count),
      omega (arith, s.count, s.within),
      ap (conclude decode) s.returned,
      λ j h. s.failed_before j (omega arith) h,
      elim s.reason [ inl good ↦ inl good | inr all ↦ inr (omega (arith, all, s.count)) ],
    )
