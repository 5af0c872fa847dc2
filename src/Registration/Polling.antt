-- ===== src/Registration/Polling.antt =====
-- `ActionResult` of tools/pkg/fccutils/tee_calls.go: up to 15 requests, two seconds apart.
pub mod Requests
use fce_extension_scaffold.Base.{
  ℕ, zero, suc, ◌+◌, ◌<◌, ◌≤◌, Bytes, str, show_nat, Bool, true, false, ◌==◌, if◌then◌else◌, Result,
  err, [], ◌++◌, ◌≡◌, refl, inl, inr, arith, Bool-cases, ==_iff, ap, ◌∙◌,
}
use native.Mathlib.Nat.{le_refl}

-- What `http.Get` gives: the status and the body, or an error.
pub data Attempt : Type 0 where
  failed : Bytes → Attempt
  answered : (status : ℕ) (body : Bytes) → Attempt

abbrev pub repeats : ℕ
repeats = 15

abbrev pub is_ok : Attempt → Bool
is_ok (failed e) = false
is_ok (answered status body) = status == 200

-- The loop: `last` is the request made before, and the rounds that are left begin with number `i`.
unfoldable pub poll_from : (ℕ → Attempt) → ℕ → ℕ → Attempt → Attempt
poll_from get zero i last = last
poll_from get (suc rounds) i last =
    let later = poll_from get rounds (i + 1) (get i) in if is_ok (get i) then get i else later

-- What is made of the last request; `decode` reads the JSON of an ActionResponse.
unfoldable pub conclude {ℓ} : {A : Type ℓ} → (Bytes → Result A) → Attempt → Result A
conclude decode (failed e) = err e
conclude decode (answered status body) =
    if status == 200
    then decode body
    else err (str "action result status not ok, got: " ++ show_nat status)

unfoldable pub action_result {ℓ} : {A : Type ℓ} → (Bytes → Result A) → (ℕ → Attempt) → Result A
unfolding conclude poll_from
action_result decode get = conclude decode (poll_from get repeats 0 (failed []))

module _ (get : ℕ → Attempt) where
  poll_from-first :
      (rounds i : ℕ) (last : Attempt) (n : ℕ)
      → i ≤ n
      → n < i + rounds
      → is_ok (get n) ≡ true
      → ((j : ℕ) → i ≤ j → j < n → is_ok (get j) ≡ false)
      → poll_from get rounds i last ≡ get n
  unfolding poll_from
  poll_from-first zero i last n low high good bad = absurd (omega arith)
  poll_from-first (suc rounds) i last n low high good bad = elim (Bool-cases (i == n)) [
    | inl e ↦ ground (arith, ap get ((==_iff i n).0 e))
    | inr e ↦
        let later =
          poll_from-first rounds (i + 1) (get i) n (ground arith) (omega arith) good
            (λ j l h. bad j (omega arith) h) in
        ground (arith, later, bad i (le_refl i) (ground arith))
  ]

  poll_from-last :
      (rounds i : ℕ) (last : Attempt)
      → ((j : ℕ) → i ≤ j → j < i + suc rounds → is_ok (get j) ≡ false)
      → poll_from get (suc rounds) i last ≡ get (i + rounds)
  unfolding poll_from
  poll_from-last zero i last bad = rw (bad i (le_refl i) (omega arith)) (ap get (omega arith))
  poll_from-last (suc rounds) i last bad = rw (bad i (le_refl i) (omega arith)) (
      poll_from-last rounds (i + 1) (get i) (λ j l h. bad j (omega arith) (omega arith))
      ∙ ap get (omega arith))

conclude_bad {ℓ} :
    {A : Type ℓ} (decode : Bytes → Result A) (a : Attempt)
    → is_ok a ≡ false
    → (e : Bytes) × (conclude decode a ≡ err e)
unfolding conclude
conclude_bad decode (failed e) h = (e, refl)
conclude_bad decode (answered status body) h =
    (str "action result status not ok, got: " ++ show_nat status, rw h)

-- If some of the 15 requests is answered with 200, the result is what the first of those says.
pub action_result-first {ℓ} :
    {A : Type ℓ} (decode : Bytes → Result A) (get : ℕ → Attempt) (n : ℕ) {body : Bytes}
    → n < repeats
    → get n ≡ answered 200 body
    → ((j : ℕ) → j < n → is_ok (get j) ≡ false)
    → action_result decode get ≡ decode body
unfolding action_result
action_result-first decode get n h good bad = ap (conclude decode) (
    poll_from-first get repeats 0 (failed []) n (omega arith) (omega arith) (ap is_ok good)
      (λ j l. bad j)
    ∙ good)

-- If none of the 15 requests is answered with 200, the result is an error.
pub action_result-err {ℓ} :
    {A : Type ℓ} (decode : Bytes → Result A) (get : ℕ → Attempt)
    → ((j : ℕ) → j < repeats → is_ok (get j) ≡ false)
    → (e : Bytes) × (action_result decode get ≡ err e)
unfolding action_result
action_result-err decode get bad =
    let (e, q) = conclude_bad decode (get (0 + 14)) (bad (0 + 14) (omega arith)) in
    (
      e,
      ap (conclude decode) (poll_from-last get 14 0 (failed []) (λ j l h. bad j (omega arith))) ∙ q,
    )
