-- ===== src/Validate/Report/Grouping.antt =====
-- `Fprint` of report.go groups the results by step: each is printed once, under its own step.
use fce_extension_scaffold.Base.{
  ℕ, suc, ◌+◌, ◌≡◌, refl, sym, ap, ◌∙◌, Bool, true, false, ◌&&◌, ◌||◌, List, [], ◌∷◌, ◌++◌, arith,
  Bytes, beq, beq_iff, beq_refl, subst, if◌then◌else◌, keep_if, All, Bool-cases, inl, inr,
}
use fce_extension_scaffold.Validate.Report.{
  CheckResult, Report, is_seen, steps_from, unique_steps, results_of,
}

-- How many elements pass a test.
abbrev pub tally : (CheckResult → Bool) → List CheckResult → ℕ
tally p [] = 0
tally p (x ∷ xs) = let later = tally p xs in if p x then suc later else later

-- The results in the order in which the steps are printed.
abbrev pub printed : Report → List Bytes → List CheckResult
printed r [] = []
printed r (step ∷ steps) = results_of step r ++ printed r steps

-- No step occurs twice.
abbrev pub Distinct : List Bytes → Type 0
Distinct [] = Unit
Distinct (s ∷ steps) = (is_seen s steps ≡ false) × Distinct steps

tally-append :
    (p : CheckResult → Bool) (xs ys : List CheckResult)
    → tally p (xs ++ ys) ≡ tally p xs + tally p ys
tally-append p [] ys = omega arith
tally-append p (x ∷ xs) ys = ground (arith, tally-append p xs ys)

tally-keep_if :
    (p q : CheckResult → Bool) (xs : List CheckResult)
    → tally p (keep_if q xs) ≡ tally (λ x. q x && p x) xs
tally-keep_if p q [] = refl
tally-keep_if p q (x ∷ xs) = ground (arith, tally-keep_if p q xs)

tally_split :
    (p : CheckResult → Bool) (step : Bytes) (steps : List Bytes) (xs : List CheckResult)
    → is_seen step steps ≡ false
    → tally (λ x. beq x.step step && p x) xs + tally (λ x. is_seen x.step steps && p x) xs
      ≡ tally (λ x. is_seen x.step (step ∷ steps) && p x) xs
unfolding is_seen
tally_split p step steps [] h = omega arith
tally_split p step steps (x ∷ xs) h = elim (Bool-cases (beq x.step step)) [
  | inl e ↦
      ground (
        arith,
        tally_split p step steps xs h,
        ap (λ s. is_seen s steps) ((beq_iff x.step step).0 e),
      )
  | inr e ↦ ground (arith, tally_split p step steps xs h)
]

tally_none :
    (p : CheckResult → Bool) (xs : List CheckResult) → tally (λ x. is_seen x.step [] && p x) xs ≡ 0
unfolding is_seen
tally_none p [] = refl
tally_none p (x ∷ xs) = tally_none p xs

tally-printed :
    (p : CheckResult → Bool) (r : Report) (steps : List Bytes)
    → Distinct steps
    → tally p (printed r steps) ≡ tally (λ x. is_seen x.step steps && p x) r
unfolding results_of
tally-printed p r [] d = sym (tally_none p r)
tally-printed p r (step ∷ steps) (new, d) = omega (
  arith,
  tally-append p (keep_if (λ x. beq x.step step) r) (printed r steps),
  tally-keep_if p (λ x. beq x.step step) r,
  tally-printed p r steps d,
  tally_split p step steps r new,
)

is_seen-append :
    (x : Bytes) (steps : List Bytes) (s : Bytes)
    → is_seen x (steps ++ s ∷ []) ≡ (is_seen x steps || beq x s)
unfolding is_seen
is_seen-append x [] s = ground arith
is_seen-append x (t ∷ steps) s = ground (arith, is_seen-append x steps s)

beq_comm : (x y : Bytes) → beq x y ≡ beq y x
beq_comm x y = ground (arith, beq_iff x y, beq_iff y x)

Distinct-append :
    (steps : List Bytes) (s : Bytes)
    → Distinct steps
    → is_seen s steps ≡ false
    → Distinct (steps ++ s ∷ [])
unfolding is_seen
Distinct-append [] s d h = (refl, tt)
Distinct-append (t ∷ steps) s (new, d) h = (
  ground (arith, is_seen-append t steps s, beq_comm t s),
  Distinct-append steps s d (ground arith),
)

-- Every step of a list was seen.
abbrev Covers : List Bytes → Report → Type 0
Covers steps = All (λ res. is_seen res.step steps ≡ true)

steps_from-Distinct :
    (seen steps : List Bytes) (r : Report)
    → ((x : Bytes) → is_seen x seen ≡ is_seen x steps)
    → Distinct steps
    → Distinct (steps_from seen steps r)
unfolding steps_from is_seen
steps_from-Distinct seen steps [] same d = d
steps_from-Distinct seen steps (res ∷ rest) same d = elim (Bool-cases (is_seen res.step seen)) [
  | inl old ↦ rw old (steps_from-Distinct seen steps rest same d)
  | inr new ↦ rw new (
      steps_from-Distinct (res.step ∷ seen) (steps ++ res.step ∷ []) rest
        (λ x. ground (arith, same x, is_seen-append x steps res.step))
        (Distinct-append steps res.step d (sym (same res.step) ∙ new)))
]

-- What was collected stays, and every later step is collected.
steps_from_keeps :
    (seen steps : List Bytes) (r : Report) (x : Bytes)
    → is_seen x steps ≡ true
    → is_seen x (steps_from seen steps r) ≡ true
unfolding steps_from
steps_from_keeps seen steps [] x h = h
steps_from_keeps seen steps (res ∷ rest) x h = elim (Bool-cases (is_seen res.step seen)) [
  | inl old ↦ rw old (steps_from_keeps seen steps rest x h)
  | inr new ↦ rw new (
      steps_from_keeps (res.step ∷ seen) (steps ++ res.step ∷ []) rest x
        (ground (arith, is_seen-append x steps res.step)))
]

steps_from_old :
    (seen steps : List Bytes) (res : CheckResult) (rest : Report)
    → is_seen res.step seen ≡ true
    → steps_from seen steps (res ∷ rest) ≡ steps_from seen steps rest
unfolding steps_from
steps_from_old seen steps res rest h = rw h

steps_from_new :
    (seen steps : List Bytes) (res : CheckResult) (rest : Report)
    → is_seen res.step seen ≡ false
    → steps_from seen steps (res ∷ rest)
      ≡ steps_from (res.step ∷ seen) (steps ++ res.step ∷ []) rest
unfolding steps_from
steps_from_new seen steps res rest h = rw h

steps_from-Covers :
    (seen steps : List Bytes) (r : Report)
    → ((x : Bytes) → is_seen x seen ≡ is_seen x steps)
    → Covers (steps_from seen steps r) r
unfolding is_seen
steps_from-Covers seen steps [] same = tt
steps_from-Covers seen steps (res ∷ rest) same = elim (Bool-cases (is_seen res.step seen)) [
  | inl old ↦
      subst (λ t. Covers t (res ∷ rest)) (sym (steps_from_old seen steps res rest old))
        (
          steps_from_keeps seen steps rest res.step (sym (same res.step) ∙ old),
          steps_from-Covers seen steps rest same,
        )
  | inr new ↦
      subst (λ t. Covers t (res ∷ rest)) (sym (steps_from_new seen steps res rest new))
        (
          steps_from_keeps (res.step ∷ seen) (steps ++ res.step ∷ []) rest res.step
              (ground (arith, is_seen-append res.step steps res.step, beq_refl res.step)),
          steps_from-Covers (res.step ∷ seen) (steps ++ res.step ∷ []) rest
              (λ x. ground (arith, same x, is_seen-append x steps res.step)),
        )
]

tally-Covers :
    (p : CheckResult → Bool) (steps : List Bytes) (r : Report)
    → Covers steps r
    → tally (λ x. is_seen x.step steps && p x) r ≡ tally p r
tally-Covers p steps [] h = refl
tally-Covers p steps (res ∷ rest) (h, hs) = ground (arith, tally-Covers p steps rest hs)

-- No step is printed twice, and the results under the printed steps are those of the report, each as
-- often: by any test, as many of them pass.
pub printed-unique_steps :
    (p : CheckResult → Bool) (r : Report)
    → Distinct (unique_steps r) × (tally p (printed r (unique_steps r)) ≡ tally p r)
unfolding unique_steps
printed-unique_steps p r =
    let distinct : Distinct (steps_from [] [] r) = steps_from-Distinct [] [] r (λ x. refl) tt in
    (
      distinct,
      tally-printed p r (steps_from [] [] r) distinct
          ∙ tally-Covers p (steps_from [] [] r) r (steps_from-Covers [] [] r (λ x. refl)),
    )
