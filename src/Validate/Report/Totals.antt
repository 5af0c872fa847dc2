-- ===== src/Validate/Report/Totals.antt =====
-- The counters and the exit condition of report.go.
use fce_extension_scaffold.Base.{
  ℕ, suc, ◌+◌, ◌<◌, ◌≡◌, ◌↔◌, Bool, true, false, [], ◌∷◌, arith, if◌then◌else◌,
}
use fce_extension_scaffold.Validate.Report.{
  Status, other, Report, is_fail, has_failures, Counts, count_status, count_from, counts,
}

abbrev pub is_known : Status → Bool
is_known (other n) = false
is_known _ = true

-- How many results have one of the four constants as their status.
abbrev pub known : Report → ℕ
known [] = 0
known (res ∷ rest) = let later = known rest in if is_known res.status then suc later else later

abbrev pub failures : Report → ℕ
failures [] = 0
failures (res ∷ rest) = let later = failures rest in if is_fail res.status then suc later else later

abbrev pub total : Counts → ℕ
total k = k.passed + k.warning + k.failed + k.skipped

total-count_status :
    (k : Counts) (s : Status)
    → total (count_status k s) ≡ (if is_known s then suc (total k) else total k)
unfolding count_status
total-count_status k s = ground arith

failed-count_status :
    (k : Counts) (s : Status)
    → (count_status k s).failed ≡ (if is_fail s then suc k.failed else k.failed)
unfolding count_status
failed-count_status k s = ground arith

count_from-total : (k : Counts) (r : Report) → total (count_from k r) ≡ total k + known r
unfolding count_from
count_from-total k [] = omega arith
count_from-total k (res ∷ rest) =
    ground
      (arith, count_from-total (count_status k res.status) rest, total-count_status k res.status)

count_from-failed : (k : Counts) (r : Report) → (count_from k r).failed ≡ k.failed + failures r
unfolding count_from
count_from-failed k [] = omega arith
count_from-failed k (res ∷ rest) =
    ground
      (arith, count_from-failed (count_status k res.status) rest, failed-count_status k res.status)

has_failures-failures : (r : Report) → (has_failures r ≡ true) ↔ (0 < failures r)
unfolding has_failures
has_failures-failures [] = ground arith
has_failures-failures (res ∷ rest) = ground (arith, has_failures-failures rest)

-- The four numbers of the summary add up to the number of results with one of the four statuses.
pub counts-total : (r : Report) → total (counts r) ≡ known r
unfolding counts
counts-total r = omega (arith, count_from-total _ r)

-- The report has failures exactly when the summary's number of failures is not 0.
pub has_failures_iff : (r : Report) → (has_failures r ≡ true) ↔ (0 < (counts r).failed)
unfolding counts
has_failures_iff r = ground (
  arith,
  has_failures-failures r,
  count_from-failed (record { passed = 0; warning = 0; failed = 0; skipped = 0 }) r,
)
