-- ===== src/Validate/Checks/Shape.antt =====
-- The shape of every result that checks.go makes.
use fce_extension_scaffold.Base.{
  Bytes, true, ◌≡◌, ◌⊎◌, List, [], ◌∷◌, ◌++◌, All, All-append, append_assoc, append-nil, sym, ◌∙◌,
  ap,
}
use fce_extension_scaffold.Validate.Report.{Report, CheckResult, add, is_explained}
use fce_extension_scaffold.Validate.Report.Totals.{is_known}

-- A result of a step, with one of the four statuses, and with a Fix only on a failure or a warning.
pub record WellFormed (step : Bytes) (res : CheckResult) : Type 0 where
  pub of_step : res.step ≡ step
  pub of_status : is_known res.status ≡ true
  pub fix_explains : (res.fix ≡ []) ⊎ (is_explained res.status ≡ true)

-- The report `after` is `before` with well-formed results of a step behind it.
abbrev pub Extends : Bytes → Report → Report → Type 0
Extends step before after =
    (new : List CheckResult) × (after ≡ before ++ new) × All (WellFormed step) new

pub Extends-refl : (step : Bytes) (r : Report) → Extends step r r
Extends-refl step r = ([], sym (append-nil r), tt)

pub Extends-add :
    (step : Bytes) (before after : Report) (res : CheckResult)
    → Extends step before after
    → WellFormed step res
    → Extends step before (add after res)
Extends-add step before after res (new, e, formed) wf = (
  new ++ res ∷ [],
  ap (λ r. r ++ res ∷ []) e ∙ append_assoc before new (res ∷ []),
  All-append (WellFormed step) new (res ∷ []) formed (wf, tt),
)
