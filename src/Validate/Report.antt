-- ===== src/Validate/Report.antt =====
-- tools/pkg/validate/report.go: the report that collects the results of the checks.
pub mod Totals
pub mod Grouping
use fce_extension_scaffold.Base.{
  ℕ, suc, Bytes, str, is_empty, beq, show_nat, trim_space, Bool, true, false, not, ◌&&◌, ◌||◌, ◌==◌,
  if◌then◌else◌, List, [], ◌∷◌, ◌++◌, map, keep_if,
}

-- The `int` behind a Status; `other` stands for a value that is none of the four constants.
pub data Status : Type 0 where
  pass warn fail skip : Status
  other : ℕ → Status

pub record CheckResult : Type 0 where
  pub step : Bytes
  pub id : Bytes
  pub name : Bytes
  pub status : Status
  pub message : Bytes
  pub fix : Bytes

abbrev pub Report : Type 0
Report = List CheckResult

-- `(*Report).Add`.
abbrev pub add : Report → CheckResult → Report
add r result = r ++ result ∷ []

abbrev pub is_fail : Status → Bool
is_fail fail = true
is_fail _ = false

unfoldable pub has_failures : Report → Bool
has_failures [] = false
has_failures (res ∷ rest) =
    let later = has_failures rest in if is_fail res.status then true else later

-- `Status.String`.
unfoldable pub status_text : Status → Bytes
status_text pass = str "PASS"
status_text warn = str "WARN"
status_text fail = str "FAIL"
status_text skip = str "SKIP"
status_text (other n) = str "UNKNOWN"

-- The four counters of `Summary`.
pub record Counts : Type 0 where
  pub passed : ℕ
  pub warning : ℕ
  pub failed : ℕ
  pub skipped : ℕ

unfoldable pub count_status : Counts → Status → Counts
count_status k pass = record k { passed = suc k.passed }
count_status k warn = record k { warning = suc k.warning }
count_status k fail = record k { failed = suc k.failed }
count_status k skip = record k { skipped = suc k.skipped }
count_status k (other n) = k

unfoldable pub count_from : Counts → Report → Counts
count_from k [] = k
count_from k (res ∷ rest) = count_from (count_status k res.status) rest

unfoldable pub counts : Report → Counts
unfolding count_from
counts r = count_from (record { passed = 0; warning = 0; failed = 0; skipped = 0 }) r

unfoldable pub summary : Report → Bytes
summary r =
    let k = counts r in
    show_nat k.passed
    ++ str " passed, "
    ++ show_nat k.warning
    ++ str " warning, "
    ++ show_nat k.failed
    ++ str " failed, "
    ++ show_nat k.skipped
    ++ str " skipped"

-- The escape character that begins a terminal's color code.
abbrev escape : Bytes
escape = 27 ∷ []

color_reset : Bytes
color_reset = escape ++ str "[0m"

color_cyan : Bytes
color_cyan = escape ++ str "[36m"

status_color : Status → Bytes
status_color pass = escape ++ str "[32m"
status_color warn = escape ++ str "[33m"
status_color fail = escape ++ str "[31m"
status_color skip = escape ++ str "[90m"
status_color (other n) = color_reset

-- The map `stepLabel`, with the empty text for a missing key.
unfoldable pub step_label : Bytes → Bytes
step_label step =
    if beq step (str "deploy")
    then str "Contract Deployment"
    else if beq step (str "register")
    then str "Extension Registration"
    else if beq step (str "services")
    then str "Service Startup"
    else if beq step (str "tee-version")
    then str "TEE Version Registration"
    else if beq step (str "tee-machine")
    then str "TEE Machine Registration"
    else if beq step (str "test")
    then str "Testing"
    else []

-- The set `seen`, a list here.
unfoldable pub is_seen : Bytes → List Bytes → Bool
is_seen step [] = false
is_seen step (s ∷ seen) = beq step s || is_seen step seen

-- The steps of a report in the order of their first appearance.
unfoldable pub steps_from : List Bytes → List Bytes → Report → List Bytes
steps_from seen steps [] = steps
steps_from seen steps (res ∷ rest) =
    let new = steps_from (res.step ∷ seen) (steps ++ res.step ∷ []) rest in
    let old = steps_from seen steps rest in if not (is_seen res.step seen) then new else old

unfoldable pub unique_steps : Report → List Bytes
unfolding steps_from
unique_steps r = steps_from [] [] r

-- The results that are printed under a step.
unfoldable pub results_of : Bytes → Report → List CheckResult
results_of step r = keep_if (λ res. beq res.step step) r

print_details : CheckResult → Bytes
print_details res =
    (if is_empty res.message then [] else str "         " ++ res.message ++ str "\n")
    ++ (if is_empty res.fix then [] else str "         Fix: " ++ res.fix ++ str "\n")

-- Failures and warnings are explained.
abbrev pub is_explained : Status → Bool
is_explained fail = true
is_explained warn = true
is_explained _ = false

print_result : CheckResult → Bytes
unfolding status_color print_details
print_result res =
    str "  "
    ++ status_color res.status
    ++ str "["
    ++ status_text res.status
    ++ str "]"
    ++ color_reset
    ++ str " "
    ++ res.id
    ++ str "  "
    ++ res.name
    ++ str "\n"
    ++ (if is_explained res.status then print_details res else [])

print_results : List CheckResult → Bytes
unfolding print_result
print_results [] = []
print_results (res ∷ rest) = print_result res ++ print_results rest

print_step : Report → Bytes → Bytes
unfolding print_results step_label results_of
print_step r step =
    let label = step_label step in
    (if is_empty label then step else label)
    ++ str ":\n"
    ++ print_results (results_of step r)
    ++ str "\n"

print_steps : Report → List Bytes → Bytes
unfolding print_step
print_steps r [] = []
print_steps r (step ∷ steps) = print_step r step ++ print_steps r steps

-- `Fprint`: the bytes that it writes.
unfoldable pub fprint : Report → Bytes
unfolding print_steps color_cyan color_reset unique_steps summary
fprint r =
    str "\n"
    ++ color_cyan
    ++ str "=== Deployment Verification Report ==="
    ++ color_reset
    ++ str "\n\n"
    ++ print_steps r (unique_steps r)
    ++ summary r
    ++ str "\n"

pub record JsonResult : Type 0 where
  pub step : Bytes
  pub id : Bytes
  pub name : Bytes
  pub status : Bytes
  pub message : Bytes
  pub fix : Bytes

pub record JsonReport : Type 0 where
  pub results : List JsonResult
  pub summary : Bytes

abbrev json_result : CheckResult → JsonResult
json_result res = record {
  step = res.step;
  id = res.id;
  name = res.name;
  status = status_text res.status;
  message = trim_space res.message;
  fix = trim_space res.fix;
}

-- The value that `FprintJSON` encodes.
unfoldable pub json_report : Report → JsonReport
json_report r = record { results = map json_result r; summary = summary r }
