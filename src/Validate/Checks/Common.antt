-- ===== src/Validate/Checks/Common.antt =====
-- What the checks of tools/pkg/validate/checks.go ask of the machine that they run on, each question
-- with one answer for the time of a run, and the parts that several of them share.
use fce_extension_scaffold.Base.{
  ℕ, Bytes, str, is_empty, beq, Bool, false, ◌||◌, ◌==◌, if◌then◌else◌, Option, Result, ok, err, [],
  ◌++◌,
}
use fce_extension_scaffold.Validate.Report.{Status, CheckResult}

pub record Host : Type 0 where
  pub getenv : Bytes → Bytes  -- os.Getenv
  pub open_file : Bytes → Option Bytes  -- os.Open, and what the file holds
  pub not_exist : Bytes → Bool  -- os.Stat with os.IsNotExist
  pub can_dial : Bytes → Bool  -- net.DialTimeout to localhost at a port
  pub http_get : Bytes → Result ℕ  -- http.Client.Get, the status code
  pub quote : Bytes → Bytes  -- the verb %q

abbrev pub check : Bytes → Bytes → Bytes → Status → Bytes → Bytes → CheckResult
check step id name status message fix = record {
  step = step;
  id = id;
  name = name;
  status = status;
  message = message;
  fix = fix;
}

-- A result with no Fix.
abbrev pub plain : Bytes → Bytes → Bytes → Status → Bytes → CheckResult
plain step id name status message = check step id name status message []

-- LOCAL_MODE is "true" or not set.
unfoldable pub is_local : Bytes → Bool
is_local mode = beq mode (str "true") || is_empty mode

-- `GET url/info` is answered with status 200.
unfoldable pub is_reachable : Host → Bytes → Bool
is_reachable host url = elim (host.http_get (url ++ str "/info")) [
  | err e ↦ false
  | ok code ↦ code == 200
]

-- The shape of the checks S9, V6, T5, T10 and E3 on a URL from the environment.
unfoldable pub check_url :
    Host → Bytes → (skipped : CheckResult) → (reached missed : Bytes → CheckResult) → CheckResult
check_url host url skipped reached missed =
    if is_empty url then skipped else if is_reachable host url then reached url else missed url
