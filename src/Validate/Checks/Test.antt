-- ===== src/Validate/Checks/Test.antt =====
-- `RegisterTestChecks` (E1, E3, E6) and `RegisterStubChecks` of checks.go.
use fce_extension_scaffold.Base.{Bytes, str, is_empty, not, if◌then◌else◌}
use fce_extension_scaffold.Validate.Report.{Report, CheckResult, pass, warn, fail, skip, add}
use fce_extension_scaffold.Validate.EnvFile.{parse_extension_env, is_address}
use fce_extension_scaffold.Validate.Checks.Common.{Host, check, plain, check_url}

abbrev test : Bytes
test = str "test"

unfoldable pub e1_check : Host → Bytes → CheckResult
e1_check host path =
    let sender = (parse_extension_env (host.open_file path)).instruction_sender in
    let name = str "INSTRUCTION_SENDER valid" in
    if is_empty path
    then plain test (str "E1") name skip (str "no --config provided")
    else if host.not_exist path
    then plain test (str "E1") name skip (str "extension.env not found — run pre-build.sh first")
    else if is_empty sender
    then check test (str "E1") name fail (str "INSTRUCTION_SENDER not set — run pre-build.sh")
        (str "Run scripts/pre-build.sh to deploy and register the extension")
    else if not (is_address sender)
    then check test (str "E1") name fail (str "INSTRUCTION_SENDER malformed")
        (str "Delete config/extension.env and re-run scripts/pre-build.sh")
    else plain test (str "E1") name pass sender

unfoldable pub e3_check : Host → CheckResult
unfolding check_url
e3_check host =
    let name = str "proxy reachable for test results" in
    check_url host (host.getenv (str "EXT_PROXY_URL"))
      (plain test (str "E3") name skip (str "EXT_PROXY_URL not set"))
      (λ url. plain test (str "E3") name pass (str "proxy reachable for test result polling"))
      (λ url.
        check test (str "E3") name warn (str "proxy not reachable — test results cannot be polled")
          (str "Start the proxy or check EXT_PROXY_URL"))

unfoldable pub e6_check : CheckResult
e6_check = plain test (str "E6") (str "OPType/OPCommand alignment info") pass (
    str
      "OPType/OPCommand hashes are validated at runtime — if a 501 error occurs, check the hash values in the error message")

unfoldable pub register_test_checks : Host → Report → Bytes → Report
register_test_checks host r path = add (add (add r (e1_check host path)) (e3_check host)) e6_check

unfoldable pub register_stub_checks : Report → (step id_range name : Bytes) → Report
register_stub_checks r step id_range name =
    add r (plain step id_range name skip (str "not yet implemented"))
