-- ===== src/Validate/Checks/Services.antt =====
-- `RegisterServicesChecks` of checks.go (S2, S5, S7, S9, S10).
use fce_extension_scaffold.Base.{Bytes, str, is_empty, beq, ◌&&◌, ◌||◌, not, if◌then◌else◌, ◌++◌}
use fce_extension_scaffold.Validate.Report.{Report, CheckResult, pass, warn, fail, skip, add}
use fce_extension_scaffold.Validate.EnvFile.{parse_extension_env, is_extension_id}
use fce_extension_scaffold.Validate.Checks.Common.{Host, check, plain, is_local, check_url}

abbrev services : Bytes
services = str "services"

unfoldable pub s2_check : Host → Bytes → CheckResult
s2_check host path =
    let id = (parse_extension_env (host.open_file path)).extension_id in
    let name = str "EXTENSION_ID is set and well-formed" in
    let fix = str "Delete config/extension.env and re-run scripts/pre-build.sh" in
    if is_empty path
    then plain services (str "S2") name skip (str "run pre-build.sh first")
    else if is_empty id
    then check services (str "S2") name fail
        (str "EXTENSION_ID is empty or not found in extension.env") fix
    else if not (is_extension_id id)
    then check services (str "S2") name fail
        (str "EXTENSION_ID has invalid format: " ++ host.quote id) fix
    else plain services (str "S2") name pass id

unfoldable pub s5_check : Host → CheckResult
s5_check host =
    let set = host.getenv (str "EXTENSION_PORT") in
    let port = if is_empty set then str "7702" else set in
    let name = str "extension port not in use" in
    if host.can_dial port
    then check services (str "S5") name warn
        (str "port " ++ port ++ str " is already in use — extension server will fail to bind")
        (str "Stop the process using that port or change EXTENSION_PORT")
    else plain services (str "S5") name pass (str "port available")

unfoldable pub s7_check : Host → CheckResult
s7_check host =
    let ext = host.getenv (str "EXTENSION_PORT") in
    let sign = host.getenv (str "SIGN_PORT") in
    plain services (str "S7") (str "port configuration") pass (
      if not (is_empty ext) || not (is_empty sign)
      then str "EXTENSION_PORT=" ++ ext ++ str ", SIGN_PORT=" ++ sign
      else str "using defaults (standalone: 8080/9090, Docker: 7702/7701)")

unfoldable pub s9_check : Host → CheckResult
unfolding check_url
s9_check host =
    let name = str "EXT_PROXY_URL reachable" in
    check_url host (host.getenv (str "EXT_PROXY_URL"))
      (plain services (str "S9") name skip (str "EXT_PROXY_URL not set"))
      (λ url. plain services (str "S9") name pass (str "proxy reachable at " ++ url))
      (λ url.
        check services (str "S9") name warn
          (str "proxy not reachable at " ++ url ++ str " — is the proxy running?")
          (str "Start the proxy or check EXT_PROXY_URL"))

unfoldable pub s10_check : Host → CheckResult
s10_check host =
    let mode = host.getenv (str "LOCAL_MODE") in
    let name = str "PROXY_PRIVATE_KEY set on non-local" in
    if is_local mode
    then plain services (str "S10") name pass (str "local mode, dev key OK")
    else if beq mode (str "false") && is_empty (host.getenv (str "PROXY_PRIVATE_KEY"))
    then check services (str "S10") name warn
        (str "PROXY_PRIVATE_KEY not set in non-local mode — proxy will use default key")
        (str "Set PROXY_PRIVATE_KEY in .env for non-local deployments")
    else plain services (str "S10") name pass (str "PROXY_PRIVATE_KEY is configured")

unfoldable pub register_services_checks : Host → Report → Bytes → Report
register_services_checks host r path =
    add
      (add (add (add (add r (s2_check host path)) (s5_check host)) (s7_check host)) (s9_check host))
      (s10_check host)
