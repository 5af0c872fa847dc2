-- ===== src/Validate/Checks/TeeVersion.antt =====
-- `RegisterTeeVersionChecks` of checks.go (V2, V4, V6).
use fce_extension_scaffold.Base.{Bytes, str, is_empty, not, if◌then◌else◌, ◌++◌}
use fce_extension_scaffold.Validate.Report.{Report, CheckResult, pass, warn, fail, skip, add}
use fce_extension_scaffold.Validate.EnvFile.{parse_extension_env, is_extension_id}
use fce_extension_scaffold.Validate.Checks.Common.{Host, check, plain, is_local, check_url}

abbrev tee_version : Bytes
tee_version = str "tee-version"

unfoldable pub v2_check : Host → CheckResult
v2_check host =
    let name = str "extension owner key" in
    if not (is_empty (host.getenv (str "EXTENSION_OWNER_KEY")))
    then plain tee_version (str "V2") name pass (str "EXTENSION_OWNER_KEY is configured")
    else if not (is_empty (host.getenv (str "DEPLOYMENT_PRIVATE_KEY")))
    then plain tee_version (str "V2") name pass
        (str "using DEPLOYMENT_PRIVATE_KEY (EXTENSION_OWNER_KEY not set)")
    else if not (is_local (host.getenv (str "LOCAL_MODE")))
    then check tee_version (str "V2") name warn
        (str
          "neither EXTENSION_OWNER_KEY nor DEPLOYMENT_PRIVATE_KEY set — AddTeeVersion will use dev key which isn't the extension owner on Coston2")
        (str "Set EXTENSION_OWNER_KEY or DEPLOYMENT_PRIVATE_KEY in .env")
    else plain tee_version (str "V2") name pass (str "using dev key (local mode)")

-- `parseExtensionEnv` returns no error, so the branch for one is left out.
unfoldable pub v4_check : Host → Bytes → CheckResult
v4_check host path =
    let id = (parse_extension_env (host.open_file path)).extension_id in
    let name = str "EXTENSION_ID valid" in
    let fix = str "Delete config/extension.env and re-run scripts/pre-build.sh" in
    if is_empty path
    then plain tee_version (str "V4") name skip (str "no --config provided")
    else if is_empty id
    then (if host.not_exist path
        then plain tee_version (str "V4") name skip
            (str "extension.env not found — run pre-build.sh first")
        else check tee_version (str "V4") name fail (str "EXTENSION_ID not set") fix)
    else if not (is_extension_id id)
    then check tee_version (str "V4") name fail (str "EXTENSION_ID malformed") fix
    else plain tee_version (str "V4") name pass id

unfoldable pub v6_check : Host → CheckResult
unfolding check_url
v6_check host =
    let name = str "proxy reachable" in
    check_url host (host.getenv (str "EXT_PROXY_URL"))
      (plain tee_version (str "V6") name skip
        (str "EXT_PROXY_URL not set — allow-tee-version uses -p flag"))
      (λ url. plain tee_version (str "V6") name pass (str "proxy reachable at " ++ url))
      (λ url.
        check tee_version (str "V6") name warn
          (str "proxy not reachable at " ++ url ++ str " — start services first")
          (str "Start the proxy or check EXT_PROXY_URL"))

unfoldable pub register_tee_version_checks : Host → Report → Bytes → Report
register_tee_version_checks host r path =
    add (add (add r (v2_check host)) (v4_check host path)) (v6_check host)
