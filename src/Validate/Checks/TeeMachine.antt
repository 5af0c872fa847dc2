-- ===== src/Validate/Checks/TeeMachine.antt =====
-- `RegisterTeeMachineChecks` of checks.go (T1, T5, T10).
use fce_extension_scaffold.Base.{Bytes, str, beq, ◌&&◌, if◌then◌else◌, ◌++◌}
use fce_extension_scaffold.Validate.Report.{Report, CheckResult, pass, warn, skip, add}
use fce_extension_scaffold.Validate.Checks.Common.{Host, check, plain, check_url}

abbrev tee_machine : Bytes
tee_machine = str "tee-machine"

unfoldable pub t1_check : Host → CheckResult
t1_check host =
    let simulated = beq (host.getenv (str "SIMULATED_TEE")) (str "true") in
    let name = str "SIMULATED_TEE mode" in
    if simulated && beq (host.getenv (str "LOCAL_MODE")) (str "false")
    then check tee_machine (str "T1") name warn
        (str
          "SIMULATED_TEE=true on non-local deployment — machine will be registered with test attestation values. Set SIMULATED_TEE=false for real TEE hardware")
        (str "Set SIMULATED_TEE=false in .env when deploying to a real GCP TEE")
    else if simulated
    then plain tee_machine (str "T1") name pass (str "simulated TEE mode (local)")
    else plain tee_machine (str "T1") name pass (str "real attestation mode")

unfoldable pub t5_check : Host → CheckResult
unfolding check_url
t5_check host =
    let name = str "NORMAL_PROXY_URL reachable" in
    check_url host (host.getenv (str "NORMAL_PROXY_URL"))
      (plain tee_machine (str "T5") name skip (str "NORMAL_PROXY_URL not set"))
      (λ url. plain tee_machine (str "T5") name pass (str "normal proxy reachable at " ++ url))
      (λ url.
        check tee_machine (str "T5") name warn
          (str "normal proxy not reachable at "
            ++ url
            ++ str " — required for FTDC availability check")
          (str "Ensure the normal/FTDC proxy is running and NORMAL_PROXY_URL is correct in .env"))

unfoldable pub t10_check : Host → CheckResult
unfolding check_url
t10_check host =
    let name = str "host URL reachable" in
    check_url host (host.getenv (str "EXT_PROXY_URL"))
      (plain tee_machine (str "T10") name skip (str "EXT_PROXY_URL not set"))
      (λ url. plain tee_machine (str "T10") name pass (str "host URL reachable at " ++ url))
      (λ url.
        check tee_machine (str "T10") name warn
          (str "host URL not reachable at "
            ++ url
            ++ str
                " — machine will be registered with unreachable host. Data providers can't relay instructions")
          (str
            "Ensure the host is accessible and EXT_PROXY_URL or -h flag points to the right URL"))

unfoldable pub register_tee_machine_checks : Host → Report → Report
register_tee_machine_checks host r =
    add (add (add r (t1_check host)) (t5_check host)) (t10_check host)
