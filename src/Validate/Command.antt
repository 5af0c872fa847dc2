-- ===== src/Validate/Command.antt =====
-- tools/cmd/verify-deploy/main.go: the command that runs the checks of a step and prints the report.
pub mod Laws
use fce_extension_scaffold.Base.{
  ℕ, Bytes, str, is_empty, not, beq, trim_space, split_at, Bool, true, false, if◌then◌else◌, Option,
  none, some, Option-cases, Result, ok, err, List, [], ◌∷◌, ◌++◌, keep_if,
}
use fce_extension_scaffold.Validate.Report.{
  Report, CheckResult, has_failures, fprint, is_seen, JsonReport, json_report,
}
use fce_extension_scaffold.Validate.Funds.{Address, Client, Format}
use fce_extension_scaffold.Validate.Checks.{Host}
use fce_extension_scaffold.Validate.Checks.Deploy.{register_deploy_checks}
use fce_extension_scaffold.Validate.Checks.Register.{
  Handles, Registry, Allowlist, register_registration_checks,
}
use fce_extension_scaffold.Validate.Checks.Services.{register_services_checks}
use fce_extension_scaffold.Validate.Checks.TeeVersion.{register_tee_version_checks}
use fce_extension_scaffold.Validate.Checks.TeeMachine.{register_tee_machine_checks}
use fce_extension_scaffold.Validate.Checks.Test.{register_test_checks}

-- What `support.DefaultSupport` gives the command, which has no nil in it.
pub record Setup : Type 0 where
  pub client : Client
  pub key : Address
  pub registry : Registry
  pub allowlist : Allowlist
  pub tee_manager : Address

pub record Flags : Type 0 where
  pub config : Bytes
  pub step : Bytes
  pub checks : Bytes
  pub json : Bool

-- The report of a step, or the end of the process: `no_setup` where the support cannot be had, and
-- `unknown_step` for a step that the command does not have.
pub data Run : Type 0 where
  report : Report → Run
  no_setup : Run
  unknown_step : Run

abbrev handles : Setup → Handles
handles s = record {
  client = some s.client;
  key = some s.key;
  registry = some s.registry;
  allowlist = some s.allowlist;
}

module _ (f : Format) (host : Host) where
  unfoldable pub deploy_step : Setup → Bytes → Report → Report
  deploy_step s config r =
      let addresses : List (Bytes × Address) = (str "FlareTeeManager", s.tee_manager) ∷ [] in
      register_deploy_checks f host r (some s.client) (some s.key) addresses addresses config

  unfoldable pub register_step : Setup → Bytes → Report → Report
  register_step s config r = register_registration_checks f host r (handles s) config

  unfoldable pub all_steps : Setup → Bytes → Report → Report
  unfolding deploy_step register_step
  all_steps s config r =
      let r1 = deploy_step s config r in
      let r2 = register_step s config r1 in
      let r3 = register_services_checks host r2 config in
      let r4 = register_tee_version_checks host r3 config in
      let r5 = register_tee_machine_checks host r4 in register_test_checks host r5 config

  unfoldable pub with_setup : Result Setup → (Setup → Report) → Run
  with_setup (err e) steps = no_setup
  with_setup (ok s) steps = report (steps s)

  -- The `switch` over the step.
  unfoldable pub run_step : Result Setup → Bytes → Bytes → Run
  unfolding with_setup
  run_step setup step config =
      if beq step (str "deploy")
      then with_setup setup (λ s. deploy_step s config [])
      else if beq step (str "register")
      then with_setup setup (λ s. register_step s config [])
      else if beq step (str "all")
      then with_setup setup (λ s. all_steps s config [])
      else if beq step (str "services")
      then report (register_services_checks host [] config)
      else if beq step (str "tee-version")
      then report (register_tee_version_checks host [] config)
      else if beq step (str "tee-machine")
      then report (register_tee_machine_checks host [])
      else if beq step (str "test")
      then report (register_test_checks host [] config)
      else unknown_step

-- The set `allowed`: the parts of the flag that are not blank.
unfoldable pub allowed_ids : List Bytes → List Bytes
allowed_ids [] = []
allowed_ids (id ∷ ids) =
    let later = allowed_ids ids in if is_empty (trim_space id) then later else trim_space id ∷ later

unfoldable pub filter_checks : Bytes → Report → Report
filter_checks checks r =
    if is_empty checks
    then r
    else keep_if (λ res. is_seen res.id (allowed_ids (split_at b',' checks))) r

-- What goes to standard output.
pub data Output : Type 0 where
  text : Bytes → Output
  json : JsonReport → Output
  nothing : Output

unfoldable pub show_report : Bool → Report → Output
show_report true r = json (json_report r)
show_report false r = text (fprint r)

-- The exit status of the process, and its output.
unfoldable pub finish : Flags → Run → ℕ × Output
unfolding filter_checks show_report
finish flags no_setup = (1, nothing)
finish flags unknown_step = (1, nothing)
finish flags (report r) =
    let shown = filter_checks flags.checks r in
    (if has_failures shown then 1 else 0, show_report flags.json shown)

unfoldable pub verify_deploy : Format → Host → Result Setup → Flags → ℕ × Output
unfolding run_step finish
verify_deploy f host setup flags = finish flags (run_step f host setup flags.step flags.config)
