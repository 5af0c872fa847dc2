-- ===== src/Validate/Tests.antt =====
-- The theorems on the deployment checks on one machine and on small reports, and runs of the command
-- verify-deploy.
use fce_extension_scaffold.Base.{
  pos, ok, Bytes, str, beq, show_nat, show_ℤ, false, if◌then◌else◌, some, err, [], ◌∷◌, ◌≡◌, ◌≢◌,
  refl, ◌↔◌, All, trim_space, split_eq, scan_lines,
}
use fce_extension_scaffold.Validate.Report.{
  Status, pass, warn, fail, skip, CheckResult, Report, is_fail, unique_steps, is_seen,
}
use fce_extension_scaffold.Validate.Report.Grouping.{tally, printed, Distinct, printed-unique_steps}
use fce_extension_scaffold.Validate.EnvFile.{
  read_vars, parse_extension_env, is_extension_id, is_address, is_prefixed_hex, entry_of, set_id,
}
use fce_extension_scaffold.Validate.EnvFile.Agree.{or_empty, parse_extension_env-read_vars}
use fce_extension_scaffold.Validate.Funds.{Format, Client}
use fce_extension_scaffold.Validate.EnvFile.Written.{config_text, written_config}
use fce_extension_scaffold.Validate.Checks.Laws.Written.{both_pass, written_config-read}
use fce_extension_scaffold.Validate.Checks.{Host}
use fce_extension_scaffold.Validate.Checks.Deploy.{check_entry, check_extension_env_format}
use fce_extension_scaffold.Validate.Checks.Services.{s2_check}
use fce_extension_scaffold.Validate.Checks.TeeVersion.{v4_check}
use fce_extension_scaffold.Validate.Checks.Test.{e1_check, register_test_checks}
use fce_extension_scaffold.Validate.Checks.Laws.Agreement.{env_checks_agree}
use fce_extension_scaffold.Validate.Command.{Flags, report, run_step, filter_checks, verify_deploy}
use fce_extension_scaffold.Validate.Command.Laws.{Labelled, run_step-Labelled, verify_deploy_exit}

abbrev format : Format
format = record { hex = show_nat; address_of = λ b. 0; in_ether = show_ℤ; in_gwei = show_ℤ }

abbrev env_file : Bytes
env_file =
    str
      "# written by the deployment\nEXTENSION_ID=0x12\n\nINSTRUCTION_SENDER = 0x34\nEXTENSION_ID=0x56\n"

-- A machine in local mode, on which nothing runs.
abbrev laptop : Host
laptop = record {
  getenv = λ k. [];
  open_file = λ p. some env_file;
  not_exist = λ p. false;
  can_dial = λ p. false;
  http_get = λ u. err [];
  quote = λ b. b;
}

-- The same in LOCAL_MODE=false.
abbrev server : Host
server = record laptop { getenv = λ k. (if beq k (str "LOCAL_MODE") then str "false" else []) }

last_id_wins : (parse_extension_env (some env_file)).extension_id ≡ str "0x56"
unfolding parse_extension_env str scan_lines entry_of trim_space split_eq set_id beq
last_id_wins = refl

parse_extension_env-read_vars_example :
    ((parse_extension_env (some env_file)).extension_id
      ≡ or_empty (read_vars env_file (str "EXTENSION_ID")))
    × ((parse_extension_env (some env_file)).instruction_sender
        ≡ or_empty (read_vars env_file (str "INSTRUCTION_SENDER")))
parse_extension_env-read_vars_example = parse_extension_env-read_vars env_file

abbrev config : Bytes
config = str "config/extension.env"

config_nonempty : config ≢ []
unfolding str
config_nonempty h = cc

env_checks_agree_example :
    ((s2_check laptop config).status
      ≡ (check_entry laptop
          (str "EXTENSION_ID")
          is_extension_id
          (read_vars env_file (str "EXTENSION_ID"))).status)
    × ((v4_check laptop config).status
        ≡ (check_entry laptop
            (str "EXTENSION_ID")
            is_extension_id
            (read_vars env_file (str "EXTENSION_ID"))).status)
    × ((e1_check laptop config).status
        ≡ (check_entry laptop
            (str "INSTRUCTION_SENDER")
            is_address
            (read_vars env_file (str "INSTRUCTION_SENDER"))).status)
env_checks_agree_example = env_checks_agree laptop config env_file config_nonempty refl refl

abbrev check_of : Bytes → Status → CheckResult
check_of step status = record {
  step = step;
  id = [];
  name = [];
  status = status;
  message = [];
  fix = [];
}

abbrev four_results : Report
four_results =
    check_of (str "deploy") pass
    ∷ check_of (str "test") skip
    ∷ check_of (str "deploy") fail
    ∷ check_of (str "test") warn
    ∷ []

steps_of_four : unique_steps four_results ≡ str "deploy" ∷ str "test" ∷ []
unfolding unique_steps beq str is_seen
steps_of_four = refl

printed-unique_steps_example :
    Distinct (unique_steps four_results)
    × (tally (λ res. is_fail res.status) (printed four_results (unique_steps four_results))
        ≡ tally (λ res. is_fail res.status) four_results)
printed-unique_steps_example = printed-unique_steps (λ res. is_fail res.status) four_results

abbrev flags : Flags
flags = record { config = config; step = str "test"; checks = []; json = false }

test_step :
    run_step format laptop (err []) flags.step config
    ≡ report (register_test_checks laptop [] config)
unfolding run_step beq str
test_step = refl

run_step-Labelled_example : All Labelled (register_test_checks laptop [] config)
run_step-Labelled_example = run_step-Labelled format laptop config (err []) flags.step test_step

verify_deploy_exit_example : ((verify_deploy format laptop (err []) flags).0 ≡ 0) ↔ (
    (r : Report) × (run_step format laptop (err []) flags.step flags.config ≡ report r)
    × All (λ res. is_fail res.status ≡ false) (filter_checks flags.checks r))
verify_deploy_exit_example = verify_deploy_exit format laptop (err []) flags

-- A chain with one account, of balance 6000000000, at a gas price of 2.
abbrev account : Client
account = record {
  chain_id = ok (pos 14);
  balance_at = λ a. ok (pos 6000000000);
  suggest_gas_price = ok (some (pos 2));
  code_at = λ a. ok [];
}

abbrev sender : Bytes
sender = str "0x5918Cd58e5caf755b8584649Aa24077822F87613"

abbrev id : Bytes
id = str "0x000000000000000000000000000000000000000000000000000000000000051f"

config_written : written_config sender id ≡ some (config_text id sender)
unfolding written_config is_address is_extension_id is_prefixed_hex str
config_written = refl

written_config-read_example :
    (parse_extension_env (some (config_text id sender))
      ≡ record { extension_id = id; instruction_sender = sender })
    × (check_extension_env_format
          (record laptop { open_file = λ p. some (config_text id sender) })
          config
        ≡ both_pass sender id)
written_config-read_example =
    written_config-read (record laptop { open_file = λ p. some (config_text id sender) }) config
      sender id (config_text id sender) config_written refl
