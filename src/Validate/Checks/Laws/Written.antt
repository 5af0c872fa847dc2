-- ===== src/Validate/Checks/Laws/Written.antt =====
-- The file of scripts/pre-build.sh under the checks of checks.go.
use fce_extension_scaffold.Base.{Bytes, str, true, some, List, [], ◌∷◌, ◌≡◌, arith}
use fce_extension_scaffold.Validate.Report.{CheckResult, pass}
use fce_extension_scaffold.Validate.EnvFile.{
  Vars, is_address, is_extension_id, read_vars, parse_extension_env,
}
use fce_extension_scaffold.Validate.EnvFile.Written.{written_config, written_config-values}
use fce_extension_scaffold.Validate.Checks.Common.{Host, plain}
use fce_extension_scaffold.Validate.Checks.Deploy.{
  check_entry, check_vars, check_extension_env_format,
}

-- What D7 says of a good file.
abbrev pub both_pass : (sender id : Bytes) → List CheckResult
both_pass sender id =
    plain (str "deploy") (str "D7") (str "INSTRUCTION_SENDER in extension.env") pass sender
    ∷ plain (str "deploy") (str "D7") (str "EXTENSION_ID in extension.env") pass id
    ∷ []

check_vars-both_pass :
    (host : Host) (vars : Vars) (sender id : Bytes)
    → is_address sender ≡ true
    → is_extension_id id ≡ true
    → vars (str "INSTRUCTION_SENDER") ≡ some sender
    → vars (str "EXTENSION_ID") ≡ some id
    → check_vars host vars ≡ both_pass sender id
unfolding check_vars check_entry str
check_vars-both_pass host vars sender id address valid by_sender by_id =
    rw by_sender (rw by_id (rw address (rw valid)))

-- When pre-build.sh writes extension.env, from the lines that it took from the two commands, then
-- parseExtensionEnv reads these lines back from the file, and where the file can be opened the check D7
-- passes for both and shows them.
pub written_config-read :
    (host : Host) (path sender id file : Bytes)
    → written_config sender id ≡ some file
    → host.open_file path ≡ some file
    → (parse_extension_env (some file) ≡ record { extension_id = id; instruction_sender = sender })
      × (check_extension_env_format host path ≡ both_pass sender id)
unfolding check_extension_env_format
written_config-read host path sender id file h opened =
    let (address, valid, back, by_id, by_sender) = written_config-values sender id file h in
    (
      back,
      ground (
        arith,
        check_vars-both_pass host (read_vars file) sender id address valid by_sender by_id,
      ),
    )
