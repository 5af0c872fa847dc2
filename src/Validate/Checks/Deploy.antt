-- ===== src/Validate/Checks/Deploy.antt =====
-- `RegisterDeployChecks` of checks.go and the checks that it makes (D1 to D7).
use fce_extension_scaffold.Base.{
  Bytes, str, is_empty, beq, Bool, ◌==◌, if◌then◌else◌, Option, none, some, ok, err, show_ℤ, List,
  [], ◌∷◌, ◌++◌,
}
use fce_extension_scaffold.Validate.Report.{
  Report, CheckResult, pass, warn, fail, skip, add, is_seen,
}
use fce_extension_scaffold.Validate.EnvFile.{Vars, read_vars, is_address, is_extension_id}
use fce_extension_scaffold.Validate.Funds.{
  Address, Client, Format, address_not_zero, address_has_code, key_can_afford_deploy,
  deploy_gas_units,
}
use fce_extension_scaffold.Validate.Checks.Common.{Host, check, plain, is_local}

abbrev deploy : Bytes
deploy = str "deploy"

unfoldable pub add_all : Report → List CheckResult → Report
add_all r [] = r
add_all r (res ∷ rest) = add_all (add r res) rest

module _ (f : Format) where
  unfoldable pub check_not_zero : Bytes → Address → CheckResult
  check_not_zero label addr = elim (address_not_zero f addr label) [
    | some e ↦
        check deploy (str "D3") (label ++ str " address not zero") fail e
          (str "Re-run the deploy script or check deployed-addresses.json")
    | none ↦ plain deploy (str "D3") (label ++ str " address not zero") pass (f.hex addr)
  ]

  -- The first loop: the report, and the labels of zero addresses.
  unfoldable pub add_not_zero : Report → List Bytes → List (Bytes × Address) → Report × List Bytes
  unfolding check_not_zero
  add_not_zero r zeros [] = (r, zeros)
  add_not_zero r zeros ((label, addr) ∷ rest) =
      add_not_zero (add r (check_not_zero label addr)) (if addr == 0 then label ∷ zeros else zeros)
        rest

  unfoldable pub check_has_code : Option Client → Bytes → Address → CheckResult
  check_has_code client label addr = elim (address_has_code f client addr label) [
    | some e ↦
        check deploy (str "D1") (label ++ str " has deployed code") fail e
          (str "Deploy contracts or check CHAIN_URL / deployed-addresses.json")
    | none ↦
        plain deploy (str "D1") (label ++ str " has deployed code") pass
          (str "code found at " ++ f.hex addr)
  ]

  -- The second loop.
  unfoldable pub add_has_code :
      Option Client → Report → List Bytes → List (Bytes × Address) → Report
  unfolding check_has_code
  add_has_code client r zeros [] = r
  add_has_code client r zeros ((label, addr) ∷ rest) =
      add_has_code client
        (if is_seen label zeros then r else add r (check_has_code client label addr)) zeros rest

  unfoldable pub check_funds : Client → Address → CheckResult
  check_funds client key = elim (key_can_afford_deploy f (some client) key deploy_gas_units) [
    | some e ↦
        check deploy (str "D5") (str "deployer has sufficient funds") fail e
          (str "Fund the deployer account before deploying")
    | none ↦
        plain deploy (str "D5") (str "deployer has sufficient funds") pass
          (str "balance above minimum threshold")
  ]

unfoldable pub check_deployer_key_source : Host → CheckResult
check_deployer_key_source host =
    if is_empty (host.getenv (str "DEPLOYMENT_PRIVATE_KEY"))
    then (if is_local (host.getenv (str "LOCAL_MODE"))
        then plain deploy (str "D5") (str "deployer key source") pass
            (str "using Hardhat dev key (LOCAL_MODE)")
        else check deploy (str "D5") (str "deployer key source") warn
            (str
              "DEPLOYMENT_PRIVATE_KEY not set — using Hardhat dev key which has no funds on Coston2")
            (str "Set DEPLOYMENT_PRIVATE_KEY in .env to a funded account on the target network"))
    else plain deploy (str "D5") (str "deployer key source") pass
        (str "DEPLOYMENT_PRIVATE_KEY is set")

-- `chainName`, from the number's decimal text.
unfoldable pub chain_name : Bytes → Bytes
chain_name id =
    if beq id (str "31337")
    then str "Hardhat/Anvil (local devnet)"
    else if beq id (str "114")
    then str "Coston2 (testnet)"
    else if beq id (str "14")
    then str "Flare (mainnet)"
    else str "unknown network"

unfoldable pub check_chain_id : Client → CheckResult
unfolding chain_name
check_chain_id client = elim client.chain_id [
  | err e ↦
      check deploy (str "D6") (str "chain ID") fail (str "failed to get chain ID: " ++ e)
        (str "Check CHAIN_URL")
  | ok id ↦
      plain deploy (str "D6") (str "chain ID") pass
        (str "chain ID " ++ show_ℤ id ++ str " (" ++ chain_name (show_ℤ id) ++ str ")")
]

abbrev env_fix : Bytes
env_fix = str "Delete config/extension.env and re-run scripts/pre-build.sh"

-- The two entries of `CheckExtensionEnvFormat` differ in the name and the format only.
unfoldable pub check_entry : Host → Bytes → (Bytes → Bool) → Option Bytes → CheckResult
check_entry host key valid none =
    check deploy (str "D7") (key ++ str " in extension.env") fail
      (key ++ str " not found in extension.env") env_fix
check_entry host key valid (some val) =
    if valid val
    then plain deploy (str "D7") (key ++ str " in extension.env") pass val
    else check deploy (str "D7") (key ++ str " in extension.env") fail
        (key ++ str " has invalid format: " ++ host.quote val) env_fix

unfoldable pub check_vars : Host → Vars → List CheckResult
unfolding check_entry
check_vars host vars =
    check_entry host (str "INSTRUCTION_SENDER") is_address (vars (str "INSTRUCTION_SENDER"))
    ∷ check_entry host (str "EXTENSION_ID") is_extension_id (vars (str "EXTENSION_ID"))
    ∷ []

unfoldable pub check_extension_env_format : Host → Bytes → List CheckResult
unfolding check_vars
check_extension_env_format host path = elim (host.open_file path) [
  | none ↦
      plain deploy (str "D7") (str "extension.env exists") skip (str "file not found: " ++ path)
      ∷ []
  | some file ↦ check_vars host (read_vars file)
]

-- The checks after the loops over the addresses: on the key, the chain and the file.
unfoldable pub key_checks : Format → Option Client → Option Address → List CheckResult
key_checks f (some client) (some key) = check_funds f client key ∷ []
key_checks f _ _ = []

unfoldable pub chain_checks : Option Client → List CheckResult
chain_checks none = []
chain_checks (some client) = check_chain_id client ∷ []

unfoldable pub env_checks : Host → Bytes → List CheckResult
env_checks host path = if is_empty path then [] else check_extension_env_format host path

-- `addresses` and `again` are the map's entries in the orders in which the two loops meet them. The
-- key is known by its address.
unfoldable pub register_deploy_checks :
    Format
    → Host
    → Report
    → Option Client
    → Option Address
    → (addresses again : List (Bytes × Address)) → Bytes
    → Report
unfolding add_all key_checks chain_checks env_checks
register_deploy_checks f host r client key addresses again path =
    let (r1, zeros) = add_not_zero f r [] addresses in
    let r2 = add_has_code f client r1 zeros again in
    let r3 = add r2 (check_deployer_key_source host) in
    let r4 = add_all r3 (key_checks f client key) in
    let r5 = add_all r4 (chain_checks client) in add_all r5 (env_checks host path)
