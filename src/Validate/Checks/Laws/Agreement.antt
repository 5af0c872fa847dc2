-- ===== src/Validate/Checks/Laws/Agreement.antt =====
-- Checks of checks.go that look at the same thing in different steps agree.
use fce_extension_scaffold.Base.{
  Bytes, str, beq, beq_iff, beq_refl, Bool, true, false, ◌≡◌, ◌≢◌, refl, ◌⊎◌, [], ◌∷◌, arith,
  Option, none, some, sym, ◌∙◌, if◌then◌else◌, subst,
}
use fce_extension_scaffold.Validate.Report.{Status, pass, warn, fail, skip}
use fce_extension_scaffold.Validate.EnvFile.{read_vars, is_extension_id, is_address}
use fce_extension_scaffold.Validate.EnvFile.Agree.{parse_extension_env-read_vars}
use fce_extension_scaffold.Validate.Checks.Common.{Host, is_local, check_url}
use fce_extension_scaffold.Validate.Checks.Deploy.{check_deployer_key_source, check_entry}
use fce_extension_scaffold.Validate.Checks.Services.{s2_check, s9_check, s10_check}
use fce_extension_scaffold.Validate.Checks.TeeVersion.{v2_check, v4_check, v6_check}
use fce_extension_scaffold.Validate.Checks.TeeMachine.{t1_check, t10_check}
use fce_extension_scaffold.Validate.Checks.Test.{e1_check, e3_check}

-- The four checks that probe EXT_PROXY_URL have the same status: skipped where the variable is not
-- set, and otherwise passed or warned about.
pub proxy_checks_agree :
    (host : Host)
    → ((s9_check host).status ≡ (v6_check host).status)
      × ((v6_check host).status ≡ (t10_check host).status)
      × ((t10_check host).status ≡ (e3_check host).status)
      × ((((s9_check host).status ≡ skip) × (host.getenv (str "EXT_PROXY_URL") ≡ []))
          ⊎ ((host.getenv (str "EXT_PROXY_URL") ≢ [])
              × (((s9_check host).status ≡ pass) ⊎ ((s9_check host).status ≡ warn))))
unfolding s9_check v6_check t10_check e3_check check_url
proxy_checks_agree host = ground arith

-- The status of a value under a format.
abbrev status_of : (Bytes → Bool) → Option Bytes → Status
status_of valid none = fail
status_of valid (some v) = if valid v then pass else fail

check_entry-status :
    (host : Host) (key : Bytes) (valid : Bytes → Bool) (v : Option Bytes)
    → (check_entry host key valid v).status ≡ status_of valid v
unfolding check_entry
check_entry-status host key valid none = refl
check_entry-status host key valid (some v) = ground arith

is_extension_id_nil : is_extension_id [] ≡ false
unfolding is_extension_id
is_extension_id_nil = refl

is_address_nil : is_address [] ≡ false
unfolding is_address
is_address_nil = refl

module _ (host : Host) (path file : Bytes) where
  s2-status :
      path ≢ []
      → host.open_file path ≡ some file
      → (s2_check host path).status
        ≡ status_of is_extension_id (read_vars file (str "EXTENSION_ID"))
  unfolding s2_check
  s2-status p o = ground (arith, is_extension_id_nil, (parse_extension_env-read_vars file).0)

  v4-status :
      path ≢ []
      → host.open_file path ≡ some file
      → host.not_exist path ≡ false
      → (v4_check host path).status
        ≡ status_of is_extension_id (read_vars file (str "EXTENSION_ID"))
  unfolding v4_check
  v4-status p o n = ground (arith, is_extension_id_nil, (parse_extension_env-read_vars file).0)

  e1-status :
      path ≢ []
      → host.open_file path ≡ some file
      → host.not_exist path ≡ false
      → (e1_check host path).status
        ≡ status_of is_address (read_vars file (str "INSTRUCTION_SENDER"))
  unfolding e1_check
  e1-status p o n = ground (arith, is_address_nil, (parse_extension_env-read_vars file).1)

  -- For a path that is not empty and a file there that exists and can be opened, the checks S2 and V4
  -- have the status of the entry EXTENSION_ID of D7, and E1 has that of its entry INSTRUCTION_SENDER.
  pub env_checks_agree :
      path ≢ []
      → host.open_file path ≡ some file
      → host.not_exist path ≡ false
      → let id =
          check_entry host
            (str "EXTENSION_ID")
            is_extension_id
            (read_vars file (str "EXTENSION_ID")) in
        let sender =
          check_entry host
            (str "INSTRUCTION_SENDER")
            is_address
            (read_vars file (str "INSTRUCTION_SENDER")) in
        ((s2_check host path).status ≡ id.status)
        × ((v4_check host path).status ≡ id.status)
        × ((e1_check host path).status ≡ sender.status)
  env_checks_agree p o n =
      let id =
        check_entry-status host (str "EXTENSION_ID") is_extension_id
          (read_vars file (str "EXTENSION_ID")) in
      let sender =
        check_entry-status host (str "INSTRUCTION_SENDER") is_address
          (read_vars file (str "INSTRUCTION_SENDER")) in
      (s2-status p o ∙ sym id, v4-status p o n ∙ sym id, e1-status p o n ∙ sym sender)

local_not_false : (mode : Bytes) → is_local mode ≡ true → beq mode (str "false") ≡ false
unfolding is_local
local_not_false [] h = empty_not_false
  where
    empty_not_false : beq [] (str "false") ≡ false
    empty_not_false = unfold beq str in refl
local_not_false (b ∷ bs) h =
    subst (λ m. beq m (str "false") ≡ false)
      (sym ((beq_iff (b ∷ bs) (str "true")).0 (ground arith))) (unfold beq str in refl)

false_not_local : is_local (str "false") ≡ false
unfolding is_local beq str
false_not_local = refl

-- Where LOCAL_MODE is "true" or not set, no check on keys and modes warns: the deployer's key, the
-- proxy's key, the owner's key and the simulated TEE all pass.
pub is_local_passes :
    (host : Host)
    → is_local (host.getenv (str "LOCAL_MODE")) ≡ true
    → ((check_deployer_key_source host).status ≡ pass)
      × ((s10_check host).status ≡ pass)
      × ((v2_check host).status ≡ pass)
      × ((t1_check host).status ≡ pass)
unfolding check_deployer_key_source s10_check v2_check t1_check
is_local_passes host local = (
  ground arith,
  ground arith,
  ground arith,
  ground (arith, local_not_false (host.getenv (str "LOCAL_MODE"))),
)

-- Where LOCAL_MODE is "false" and no key is set, each of the three checks on keys warns.
pub remote_keys_warn :
    (host : Host)
    → host.getenv (str "LOCAL_MODE") ≡ str "false"
    → host.getenv (str "DEPLOYMENT_PRIVATE_KEY") ≡ []
    → host.getenv (str "EXTENSION_OWNER_KEY") ≡ []
    → host.getenv (str "PROXY_PRIVATE_KEY") ≡ []
    → ((check_deployer_key_source host).status ≡ warn)
      × ((s10_check host).status ≡ warn)
      × ((v2_check host).status ≡ warn)
unfolding check_deployer_key_source s10_check v2_check
remote_keys_warn host m d o p = (
  ground (arith, false_not_local),
  ground (arith, false_not_local, beq_refl (str "false")),
  ground (arith, false_not_local),
)
