-- ===== src/Validate/Checks/Laws/DeployForms.antt =====
-- The shape of what `RegisterDeployChecks` and `RegisterRegistrationChecks` of checks.go append.
use fce_extension_scaffold.Base.{
  ℕ, zero, suc, Bytes, str, is_empty, Bool, true, false, ◌&&◌, ◌≡◌, refl, inl, inr, List, [], ◌∷◌,
  All, All-append, arith, Option, none, some, Bool-cases, ◌==◌, if◌then◌else◌,
}
use fce_extension_scaffold.Validate.Report.{Report, CheckResult, add, is_seen}
use fce_extension_scaffold.Validate.EnvFile.{
  EnvIds, is_extension_id, is_address, parse_extension_env,
}
use fce_extension_scaffold.Validate.Funds.{Address, Client, Format}
use fce_extension_scaffold.Validate.Checks.Common.{Host}
use fce_extension_scaffold.Validate.Checks.Shape.{WellFormed, Extends, Extends-refl, Extends-add}
use fce_extension_scaffold.Validate.Checks.Deploy.{
  add_all, check_not_zero, add_not_zero, check_has_code, add_has_code, check_funds,
  check_deployer_key_source, check_chain_id, check_entry, check_vars, check_extension_env_format,
  key_checks, chain_checks, env_checks, register_deploy_checks,
}
use fce_extension_scaffold.Validate.Checks.Register.{
  Registry, Handles, Allowlist, r1_check, r2_check, r3_check, r4_check, r7_check, add_r1, add_r2,
  add_r3, add_r4, add_r7, malformed_id, registration_checks, skip_registration,
  registration_results, register_registration_checks, connected, extension_number,
}

abbrev Formed : Bytes → List CheckResult → Type 0
Formed step = All (WellFormed step)

Formed-if :
    (step : Bytes) (b : Bool) (xs ys : List CheckResult)
    → Formed step xs
    → Formed step ys
    → Formed step (if b then xs else ys)
Formed-if step true xs ys fx fy = fx
Formed-if step false xs ys fx fy = fy

Extends-add_all :
    (step : Bytes) (before after : Report) (new : List CheckResult)
    → Extends step before after
    → Formed step new
    → Extends step before (add_all after new)
unfolding add_all
Extends-add_all step before after [] ext formed = ext
Extends-add_all step before after (res ∷ rest) ext (f, fs) =
    Extends-add_all step before (add after res) rest (Extends-add step before after res ext f) fs

module _ (f : Format) (host : Host) where
  d3 : (label : Bytes) (addr : Address) → WellFormed (str "deploy") (check_not_zero f label addr)
  unfolding check_not_zero
  d3 label addr = ground arith

  d1 :
      (client : Option Client) (label : Bytes) (addr : Address)
      → WellFormed (str "deploy") (check_has_code f client label addr)
  unfolding check_has_code
  d1 client label addr = ground arith

  key_checks-Formed :
      (client : Option Client) (key : Option Address)
      → Formed (str "deploy") (key_checks f client key)
  unfolding key_checks check_funds
  key_checks-Formed (some client) (some key) = (ground arith, tt)
  key_checks-Formed (some client) none = tt
  key_checks-Formed none key = tt

  chain_checks-Formed : (client : Option Client) → Formed (str "deploy") (chain_checks client)
  unfolding chain_checks check_chain_id
  chain_checks-Formed none = tt
  chain_checks-Formed (some client) = (ground arith, tt)

  check_entry-WellFormed :
      (key : Bytes) (valid : Bytes → Bool) (val : Option Bytes)
      → WellFormed (str "deploy") (check_entry host key valid val)
  unfolding check_entry
  check_entry-WellFormed key valid none = ground arith
  check_entry-WellFormed key valid (some val) = ground arith

  check_extension_env_format-Formed :
      (path : Bytes) (file : Option Bytes)
      → host.open_file path ≡ file
      → Formed (str "deploy") (check_extension_env_format host path)
  unfolding check_extension_env_format check_vars
  check_extension_env_format-Formed path none e =
      rw (e, check_extension_env_format) (ground arith, tt)
  check_extension_env_format-Formed path (some file) e =
      rw (e, check_extension_env_format)
        (check_entry-WellFormed _ is_address _, (check_entry-WellFormed _ is_extension_id _, tt))

  env_checks-Formed : (path : Bytes) → Formed (str "deploy") (env_checks host path)
  unfolding env_checks
  env_checks-Formed path = elim (Bool-cases (is_empty path)) [
    | inl e ↦ rw (e, env_checks) tt
    | inr e ↦ rw (e, env_checks) (check_extension_env_format-Formed path (host.open_file path) refl)
  ]

  d5 : WellFormed (str "deploy") (check_deployer_key_source host)
  unfolding check_deployer_key_source
  d5 = ground arith

  add_not_zero-Extends :
      (before r : Report) (zeros : List Bytes) (addresses : List (Bytes × Address))
      → Extends (str "deploy") before r
      → Extends (str "deploy") before (add_not_zero f r zeros addresses).0
  unfolding add_not_zero
  add_not_zero-Extends before r zeros [] ext = ext
  add_not_zero-Extends before r zeros ((label, addr) ∷ rest) ext =
      add_not_zero-Extends before (add r (check_not_zero f label addr))
        (if addr == 0 then label ∷ zeros else zeros) rest
        (Extends-add _ before r (check_not_zero f label addr) ext (d3 label addr))

  add_has_code-Extends :
      (client : Option Client) (before r : Report) (zeros : List Bytes)
      (addresses : List (Bytes × Address))
      → Extends (str "deploy") before r
      → Extends (str "deploy") before (add_has_code f client r zeros addresses)
  unfolding add_has_code
  add_has_code-Extends client before r zeros [] ext = ext
  add_has_code-Extends client before r zeros ((label, addr) ∷ rest) ext =
      elim (Bool-cases (is_seen label zeros)) [
        | inl e ↦ rw (e, add_has_code) (add_has_code-Extends client before r zeros rest ext)
        | inr e ↦
            rw (e, add_has_code)
              (add_has_code-Extends client before (add r (check_has_code f client label addr)) zeros
                rest
                (Extends-add _ before r (check_has_code f client label addr) ext
                  (d1 client label addr)))
      ]

  pub register_deploy_checks-Extends :
      (r : Report) (client : Option Client) (key : Option Address)
      (addresses again : List (Bytes × Address)) (path : Bytes)
      → Extends (str "deploy") r (register_deploy_checks f host r client key addresses again path)
  unfolding register_deploy_checks
  register_deploy_checks-Extends r client key addresses again path =
      Extends-add_all _ r _ (env_checks host path)
        (Extends-add_all _ r _ (chain_checks client)
          (Extends-add_all _ r _ (key_checks f client key)
            (Extends-add _ r _ (check_deployer_key_source host)
              (add_has_code-Extends client r _ _ again
                (add_not_zero-Extends r r [] addresses (Extends-refl _ r)))
              d5)
            (key_checks-Formed client key))
          (chain_checks-Formed client))
        (env_checks-Formed path)

  -- The registration checks.
  r1-Formed : (registry : Option Registry) → Formed (str "register") (add_r1 registry).0
  unfolding add_r1 r1_check
  r1-Formed none = tt
  r1-Formed (some registry) = (ground arith, tt)

  r2-Formed :
      (sender : Bytes) (id : ℕ) (registry : Option Registry)
      → Formed (str "register") (add_r2 f sender id registry)
  unfolding add_r2 r2_check
  r2-Formed sender id none = tt
  r2-Formed sender id (some registry) = elim (Bool-cases (is_address sender)) [
    | inl e ↦ rw (e, add_r2) (ground arith, tt)
    | inr e ↦ rw (e, add_r2) tt
  ]

  r3-Formed :
      (id : ℕ) (client : Option Client) (key : Option Address) (allowlist : Option Allowlist)
      → Formed (str "register") (add_r3 id client key allowlist)
  unfolding add_r3 r3_check
  r3-Formed id (some client) (some key) (some allowlist) = (ground arith, tt)
  r3-Formed id (some client) (some key) none = tt
  r3-Formed id (some client) none allowlist = tt
  r3-Formed id none key allowlist = tt

  r4-Formed : (id : ℕ) (registry : Option Registry) → Formed (str "register") (add_r4 id registry)
  unfolding add_r4 r4_check
  r4-Formed id none = tt
  r4-Formed id (some registry) = (ground arith, tt)

  r7-Formed :
      (sender : Bytes) (counter : Option ℕ) (registry : Option Registry)
      → Formed (str "register") (add_r7 f sender counter registry)
  unfolding add_r7 r7_check
  r7-Formed sender (some (suc n)) (some registry) = elim (Bool-cases (is_address sender)) [
    | inl e ↦ rw (e, add_r7) (ground arith, tt)
    | inr e ↦ rw (e, add_r7) tt
  ]
  r7-Formed sender (some (suc n)) none = tt
  r7-Formed sender (some zero) registry = tt
  r7-Formed sender none registry = tt

  malformed-Formed : (id : Bytes) → WellFormed (str "register") (malformed_id host id)
  unfolding malformed_id
  malformed-Formed id = ground arith

  skip-Formed : (message : Bytes) → WellFormed (str "register") (skip_registration message)
  unfolding skip_registration
  skip-Formed message = ground arith

  registration_checks-Formed :
      (h : Handles) (ids : EnvIds) → Formed (str "register") (registration_checks f host h ids)
  unfolding registration_checks
  registration_checks-Formed h ids = All-append (WellFormed _) _ _ (r1-Formed (connected h)) (
      Formed-if _ (is_extension_id ids.extension_id) _ _
        (All-append (WellFormed _) _ _
          (r2-Formed ids.instruction_sender (extension_number ids.extension_id) (connected h))
          (All-append (WellFormed _) _ _
            (r3-Formed (extension_number ids.extension_id) h.client h.key h.allowlist)
            (All-append (WellFormed _) _ _
              (r4-Formed (extension_number ids.extension_id) (connected h))
              (r7-Formed ids.instruction_sender (add_r1 (connected h)).1 (connected h)))))
        (malformed-Formed ids.extension_id, tt))

  registration_results-Formed :
      (h : Handles) (path : Bytes) → Formed (str "register") (registration_results f host h path)
  unfolding registration_results
  registration_results-Formed h path =
      let ids = parse_extension_env (host.open_file path) in
      Formed-if _ (is_empty path) _ _ (skip-Formed _, tt)
        (Formed-if _ (is_empty ids.extension_id && is_empty ids.instruction_sender) _ _
          (skip-Formed _, tt) (registration_checks-Formed h ids))

  pub register_registration_checks-Extends :
      (r : Report) (h : Handles) (path : Bytes)
      → Extends (str "register") r (register_registration_checks f host r h path)
  unfolding register_registration_checks
  register_registration_checks-Extends r h path =
      Extends-add_all _ r r (registration_results f host h path) (Extends-refl _ r)
        (registration_results-Formed h path)
