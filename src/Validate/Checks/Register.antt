-- ===== src/Validate/Checks/Register.antt =====
-- `RegisterRegistrationChecks` of checks.go and the checks that it makes (R1 to R7).
use fce_extension_scaffold.Base.{
  ℕ, zero, suc, ◌+◌, ◌*◌, ◌-◌, ◌%◌, ◌^◌, Bytes, str, is_empty, show_nat, Bool, true, false, ◌&&◌,
  ◌==◌, ltb, leb, length, if◌then◌else◌, Option, none, some, Result, ok, err, List, [], ◌∷◌, ◌++◌,
}
use fce_extension_scaffold.Validate.Report.{Report, CheckResult, pass, warn, fail, skip}
use fce_extension_scaffold.Validate.EnvFile.{
  EnvIds, parse_extension_env, is_address, is_extension_id,
}
use fce_extension_scaffold.Validate.Funds.{Address, Client, Format}
use fce_extension_scaffold.Validate.Checks.Common.{Host, check, plain}
use fce_extension_scaffold.Validate.Checks.Deploy.{add_all}

-- What the contracts ExtensionManager and OwnerAllowlist answer. An extension's id is a uint256.
pub record Registry : Type 0 where
  pub next_public_extension_id : Result ℕ
  pub instructions_sender : ℕ → Result Address
  pub is_evm_type_supported : ℕ → Result Bool

abbrev pub Allowlist : Type 0
Allowlist = ℕ → Address → Result Bool

abbrev register : Bytes
register = str "register"

-- R1, with the counter where the call gave one.
unfoldable pub r1_check : Result ℕ → CheckResult × Option ℕ
r1_check (err e) = (
  plain register (str "R1") (str "next public extension id") fail
      (str "failed to query nextPublicExtensionId: " ++ e),
  none,
)
r1_check (ok zero) = (
  plain register (str "R1") (str "next public extension id") warn
      (str "nextPublicExtensionId is 0 — no public extensions registered yet"),
  some 0,
)
r1_check (ok (suc n)) = (
  plain register (str "R1") (str "next public extension id") pass
      (str "nextPublicExtensionId = " ++ show_nat (suc n)),
  some (suc n),
)

-- `big.Int.SetString` of hexadecimal digits.
unfoldable pub hex_digit : ℕ → ℕ
hex_digit b = if leb b b'9' then b - 48 else if leb b b'F' then b - 55 else b - 87

unfoldable pub hex_from : ℕ → Bytes → ℕ
unfolding hex_digit
hex_from n [] = n
hex_from n (b ∷ bs) = hex_from (n * 16 + hex_digit b) bs

-- The number of an EXTENSION_ID, without its first two bytes.
unfoldable pub extension_number : Bytes → ℕ
unfolding hex_from
extension_number [] = 0
extension_number (z ∷ []) = 0
extension_number (z ∷ x ∷ bs) = hex_from 0 bs

module _ (f : Format) (sender : Bytes) where
  unfoldable pub r2_check : Result Address → CheckResult
  r2_check (err e) =
      plain register (str "R2") (str "instruction sender matches on-chain") fail
        (str "failed to query instruction sender: " ++ e)
  r2_check (ok on_chain) =
      if on_chain == f.address_of sender
      then plain register (str "R2") (str "instruction sender matches on-chain") pass
          (str "on-chain sender " ++ f.hex on_chain ++ str " matches extension.env")
      else check register (str "R2") (str "instruction sender matches on-chain") fail
          (str "on-chain sender " ++ f.hex on_chain ++ str " != extension.env " ++ sender)
          (str "Re-register the extension or update extension.env")

unfoldable pub r3_check : Result Bool → CheckResult
r3_check (err e) =
    plain register (str "R3") (str "deployer is allowed TEE machine owner") fail
      (str "failed to query allowlist: " ++ e)
r3_check (ok true) =
    plain register (str "R3") (str "deployer is allowed TEE machine owner") pass
      (str "deployer is on the TEE machine owner allowlist")
r3_check (ok false) =
    check register (str "R3") (str "deployer is allowed TEE machine owner") fail
      (str "deployer is NOT on the TEE machine owner allowlist")
      (str "Run the register step to add the deployer as a TEE machine owner")

unfoldable pub r4_check : Result Bool → CheckResult
r4_check (err e) =
    plain register (str "R4") (str "EVM key type supported") fail
      (str "failed to query key type support: " ++ e)
r4_check (ok true) =
    plain register (str "R4") (str "EVM key type supported") pass
      (str "EVM key type is supported for this extension")
r4_check (ok false) =
    check register (str "R4") (str "EVM key type supported") fail
      (str "EVM key type is NOT supported for this extension")
      (str "Run the register step to add EVM key type support")

-- `counter.Int64()` as the bound of the loop: the low 64 bits, and no round where they are negative.
abbrev pub loop_bound : ℕ → ℕ
loop_bound counter = let low = counter % 2 ^ 64 in if ltb low (2 ^ 63) then low else 0

abbrev pub is_sender : Address → Result Address → Bool
is_sender expected (err e) = false
is_sender expected (ok sender) = sender == expected

-- The loop of R7 over the ids from `i`, for the rounds that are left.
unfoldable pub matching_ids : Registry → Address → ℕ → ℕ → List ℕ
matching_ids registry expected zero i = []
matching_ids registry expected (suc rounds) i =
    let later = matching_ids registry expected rounds (i + 1) in
    if is_sender expected (registry.instructions_sender i) then i ∷ later else later

-- `strings.Join` of the ids, by ", ".
unfoldable pub join_ids : List ℕ → Bytes
join_ids [] = []
join_ids (i ∷ []) = show_nat i
join_ids (i ∷ j ∷ rest) = show_nat i ++ str ", " ++ join_ids (j ∷ rest)

unfoldable pub r7_check : Bytes → List ℕ → CheckResult
unfolding join_ids
r7_check sender ids =
    if ltb 1 (length ids)
    then plain register (str "R7") (str "unique instruction sender") warn (
        str "INSTRUCTION_SENDER "
        ++ sender
        ++ str " is used by multiple extensions: "
        ++ join_ids ids)
    else plain register (str "R7") (str "unique instruction sender") pass
        (str "instruction sender is unique across registered extensions")

-- The arguments of the checks that may be nil.
pub record Handles : Type 0 where
  pub client : Option Client
  pub key : Option Address
  pub registry : Option Registry
  pub allowlist : Option Allowlist

-- The registry, where there is a client too.
abbrev pub connected : Handles → Option Registry
connected h = elim h.client [ none ↦ none | some client ↦ h.registry ]

unfoldable pub add_r1 : Option Registry → List CheckResult × Option ℕ
add_r1 none = ([], none)
add_r1 (some registry) =
    let (res, counter) = r1_check registry.next_public_extension_id in (res ∷ [], counter)

unfoldable pub add_r2 : Format → Bytes → ℕ → Option Registry → List CheckResult
add_r2 f sender id none = []
add_r2 f sender id (some registry) =
    if is_address sender then r2_check f sender (registry.instructions_sender id) ∷ [] else []

unfoldable pub add_r3 : ℕ → Option Client → Option Address → Option Allowlist → List CheckResult
add_r3 id (some client) (some key) (some allowlist) = r3_check (allowlist id key) ∷ []
add_r3 id _ _ _ = []

unfoldable pub add_r4 : ℕ → Option Registry → List CheckResult
add_r4 id none = []
add_r4 id (some registry) = r4_check (registry.is_evm_type_supported id) ∷ []

unfoldable pub add_r7 : Format → Bytes → Option ℕ → Option Registry → List CheckResult
add_r7 f sender (some (suc n)) (some registry) =
    if is_address sender
    then r7_check sender (matching_ids registry (f.address_of sender) (loop_bound (suc n)) 0) ∷ []
    else []
add_r7 f sender _ _ = []

unfoldable pub malformed_id : Host → Bytes → CheckResult
malformed_id host id =
    check register (str "R2") (str "EXTENSION_ID format") fail
      (str "malformed EXTENSION_ID: " ++ host.quote id)
      (str "Delete config/extension.env and re-run scripts/pre-build.sh")

-- The checks on the values of extension.env, in order.
unfoldable pub registration_checks : Format → Host → Handles → EnvIds → List CheckResult
unfolding add_r1 add_r2 add_r3 add_r4 add_r7 malformed_id
registration_checks f host h ids =
    let (r1, counter) = add_r1 (connected h) in
    let id = extension_number ids.extension_id in
    let later =
      add_r2 f ids.instruction_sender id (connected h)
      ++ (add_r3 id h.client h.key h.allowlist
          ++ (add_r4 id (connected h) ++ add_r7 f ids.instruction_sender counter (connected h))) in
    r1
    ++ (if is_extension_id ids.extension_id then later else malformed_id host ids.extension_id ∷ [])

-- The skipped result before the checks.
unfoldable pub skip_registration : Bytes → CheckResult
skip_registration message = plain register (str "R1-R7") (str "registration checks") skip message

unfoldable pub registration_results : Format → Host → Handles → Bytes → List CheckResult
unfolding registration_checks skip_registration
registration_results f host h path =
    let ids = parse_extension_env (host.open_file path) in
    if is_empty path
    then skip_registration (str "no --config path provided") ∷ []
    else if is_empty ids.extension_id && is_empty ids.instruction_sender
    then skip_registration (str "config/extension.env not found — run pre-build.sh first") ∷ []
    else registration_checks f host h ids

unfoldable pub register_registration_checks : Format → Host → Report → Handles → Bytes → Report
unfolding registration_results
register_registration_checks f host r h path = add_all r (registration_results f host h path)
