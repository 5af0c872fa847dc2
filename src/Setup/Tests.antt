-- ===== src/Setup/Tests.antt =====
-- The theorems on versions, governance and the setup of an extension on chains where all goes well.
use fce_extension_scaffold.Base.{
  ℕ, ◌+◌, ap, ==_iff, ◌<◌, ◌≤◌, ◌^◌, ◌==◌, ◌||◌, Bytes, Bool, str, length, replicate, ◌++◌, true,
  false, none, Result, ok, err, List, [], ◌∷◌, ◌≡◌, ◌≢◌, refl, arith, ◌⊎◌, ◌↔◌,
}
use fce_extension_scaffold.Support.Tx.{Chain, check_tx, send_tx, send_only, ensure}
use fce_extension_scaffold.Setup.Version.{
  string_to_bytes32, bytes32_to_string, bytes32_to_string-string_to_bytes32, VersionTx,
  add_tee_version_tx, forgive, add_unless, allow_tee_version,
}
use fce_extension_scaffold.Setup.Version.Again.{allow_tee_version_idempotent}
use fce_extension_scaffold.Setup.Governance.{
  Address, Hash, GovernanceTx, set_new_tee_governance, Governance, parse_signers, parse_threshold,
  invalid_arguments, set_tee_governance, hash_of, send_unless_current, send_governance,
}
use fce_extension_scaffold.Setup.Governance.Laws.{
  parsed_arguments, set_tee_governance-sent, set_tee_governance_idempotent,
}
use fce_extension_scaffold.Setup.Extend.{
  ExtensionTx, add_machine_owner, add_project_owner, add_key_type, Contracts, setup_extension,
  register_extension, registered_id, second_event, grant, ensure_machine_owner,
  ensure_project_owner, ensure_key_type, allow_machine_owner, allow_project_owner,
  add_supported_key_types, first_event,
}
use fce_extension_scaffold.Setup.Extend.Once.{registrations, setup_extension-registers_once}
use fce_extension_scaffold.Setup.Extend.Complete.{IsSetUp, setup_extension-IsSetUp}

bytes32_to_string-string_to_bytes32_example :
    (b : Bytes) × (string_to_bytes32 (λ q. q) (118 ∷ 49 ∷ []) ≡ ok b)
    × (length b ≡ 32)
    × (bytes32_to_string b ≡ 118 ∷ 49 ∷ [])
bytes32_to_string-string_to_bytes32_example =
    bytes32_to_string-string_to_bytes32 (λ q. q) (118 ∷ 49 ∷ []) (omega arith)
      ((omega arith, omega arith), ((omega arith, omega arith), tt))

-- A chain that mines every transaction with two logs, 7 and 8.
abbrev chain : (T : Type 0) → Chain T
chain T = record {
  transactor = none;
  send = λ sent tx. ok (ok (record { status = 1; logs = 7 ∷ 8 ∷ [] }));
  tx_hash = λ tx. [];
  failing_message = λ sent tx. ok [];
}

parsed_arguments_example :
    let parsed = parse_signers length (str "0xa, ,0xbb") 5 in
    let t = parse_threshold (str " 2") in
    (0 < length parsed)
    × (0 < t)
    × (t < 2 ^ 64)
    × ((invalid_arguments parsed t ≡ none) ↔ (t ≤ length parsed))
parsed_arguments_example = parsed_arguments length (str "0xa, ,0xbb") (str " 2") 5

-- A contract whose hash of a governance is the sum of its parts, and which has the latest one.
abbrev hash_of_tx : GovernanceTx → Hash
hash_of_tx (set_new_tee_governance signers threshold) = length signers + threshold

abbrev latest : List GovernanceTx → Result Hash
latest [] = err (str "none yet")
latest (tx ∷ sent) = ok (hash_of_tx tx)

abbrev governance : Governance
governance = record {
  chain = chain GovernanceTx;
  latest_hash = latest;
  governance_hash = λ signers threshold. ok (length signers + threshold);
}

abbrev signers : List Address
signers = 4 ∷ 5 ∷ []

set_tee_governance-sent_example :
    ((set_tee_governance governance signers 2 []).1 ≡ [])
    ⊎ (((set_tee_governance governance signers 2 []).1 ≡ set_new_tee_governance signers 2 ∷ [])
        × (0 < 2)
        × (2 ≤ length signers)
        × ((h : Hash) × (governance.governance_hash signers 2 ≡ ok h) × (latest [] ≢ ok h)))
set_tee_governance-sent_example = set_tee_governance-sent governance signers 2 []

set_tee_governance_idempotent_example :
    let after = (set_tee_governance governance signers 2 []).1 in
    set_tee_governance governance signers 2 after ≡ (ok tt, after)
unfolding set_tee_governance hash_of send_unless_current send_governance send_only send_tx check_tx
    invalid_arguments
set_tee_governance_idempotent_example =
    set_tee_governance_idempotent governance signers 2 4 [] refl refl refl

-- Contracts that answer by what was added.
abbrev had : (ExtensionTx → Bool) → List ExtensionTx → Bool
had test [] = false
had test (tx ∷ sent) = test tx || had test sent

abbrev adds_machine_owner : ℕ → ExtensionTx → Bool
adds_machine_owner id (add_machine_owner j) = id == j
adds_machine_owner id _ = false

abbrev adds_project_owner : ℕ → ExtensionTx → Bool
adds_project_owner id (add_project_owner j) = id == j
adds_project_owner id _ = false

abbrev adds_key_type : ℕ → ExtensionTx → Bool
adds_key_type id (add_key_type j) = id == j
adds_key_type id _ = false

abbrev contracts : Contracts
contracts = record {
  chain = chain ExtensionTx;
  is_machine_owner = λ id sent. ok (had (adds_machine_owner id) sent);
  is_project_owner = λ id sent. ok (had (adds_project_owner id) sent);
  is_key_type_supported = λ id sent. ok (had (adds_key_type id) sent);
  parse_registered = λ log. ok log;
  parse_contracts_set = λ log. none;
  parse_machine_owners = λ log. none;
  parse_project_owners = λ log. none;
}

had-made : (id : ℕ) (b : Bool) → (id == id) || b ≡ true
had-made id b = ground (arith, ==_iff id id)

had-lasts :
    (a b : Bool)
    → ◌≡◌ {A = Result Bool} (ok b) (ok true)
    → ◌≡◌ {A = Result Bool} (ok (a || b)) (ok true)
had-lasts a b h = ground arith

setup_succeeds : (setup_extension contracts []).0 ≡ ok 7
unfolding setup_extension register_extension registered_id second_event grant ensure_machine_owner
    ensure_project_owner ensure_key_type allow_machine_owner allow_project_owner
    add_supported_key_types first_event ensure send_only send_tx check_tx
setup_succeeds = refl

setup_extension-IsSetUp_example : IsSetUp contracts 7 (setup_extension contracts []).1
setup_extension-IsSetUp_example =
    setup_extension-IsSetUp contracts (λ id s. ap ok (had-made id (had (adds_machine_owner id) s)))
      (λ id tx s. had-lasts (adds_machine_owner id tx) (had (adds_machine_owner id) s))
      (λ id s. ap ok (had-made id (had (adds_project_owner id) s)))
      (λ id tx s. had-lasts (adds_project_owner id tx) (had (adds_project_owner id) s))
      (λ id s. ap ok (had-made id (had (adds_key_type id) s))) [] setup_succeeds

setup_extension-registers_once_example :
    (registrations (setup_extension contracts []).1 ≤ registrations [] + 1)
    × ((id : ℕ)
        → (setup_extension contracts []).0 ≡ ok id
        → registrations (setup_extension contracts []).1 ≡ registrations [] + 1)
setup_extension-registers_once_example = setup_extension-registers_once contracts []

abbrev added_version : Bytes
added_version = str "v1" ++ replicate {A = ℕ} 30 0

abbrev is_supported : List VersionTx → Result Bool
is_supported [] = ok false
is_supported (tx ∷ sent) = ok true

version_added : (allow_tee_version (chain VersionTx) is_supported (λ v. v) (str "v1") []).0 ≡ ok tt
unfolding allow_tee_version add_tee_version_tx add_unless forgive string_to_bytes32 send_only
    send_tx check_tx str
version_added = refl

version_fits : string_to_bytes32 (λ v. v) (str "v1") ≡ ok added_version
unfolding string_to_bytes32 str
version_fits = refl

allow_tee_version_idempotent_example :
    let after = (allow_tee_version (chain VersionTx) is_supported (λ v. v) (str "v1") []).1 in
    allow_tee_version (chain VersionTx) is_supported (λ v. v) (str "v1") after ≡ (ok tt, after)
allow_tee_version_idempotent_example =
    allow_tee_version_idempotent (chain VersionTx) is_supported (λ v. v) (str "v1") added_version []
      version_fits refl version_added
