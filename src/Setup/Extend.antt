-- ===== src/Setup/Extend.antt =====
-- `SetupExtension` of tools/pkg/fccutils/extension.go. The contracts answer by what was sent before;
-- the addresses that a run takes are the same in all its calls and are left out.
pub mod Complete
pub mod Once
use fce_extension_scaffold.Base.{
  ℕ, Bytes, str, show_nat, length, Bool, Option, none, some, Result, ok, err, List, [], ◌∷◌, ◌++◌,
}
use fce_extension_scaffold.Support.Tx.{
  Receipt, M, ◌>>=◌, ◌>>◌, continue, pure, ask, check, Chain, send_tx, send_only, wrap_error,
  ensure,
}

pub data ExtensionTx : Type 0 where
  register : ExtensionTx
  add_machine_owner : (extension_id : ℕ) → ExtensionTx  -- AddAllowedTeeMachineOwners
  add_project_owner : (extension_id : ℕ) → ExtensionTx  -- AddAllowedTeeWalletProjectOwners
  add_key_type : (extension_id : ℕ) → ExtensionTx  -- AddSupportedKeyTypes, of the EVM type

-- The contracts, and the reading of the events of a log by its number.
pub record Contracts : Type 0 where
  pub chain : Chain ExtensionTx
  pub is_machine_owner : ℕ → List ExtensionTx → Result Bool
  pub is_project_owner : ℕ → List ExtensionTx → Result Bool
  pub is_key_type_supported : ℕ → List ExtensionTx → Result Bool
  pub parse_registered : ℕ → Result ℕ  -- ParseTeeExtensionRegistered, the extension's id
  pub parse_contracts_set : ℕ → Option Bytes  -- the error of ParseTeeExtensionContractsSet
  pub parse_machine_owners : ℕ → Option Bytes  -- that of ParseAllowedTeeMachineOwnersAdded
  pub parse_project_owners : ℕ → Option Bytes  -- that of ParseAllowedTeeWalletProjectOwnersAdded

abbrev pub prefixed : Bytes → Bytes → Bytes
prefixed text e = text ++ e

unfoldable pub missing_logs : List ℕ → Bytes
missing_logs logs =
    str "expected at least 2 logs from Register() transaction, got "
    ++ show_nat (length logs)
    ++ str " — "
    ++ str "the registry contract may have changed or be behind a proxy"

module _ (c : Contracts) where
  -- The id in the first log; the second log has to parse too.
  unfoldable pub second_event : ℕ → ℕ → Result ℕ
  second_event second id = elim (c.parse_contracts_set second) [
    | some e ↦ err (str "failed to parse TeeExtensionContractsSet event: " ++ e)
    | none ↦ ok id
  ]

  unfoldable pub registered_id : List ℕ → Result ℕ
  unfolding missing_logs second_event
  registered_id [] = err (missing_logs [])
  registered_id (log ∷ []) = err (missing_logs (log ∷ []))
  registered_id (log ∷ second ∷ logs) = elim (c.parse_registered log) [
    | err e ↦ err (str "failed to parse TeeExtensionRegistered event: " ++ e)
    | ok id ↦ second_event second id
  ]

  -- `registerExtension`.
  unfoldable pub register_extension : M ExtensionTx ℕ
  unfolding registered_id
  register_extension = do
    receipt ←
        send_tx c.chain (prefixed (str "TeeExtensionRegistry.Register failed: "))
          (prefixed (str "Register transaction failed: ")) register
    λ sent. (registered_id receipt.logs, sent)

  -- The event of the first log, which has to be there.
  unfoldable pub first_event :
      (ℕ → Option Bytes) → (missing unparsed : Bytes) → List ℕ → Option Bytes
  first_event parse missing unparsed [] = some missing
  first_event parse missing unparsed (log ∷ logs) = elim (parse log) [
    | some e ↦ some (unparsed ++ e)
    | none ↦ none
  ]

  -- `allowTeeMachineOwners`, of the deployer alone.
  unfoldable pub allow_machine_owner : ℕ → M ExtensionTx (Unit {0})
  unfolding first_event
  allow_machine_owner id = do
    receipt ←
        send_tx c.chain (prefixed (str "AddAllowedTeeMachineOwners failed: "))
          (prefixed (str "AddAllowedTeeMachineOwners transaction failed: ")) (add_machine_owner id)
    check (
        first_event c.parse_machine_owners
          (str "no logs in AddAllowedTeeMachineOwners transaction — unexpected")
          (str "failed to parse AllowedTeeMachineOwnersAdded event: ") receipt.logs)

  -- `allowTeeProjectManagerOwners`, of the deployer alone.
  unfoldable pub allow_project_owner : ℕ → M ExtensionTx (Unit {0})
  unfolding first_event
  allow_project_owner id = do
    receipt ←
        send_tx c.chain (prefixed (str "AddAllowedTeeWalletProjectOwners failed: "))
          (prefixed (str "AddAllowedTeeWalletProjectOwners transaction failed: "))
          (add_project_owner id)
    check (
        first_event c.parse_project_owners
          (str "no logs in AddAllowedTeeWalletProjectOwners transaction — unexpected")
          (str "failed to parse AllowedTeeWalletProjectOwnersAdded event: ") receipt.logs)

  -- `AddSupportedKeyTypes`, of the EVM type.
  unfoldable pub add_supported_key_types : ℕ → M ExtensionTx (Unit {0})
  add_supported_key_types id = do
    check c.chain.transactor
    send_only c.chain (λ e. e) (λ e. e) (add_key_type id)

  abbrev pub half_done : (owners : Bytes) → ℕ → Bytes → Bytes
  half_done owners id e =
      str "failed adding "
      ++ owners
      ++ str " (extension exists as ID "
      ++ show_nat id
      ++ str " but owners not set): "
      ++ e

  unfoldable pub ensure_machine_owner : ℕ → M ExtensionTx (Unit {0})
  ensure_machine_owner id =
      ensure (c.is_machine_owner id) (prefixed (str "failed checking TEE machine owner status: "))
        (wrap_error (half_done (str "TEE machine owners") id) (allow_machine_owner id))

  unfoldable pub ensure_project_owner : ℕ → M ExtensionTx (Unit {0})
  ensure_project_owner id =
      ensure (c.is_project_owner id)
        (prefixed (str "failed checking wallet project owner status: "))
        (wrap_error (half_done (str "wallet project owners") id) (allow_project_owner id))

  unfoldable pub ensure_key_type : ℕ → M ExtensionTx (Unit {0})
  ensure_key_type id = ensure (c.is_key_type_supported id) (λ e. e) (add_supported_key_types id)

  -- What follows the registration.
  unfoldable pub grant : ℕ → M ExtensionTx ℕ
  grant id = do ensure_machine_owner id; ensure_project_owner id; ensure_key_type id; pure id

  -- `SetupExtension`.
  unfoldable pub setup_extension : M ExtensionTx ℕ
  setup_extension = do check c.chain.transactor; id ← register_extension; grant id
