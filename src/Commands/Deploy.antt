-- ===== src/Commands/Deploy.antt =====
-- tools/cmd/deploy-contract/main.go.
pub mod Preflight
use fce_extension_scaffold.Base.{
  ℕ, Bytes, str, Bool, true, false, Option, none, some, Result, ok, err, List,
}
use fce_extension_scaffold.Support.Keys.{Crypto}
use fce_extension_scaffold.Support.Addresses.{Support}
use fce_extension_scaffold.Support.Tx.{M, ◌>>=◌, ◌>>◌, continue, check, pure}
use fce_extension_scaffold.Instructions.Send.{InstructionTx, Node, deploy_instruction_sender}
use fce_extension_scaffold.Validate.Funds.{
  Address, Client, Format, address_not_zero, address_has_code, key_can_afford_deploy,
  deploy_gas_units,
}

abbrev pub manager : Bytes
manager = str "FlareTeeManager"

-- The first error, if there is one.
abbrev pub or_next : Option Bytes → Option Bytes → Option Bytes
or_next none later = later
or_next (some e) later = some e

abbrev lift : {T A : Type 0} → Result A → M T A
lift r sent = (r, sent)

unfoldable pub deploy_unless : Bool → Node → M InstructionTx (Option Address)
deploy_unless true n = pure none
deploy_unless false n = do address ← deploy_instruction_sender n; pure (some address)

module _ (f : Format) (client : Client) where
  -- The checks before the deployment, of the address of the FlareTeeManager and of the deployer's.
  unfoldable pub preflight : (tee_manager deployer : Address) → Option Bytes
  preflight tee_manager deployer = or_next (address_not_zero f tee_manager manager) (
      or_next (address_has_code f (some client) tee_manager manager)
        (key_can_afford_deploy f (some client) deployer deploy_gas_units))

  -- The command, from its flag --preflight-only and what DefaultSupport gives: the address that it
  -- prints. A failure to write it to the file of the flag -o is ignored.
  unfoldable pub deploy_contract :
      Crypto → Node → (preflight_only : Bool) → Result Support → M InstructionTx (Option Address)
  unfolding preflight deploy_unless
  deploy_contract c n preflight_only found = do
    support ← lift found
    check (preflight support.addresses.flare_tee_manager (c.key_address support.key))
    deploy_unless preflight_only n
