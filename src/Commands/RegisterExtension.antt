-- ===== src/Commands/RegisterExtension.antt =====
-- tools/cmd/register-extension/main.go: its run, and the text of the extension's id that it prints.
pub mod Printed
pub mod Complete
pub mod Written
use fce_extension_scaffold.Base.{
  ℕ, Bytes, str, is_empty, if◌then◌else◌, Option, some, Result, ok, err, List, ◌++◌,
}
use fce_extension_scaffold.Base.Hex.Print.{show_hex}
use fce_extension_scaffold.Support.Addresses.{Support}
use fce_extension_scaffold.Support.Tx.{M, ◌>>=◌, ◌>>◌, continue, check, pure}
use fce_extension_scaffold.Setup.Extend.{ExtensionTx, Contracts, setup_extension}
use fce_extension_scaffold.Validate.Funds.{Address, Client, Format, address_has_code}

-- `0x%064x` of the id.
unfoldable pub extension_id_text : ℕ → Bytes
extension_id_text id = str "0x" ++ show_hex 64 id

abbrev lift : {T A : Type 0} → Result A → M T A
lift r sent = (r, sent)

-- The chain, once it is connected, and the contracts for an instruction sender.
module _ (f : Format) (client : Client) (contracts : Support → Address → Contracts) where
  -- From the check of the sender's code on: the printed id.
  unfoldable pub register_sender : Support → Address → M ExtensionTx Bytes
  unfolding extension_id_text
  register_sender support sender = do
    check (address_has_code f (some client) sender (str "InstructionSender"))
    id ← setup_extension (contracts support sender)
    pure (extension_id_text id)

  -- The command, from its flag --instructionSender and what DefaultSupport gives; what it prints.
  unfoldable pub register_extension_main : (sender : Bytes) → Result Support → M ExtensionTx Bytes
  unfolding register_sender
  register_extension_main sender found sent =
      if is_empty sender
      then (err (str "--instructionSender flag is required"), sent)
      else (lift found >>= λ support. register_sender support (f.address_of sender)) sent
