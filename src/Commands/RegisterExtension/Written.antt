-- ===== src/Commands/RegisterExtension/Written.antt =====
-- From register-extension over scripts/pre-build.sh to verify-deploy.
use fce_extension_scaffold.Base.{
  ℕ, ◌<◌, ◌^◌, Bytes, true, some, Result, ok, List, ◌≡◌, ap, ◌∙◌, arith,
}
use fce_extension_scaffold.Support.Addresses.{Support}
use fce_extension_scaffold.Setup.Extend.{ExtensionTx, Contracts}
use fce_extension_scaffold.Validate.EnvFile.{
  EnvIds, is_address, is_extension_id, parse_extension_env,
}
use fce_extension_scaffold.Validate.EnvFile.Written.{
  config_text, written_config, written_config-values,
}
use fce_extension_scaffold.Validate.Checks.Register.{extension_number}
use fce_extension_scaffold.Validate.Funds.{Address, Client, Format}
use fce_extension_scaffold.Commands.RegisterExtension.{register_extension_main}
use fce_extension_scaffold.Commands.RegisterExtension.Complete.{
  Registered, register_extension_main-Registered,
}

-- A file of pre-build.sh from which the readers of checks.go get the id and the sender.
pub record Deployed (sender printed : Bytes) (id : ℕ) : Type 0 where
  pub file : Bytes
  pub written : written_config sender printed ≡ some file
  pub id_back : extension_number (parse_extension_env (some file)).extension_id ≡ id
  pub sender_back : (parse_extension_env (some file)).instruction_sender ≡ sender

written_config-ok :
    (sender printed : Bytes)
    → is_address sender ≡ true
    → is_extension_id printed ≡ true
    → written_config sender printed ≡ some (config_text printed sender)
unfolding written_config
written_config-ok sender printed a i = ground arith

-- When register-extension prints an id, the instruction sender has code and SetupExtension returned the
-- id, with one registration. Where the id is a uint256 and the sender was given in the format of an
-- address, pre-build.sh writes extension.env, and verify-deploy reads the same id and the same sender
-- from that file.
pub register_extension_main-Deployed :
    (f : Format) (client : Client) (contracts : Support → Address → Contracts) (sender : Bytes)
    (found : Result Support) (before : List ExtensionTx) (printed : Bytes)
    → (register_extension_main f client contracts sender found before).0 ≡ ok printed
    → (r : Registered f client contracts sender before
        (register_extension_main f client contracts sender found before).1
        printed)
      × (is_address sender ≡ true → r.id < 2 ^ 256 → Deployed sender printed r.id)
register_extension_main-Deployed f client contracts sender found before printed h =
    let r = register_extension_main-Registered f client contracts sender found before printed h in
    (
      r,
      λ address l.
          let file = written_config-ok sender printed address (r.accepted l) in
          let (a, v, back, by_id, by_sender) = written_config-values sender printed _ file in
          record {
            file = config_text printed sender;
            written = file;
            id_back = ap (λ (e : EnvIds). extension_number e.extension_id) back ∙ r.read_back l;
            sender_back = ap (λ (e : EnvIds). e.instruction_sender) back;
          },
    )
