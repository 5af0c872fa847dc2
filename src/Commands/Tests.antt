-- ===== src/Commands/Tests.antt =====
-- The theorems on the commands at a small chain and a simulated TEE.
use fce_extension_scaffold.Base.{
  ℕ, Bytes, str, ◌<◌, ◌^◌, length, show_nat, show_ℤ, pos, true, false, none, some, Result, ok, err,
  [], ◌∷◌, ◌≡◌, refl, ◌⊎◌,
}
use fce_extension_scaffold.Support.Keys.{Crypto}
use fce_extension_scaffold.Support.Addresses.{Support}
use fce_extension_scaffold.Support.Tx.{Chain, check_tx, send_tx, ensure}
use fce_extension_scaffold.Setup.Extend.{
  ExtensionTx, Contracts, setup_extension, register_extension, registered_id, second_event, grant,
  ensure_machine_owner, ensure_project_owner, ensure_key_type,
}
use fce_extension_scaffold.Instructions.Send.{deploy, sent_off, Node}
use fce_extension_scaffold.Validate.EnvFile.{is_address}
use fce_extension_scaffold.Validate.Funds.{Client, Format, address_has_code}
use fce_extension_scaffold.Registration.Polling.{failed, answered}
use fce_extension_scaffold.Registration.Info.{TeeInfo, Library, tee_proxy_id, get_tee_proxy_id}
use fce_extension_scaffold.Registration.Chain.{Network, World, absent}
use fce_extension_scaffold.Support.Revert.{ErrorData}
use fce_extension_scaffold.Commands.RegisterExtension.{
  extension_id_text, register_sender, register_extension_main,
}
use fce_extension_scaffold.Commands.RegisterExtension.Complete.{Registered}
use fce_extension_scaffold.Commands.RegisterExtension.Written.{
  Deployed, register_extension_main-Deployed,
}
use fce_extension_scaffold.Commands.Deploy.{deploy_contract}
use fce_extension_scaffold.Commands.Deploy.Preflight.{Ready, deploy_contract-Ready}
use fce_extension_scaffold.Commands.RegisterTee.{TeeFlags, Setting, register_tee}
use fce_extension_scaffold.Commands.RegisterTee.Checked.{Matching, register_tee-Matching}

abbrev format : Format
format = record { hex = show_nat; address_of = length; in_ether = show_ℤ; in_gwei = show_ℤ }

-- A chain on which every address has one byte of code and a balance.
abbrev client : Client
client = record {
  chain_id = ok (pos 14);
  code_at = λ a. ok (96 ∷ []);
  balance_at = λ a. ok (pos 6000000000);
  suggest_gas_price = ok (some (pos 2));
}

abbrev chain : Chain ExtensionTx
chain = record {
  transactor = none;
  send = λ sent tx. ok (ok (record { status = 1; logs = 7 ∷ 8 ∷ [] }));
  tx_hash = λ tx. [];
  failing_message = λ sent tx. ok [];
}

-- A registry that needs nothing but the registration.
abbrev contracts : Contracts
contracts = record {
  chain = chain;
  is_machine_owner = λ id sent. ok true;
  is_project_owner = λ id sent. ok true;
  is_key_type_supported = λ id sent. ok true;
  parse_registered = λ log. ok log;
  parse_contracts_set = λ log. none;
  parse_machine_owners = λ log. none;
  parse_project_owners = λ log. none;
}

abbrev support : Support
support = record {
  key = 5;
  bound = [];
  chain_id = 14;
  addresses = record { flare_system_manager = 1; fdc2_hub = 2; flare_tee_manager = 3 };
}

abbrev sender : Bytes
sender = str "0x5918Cd58e5caf755b8584649Aa24077822F87613"

prints_7 :
    (register_extension_main format client (λ s a. contracts) sender (ok support) []).0
    ≡ ok (extension_id_text 7)
unfolding register_extension_main register_sender address_has_code setup_extension
    register_extension registered_id second_event grant ensure_machine_owner ensure_project_owner
    ensure_key_type ensure send_tx check_tx str
prints_7 = refl

register_extension_main-Deployed_example :
    (r : Registered format client
      (λ s a. contracts)
      sender
      []
      (register_extension_main format client (λ s a. contracts) sender (ok support) []).1
      (extension_id_text 7))
    × (is_address sender ≡ true → r.id < 2 ^ 256 → Deployed sender (extension_id_text 7) r.id)
register_extension_main-Deployed_example =
    register_extension_main-Deployed format client (λ s a. contracts) sender (ok support) []
      (extension_id_text 7) prints_7

abbrev crypto : Crypto
crypto = record {
  hex_to_ecdsa = λ b. ok 5;
  dev_key = 9;
  key_address = λ k. k;
  text = show_nat;
  address_of = length;
}

abbrev node : Node
node = record {
  bind_error = none;
  transactor = none;
  call = λ sent tx. sent_off (ok (record { status = 1; logs = [] }));
  replay = λ sent tx. none;
  decoder = record { unpack_revert = λ d. none; from_hex = λ b. b };
  parse_instructions = λ log. ok log;
  deployed_at = λ sent. 3;
  tx_hash = λ tx. [];
}

deploy_contract-Ready_example :
    ((deploy_contract format client crypto node false (ok support) []).1 ≡ [])
    ⊎ (((deploy_contract format client crypto node false (ok support) []).1 ≡ deploy ∷ [])
        × (false ≡ false)
        × ((s : Support) × (◌≡◌ {A = Result Support} (ok support) (ok s))
            × Ready client s.addresses.flare_tee_manager (crypto.key_address s.key)))
deploy_contract-Ready_example =
    deploy_contract-Ready format client crypto node false (ok support) []

abbrev library : Library
library = record {
  Claims = Bytes;
  parse_claims = λ b. ok b;
  claimed_code_hash = λ b. ok (length b);
  claimed_platform = λ b. ok 2;
  parse_pub_key = λ b. ok (length b);
  key_address = λ k. k;
  info_hash = λ i. ok 1;
  payload_hash = λ i h. ok h;
  sig_to_pub = λ h b. ok (length b);
}

-- Its attestation claims the code hash 3 and the platform 2.
abbrev tee : TeeInfo
tee = record {
  public_key = 1 ∷ [];
  attestation = 1 ∷ 1 ∷ 1 ∷ [];
  code_hash = 3;
  platform = 2;
  proxy_signature = [];
}

abbrev network : Network
network = record {
  tee_proxy_id = ok (1, 0);
  transactor = none;
  signature_error = none;
  send = λ sent tx. ok (ok (record { status = 1; logs = 11 ∷ 12 ∷ [] }));
  tx_hash = λ sent tx. [];
  register_payload = λ sent. ErrorData.absent;
  replay_register = λ sent. none;
  decoder = node.decoder;
  failing_message = λ sent tx. ok [];
  parse_attestation = λ log. none;
  parse_instructions = λ log. ok log;
  get_tee_machine = λ sent id. ok id;
  policy_error = λ sent. none;
  result_attempt = λ sent id j. failed [];
  proof_reader = record {
    result_data = λ b. ok b;
    prove_response = λ b. err [];
    header = λ b. ok 0;
    request = λ b. err [];
    response = λ b. ok 0;
  };
  writable = true;
}

abbrev setting : Setting
setting = record {
  library = library;
  decode = λ b. ok tee;
  simulated = [];
  hash_text = show_nat;
  writable = true;
  network = λ s i url ftdc. network;
}

abbrev flags : TeeFlags
flags = record {
  resume = false;
  host = [];
  proxy = [];
  request = record { command = b'r' ∷ []; instruction_id = 0 };
}

abbrev begin : World
begin = record { file = absent; sent = [] }

register_tee-Matching_example :
    ((register_tee setting flags (ok support) (ok tee) (answered 200 []) begin).1.sent ≡ [])
    ⊎ ((i : TeeInfo) × (◌≡◌ {A = Result TeeInfo} (ok tee) (ok i))
        × Matching setting i
        × ((ids : ℕ × ℕ) × (tee_proxy_id library i ≡ ok ids))
        × ((ids : ℕ × ℕ) × (get_tee_proxy_id library (λ b. ok tee) (answered 200 []) ≡ ok ids)))
register_tee-Matching_example =
    register_tee-Matching setting flags (ok support) (ok tee) (answered 200 []) begin
