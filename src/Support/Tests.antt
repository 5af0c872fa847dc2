-- ===== src/Support/Tests.antt =====
-- The theorems on reverts, keys and addresses at concrete values, and small runs.
use fce_extension_scaffold.Base.{
  Option, ◌+◌, ◌==◌, is_empty, replicate, if◌then◌else◌, ◌≤◌, Bytes, str, length, none, some, ok,
  err, List, [], ◌∷◌, ◌≡◌, ◌≢◌, refl, arith, hex_decode, trim_0x, beq, pos,
}
use fce_extension_scaffold.Support.Revert.{
  text, CallError, returned, AbiError, Decoder, simulate_and_decode_revert,
  decode_revert_from_error, name_with_args, match_custom_error, decode_text,
}
use fce_extension_scaffold.Support.Revert.Naming.{in_result, match_custom_error-simulate}
use fce_extension_scaffold.Support.Keys.{
  Crypto, set_owner_address, default_private_key, strip_prefix, int_env, port_of, port_of-int_env,
  set_owner_address_unset,
}
use fce_extension_scaffold.Support.Addresses.{
  Addresses, RawContract, parse_addresses, last_address, parse_addresses-last_address,
}

-- A reader of reverts that knows one reason, of data that begin with the byte 8.
abbrev reason_of : Bytes → Option Bytes
reason_of [] = none
reason_of (a ∷ []) = none
reason_of (a ∷ b ∷ []) = none
reason_of (a ∷ b ∷ c ∷ []) = none
reason_of (a ∷ b ∷ c ∷ d ∷ rest) = if a == 8 then some (str "paused") else none

reason_of-long : (d r : Bytes) → reason_of d ≡ some r → 4 ≤ length d
reason_of-long [] r h = cc
reason_of-long (a ∷ []) r h = cc
reason_of-long (a ∷ b ∷ []) r h = cc
reason_of-long (a ∷ b ∷ c ∷ []) r h = cc
reason_of-long (a ∷ b ∷ c ∷ d ∷ rest) r h = omega arith

abbrev reasons : Decoder
reasons = record { unpack_revert = reason_of; from_hex = λ b. b }

abbrev payload : Bytes
payload = 0xab ∷ 0xcd ∷ 0xef ∷ 0x12 ∷ 0x01 ∷ []

abbrev named : Bytes → Bytes → AbiError
named name id = record {
  name = name;
  id = id;
  unpack = λ d. ok (str "[]");
  unpack_inputs = λ d. ok [];
}

abbrev other_error : AbiError
other_error = named (str "Other") (0x01 ∷ 0x02 ∷ 0x03 ∷ 0x04 ∷ [])

abbrev invalid_hash : AbiError
invalid_hash = named (str "InvalidGovernanceHash") (0xab ∷ 0xcd ∷ 0xef ∷ 0x12 ∷ [])

match_custom_error-simulate_example :
    match_custom_error
      (other_error ∷ invalid_hash ∷ [])
      (simulate_and_decode_revert reasons (returned payload))
    ≡ name_with_args invalid_hash payload
unfolding beq
match_custom_error-simulate_example =
    match_custom_error-simulate reasons payload (str "execution reverted") (other_error ∷ [])
      invalid_hash [] in_result
      (omega arith, (omega arith, (omega arith, (omega arith, (omega arith, tt))))) (omega arith)
      refl (refl, tt) refl

abbrev paused_data : CallError
paused_data = record { message = str "execution reverted"; payload = text (str "0x08c379a0") }

paused_found : decode_revert_from_error reasons paused_data ≢ []
unfolding decode_revert_from_error decode_text str hex_decode trim_0x
paused_found = λ e. cc

-- The key 5 and its address 6; an address is written as its number of the letter a.
abbrev crypto : Crypto
crypto = record {
  hex_to_ecdsa = λ b. if is_empty b then err (str "empty") else ok 5;
  dev_key = 9;
  key_address = λ k. k + 1;
  text = λ a. replicate a b'a';
  address_of = length;
}

set_owner_address_unset_example :
    (set_owner_address crypto (record { initial_owner = []; deployment_private_key = str "0x51" })
      ≡ ok (0, record { initial_owner = str "aaaaaa"; deployment_private_key = str "0x51" }))
    × (set_owner_address crypto
          (record { initial_owner = str "aaaaaa"; deployment_private_key = str "0x51" })
        ≡ ok (6, record { initial_owner = str "aaaaaa"; deployment_private_key = str "0x51" }))
unfolding str default_private_key strip_prefix
set_owner_address_unset_example =
    set_owner_address_unset crypto (str "0x51") 5 refl refl (λ e. cc) refl

port_of-int_env_example : port_of (str "-7") (pos 3) ≡ int_env (str "-7") (pos 3)
port_of-int_env_example = port_of-int_env (str "-7") (pos 3)

-- A file that names a contract twice.
abbrev entries : List RawContract
entries =
    record { name = str "Fdc2Hub"; contract_name = []; address = str "0x" }
    ∷ record { name = str "Relay"; contract_name = []; address = str "0x0" }
    ∷ record { name = str "Fdc2Hub"; contract_name = []; address = str "0x00" }
    ∷ []

parse_addresses-last_address_example :
    (addrs : Addresses) × (parse_addresses length (λ file. ok entries) (ok []) ≡ ok addrs)
    × (addrs.flare_system_manager ≡ last_address length (str "FlareSystemsManager") 0 entries)
    × (addrs.fdc2_hub ≡ last_address length (str "Fdc2Hub") 0 entries)
    × (addrs.flare_tee_manager ≡ last_address length (str "FlareTeeManager") 0 entries)
parse_addresses-last_address_example =
    parse_addresses-last_address length (λ file. ok entries) [] entries refl

last_entry_wins :
    (last_address length (str "Fdc2Hub") 0 entries ≡ 4)
    × (last_address length (str "FlareTeeManager") 0 entries ≡ 0)
unfolding str beq
last_entry_wins = (refl, refl)
