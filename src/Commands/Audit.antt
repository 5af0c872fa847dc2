-- ===== src/Commands/Audit.antt =====
-- tools/cmd/audit-deploy/main.go: the lines that it prints about the addresses file, an extension and
-- a replayed addTeeVersion.
pub mod Agree
use fce_extension_scaffold.Base.{
  ℕ, ◌-◌, Bytes, str, is_empty, show_nat, ℤ, pos, negsuc, length, replicate, hex_encode, ◌==◌, ◌||◌,
  if◌then◌else◌, Bool, true, false, Option, none, some, Result, ok, err, List, [], ◌∷◌, ◌++◌, map,
}
use fce_extension_scaffold.Support.Addresses.{Addresses}
use fce_extension_scaffold.Support.Revert.{
  CallError, Call, returned, reverted, AbiError, Decoder, Source, Diagnosis, no_data, too_short,
  reason, custom, unknown, extract_revert_data, diagnose_add_tee_version,
}
use fce_extension_scaffold.Setup.Version.{string_to_bytes32, bytes32_to_string}
use fce_extension_scaffold.Validate.Funds.{Address, Client, Format}

-- The last column of an address's row.
pub data AddressStatus : Type 0 where
  failed : Bytes → AddressStatus
  zero_address : AddressStatus
  no_code_there : AddressStatus
  deployed : (size : ℕ) → AddressStatus

unfoldable pub status_of : Address → Result Bytes → AddressStatus
status_of a (err e) = failed e
status_of a (ok code) =
    if a == 0 then zero_address else if is_empty code then no_code_there else deployed (length code)

unfoldable pub status_text : AddressStatus → Bytes
status_text (failed e) = str "ERROR " ++ e
status_text zero_address = str "ZERO ADDRESS"
status_text no_code_there = str "NO CODE"
status_text (deployed size) = str "ok (" ++ show_nat size ++ str " bytes)"

-- `%-25s`.
abbrev pub pad_right : Bytes → Bytes
pad_right s = s ++ replicate (25 - length s) b' '

-- What the ExtensionManager facet answers.
pub record Extensions : Type 0 where
  pub bind_error : Option Bytes
  pub system_supported_platforms : Result (List Bytes)
  pub next_public_extension_id : Result ℕ
  pub extension_owner : ℕ → Result Address
  pub supported_code_hashes : ℕ → Result (List Bytes)
  pub supported_key_types : ℕ → Result (List Bytes)

-- What the verbs print: `Hash.Hex` of 32 bytes, and `%q`.
pub record Texts : Type 0 where
  pub hash_hex : Bytes → Bytes
  pub quote : Bytes → Bytes

module _ (f : Format) (client : Client) where
  unfoldable pub address_row : Bytes × Address → Bytes
  unfolding status_of status_text
  address_row (name, a) =
      str "  "
      ++ pad_right name
      ++ str " "
      ++ f.hex a
      ++ str "   "
      ++ status_text (status_of a (client.code_at a))

  unfoldable pub address_rows : Addresses → List Bytes
  unfolding address_row
  address_rows addrs =
      address_row (str "FlareTeeManager", addrs.flare_tee_manager)
      ∷ address_row (str "FlareSystemsManager", addrs.flare_system_manager)
      ∷ address_row (str "Fdc2Hub", addrs.fdc2_hub)
      ∷ []

module _ (t : Texts) where
  -- A hash with the text that it holds.
  unfoldable pub hash_line : Bytes → Bytes
  hash_line h = str "    " ++ t.hash_hex h ++ str "   " ++ t.quote (bytes32_to_string h)

  unfoldable pub platform_lines : Result (List Bytes) → List Bytes
  unfolding hash_line
  platform_lines (err e) = (str "  getSystemSupportedPlatforms ERROR: " ++ e) ∷ []
  platform_lines (ok platforms) =
      (str "  systemSupportedPlatforms (" ++ show_nat (length platforms) ++ str "):")
      ∷ map hash_line platforms

  unfoldable pub next_id_lines : Result ℕ → List Bytes
  next_id_lines (err e) = []
  next_id_lines (ok n) = (str "  nextPublicExtensionId: " ++ show_nat n) ∷ []

  unfoldable pub owner_line : Format → Result Address → Bytes
  owner_line f (err e) = str "  getExtensionOwner ERROR: " ++ e
  owner_line f (ok owner) = str "  owner: " ++ f.hex owner

  unfoldable pub code_hash_lines : Result (List Bytes) → List Bytes
  code_hash_lines (err e) = (str "  getSupportedCodeHashes ERROR: " ++ e) ∷ []
  code_hash_lines (ok hashes) =
      (str "  supportedCodeHashes (" ++ show_nat (length hashes) ++ str "):")
      ∷ map (λ h. str "    " ++ t.hash_hex h) hashes

  unfoldable pub key_type_lines : Result (List Bytes) → List Bytes
  unfolding hash_line
  key_type_lines (err e) = []
  key_type_lines (ok types) =
      (str "  supportedKeyTypes (" ++ show_nat (length types) ++ str "):") ∷ map hash_line types

  -- The extension of the flag -ext, where it is not negative.
  unfoldable pub extension_lines : Format → Extensions → ℤ → List Bytes
  unfolding owner_line code_hash_lines key_type_lines
  extension_lines f er (negsuc n) = []
  extension_lines f er (pos id) =
      []
        ∷ (str "=== Extension id=" ++ show_nat id ++ str " ===")
        ∷ owner_line f (er.extension_owner id)
        ∷ code_hash_lines (er.supported_code_hashes id)
      ++ key_type_lines (er.supported_key_types id)

  unfoldable pub custom_line : Bytes → Bytes → Result Bytes → Bytes → Bytes
  custom_line contract name (err x) payload =
      str "  revert -> "
      ++ contract
      ++ str "."
      ++ name
      ++ str " (unpack failed: "
      ++ x
      ++ str ") data=0x"
      ++ hex_encode payload
  custom_line contract name (ok args) payload =
      str "  revert -> " ++ contract ++ str "." ++ name ++ args

  unfoldable pub diagnosis_line : CallError → (payload : Bytes) → Diagnosis → Bytes
  unfolding custom_line
  diagnosis_line e payload no_data = str "  no/short revert data: " ++ e.message
  diagnosis_line e payload too_short = str "  no/short revert data: " ++ e.message
  diagnosis_line e payload (reason r) = str "  revert reason (string): " ++ t.quote r
  diagnosis_line e payload (custom contract name args) = custom_line contract name args payload
  diagnosis_line e payload (unknown selector) =
      str "  revert with unknown selector 0x"
      ++ hex_encode selector
      ++ str " (full: 0x"
      ++ hex_encode payload
      ++ str ")"

  -- What the replayed call shows.
  unfoldable pub call_line : Decoder → List Source → Call → Bytes
  unfolding diagnosis_line
  call_line c sources (returned b) =
      str "  eth_call succeeded — tx-time-only revert (gas/state race?)"
  call_line c sources (reverted e) =
      diagnosis_line e (extract_revert_data c e) (diagnose_add_tee_version c sources e)

  -- `replayAddTeeVersion`: `abi` has the error of loading the ABI, and `pack` gives the replayed call of
  -- the packed version, or the error of packing it.
  unfoldable pub replay_add_tee_version :
      Decoder
      → List Source
      → (abi : Option Bytes) → (pack : Bytes → Result Call) → (version : Bytes) → Bytes
  unfolding call_line string_to_bytes32
  replay_add_tee_version c sources (some e) pack version = str "  load ABI: " ++ e
  replay_add_tee_version c sources none pack version = elim (string_to_bytes32 t.quote version) [
    | err e ↦ str "  version: " ++ e
    | ok packed ↦ elim (pack packed) [
      | err e ↦ str "  pack: " ++ e
      | ok call ↦ call_line c sources call
    ]
  ]

-- The flags of the command.
pub record AuditFlags : Type 0 where
  pub extension : ℤ
  pub code_hash : Bytes
  pub platform : Bytes

abbrev pub is_negative : ℤ → Bool
is_negative (pos n) = false
is_negative (negsuc n) = true

-- The replay, where its three flags are given; `line` is what `replayAddTeeVersion` prints.
unfoldable pub replay_lines : AuditFlags → (line : Bytes) → List Bytes
replay_lines flags line =
    if is_empty flags.code_hash || is_empty flags.platform || is_negative flags.extension
    then []
    else [] ∷ str "=== addTeeVersion eth_call replay (decoding revert) ===" ∷ line ∷ []

module _ (f : Format) (client : Client) (t : Texts) (er : Extensions) where
  -- From the binding of the facet on.
  unfoldable pub facet_lines : Addresses → AuditFlags → (line : Bytes) → List Bytes
  unfolding platform_lines next_id_lines extension_lines replay_lines
  facet_lines addrs flags line = elim er.bind_error [
    | some e ↦ []
    | none ↦
        []
          ∷ (str "=== ExtensionManager facet @ FlareTeeManager "
              ++ f.hex addrs.flare_tee_manager
              ++ str " ===")
          ∷ platform_lines t er.system_supported_platforms
        ++ next_id_lines t er.next_public_extension_id
        ++ extension_lines t f er flags.extension
        ++ replay_lines flags line
  ]

  -- The command from the line on the chain's id on: what it prints on standard output.
  unfoldable pub audit : (header : Bytes) → Addresses → AuditFlags → (line : Bytes) → List Bytes
  unfolding address_rows facet_lines
  audit header addrs flags line =
      header ∷ address_rows f client addrs
      ++ (if addrs.flare_tee_manager == 0 then [] else facet_lines addrs flags line)

  -- The whole command, whose error ends the process: from the addresses file, ethclient.Dial and the
  -- chain's id. A block number that cannot be read is 0.
  unfoldable pub audit_main :
      Result Addresses
      → (dial : Option Bytes) → (chain_id : Result ℕ) → (block : ℕ) → AuditFlags
      → (line : Bytes) → Result (List Bytes)
  unfolding audit
  audit_main (err e) dial chain_id block flags line = err (str "parse addresses: " ++ e)
  audit_main (ok addrs) (some e) chain_id block flags line = err (str "dial: " ++ e)
  audit_main (ok addrs) none (err e) block flags line = err (str "chainId: " ++ e)
  audit_main (ok addrs) none (ok id) block flags line = ok (
      audit (str "Chain ID: " ++ show_nat id ++ str "   block: " ++ show_nat block) addrs flags
        line)
