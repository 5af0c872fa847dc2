-- ===== src/Support/Addresses.antt =====
-- The addresses file: `ParseAddresses`, `fieldMap`, `DefaultSupport` and `NewSupport` of
-- tools/pkg/support/support.go.
use fce_extension_scaffold.Base.{
  ℕ, Bytes, str, beq, beq_iff, if◌then◌else◌, false, Option, none, some, Result, ok, err, List, [],
  ◌∷◌, ◌≡◌, refl, ap, ◌∙◌, arith,
}
use fce_extension_scaffold.Support.Keys.{Key, Crypto, default_private_key}

abbrev pub Address : Type 0
Address = ℕ

-- `Addresses`, with the names of its fields in the file.
pub record Addresses : Type 0 where
  pub flare_system_manager : Address  -- FlareSystemsManager
  pub fdc2_hub : Address  -- Fdc2Hub
  pub flare_tee_manager : Address  -- FlareTeeManager

abbrev pub no_addresses : Addresses
no_addresses = record { flare_system_manager = 0; fdc2_hub = 0; flare_tee_manager = 0 }

pub record RawContract : Type 0 where
  pub name : Bytes
  pub contract_name : Bytes
  pub address : Bytes

-- A write through the pointer that `fieldMap` has for a name, if it has one.
unfoldable pub set_address : Addresses → Bytes → Address → Addresses
set_address addrs name a =
    if beq name (str "FlareSystemsManager")
    then record addrs { flare_system_manager = a }
    else if beq name (str "Fdc2Hub")
    then record addrs { fdc2_hub = a }
    else if beq name (str "FlareTeeManager")
    then record addrs { flare_tee_manager = a }
    else addrs

keys_differ :
    (beq (str "FlareSystemsManager") (str "Fdc2Hub") ≡ false)
    × (beq (str "FlareSystemsManager") (str "FlareTeeManager") ≡ false)
    × (beq (str "Fdc2Hub") (str "FlareTeeManager") ≡ false)
unfolding beq str
keys_differ = (refl, refl, refl)

set_address-fields :
    (addrs : Addresses) (name : Bytes) (a : Address)
    → let read = set_address addrs name a in
      (read.flare_system_manager
        ≡ (if beq name (str "FlareSystemsManager") then a else addrs.flare_system_manager))
      × (read.fdc2_hub ≡ (if beq name (str "Fdc2Hub") then a else addrs.fdc2_hub))
      × (read.flare_tee_manager
          ≡ (if beq name (str "FlareTeeManager") then a else addrs.flare_tee_manager))
unfolding set_address
set_address-fields addrs name a = ground (
  arith,
  keys_differ.0,
  keys_differ.1,
  keys_differ.2,
  beq_iff name (str "FlareSystemsManager"),
  beq_iff name (str "Fdc2Hub"),
  beq_iff name (str "FlareTeeManager"),
)

module _ (address_of : Bytes → Address) where
  unfoldable pub addresses_from : Addresses → List RawContract → Addresses
  unfolding set_address
  addresses_from addrs [] = addrs
  addresses_from addrs (c ∷ raw) =
      addresses_from (set_address addrs c.name (address_of c.address)) raw

  unfoldable pub addresses_of : Result (List RawContract) → Result Addresses
  unfolding addresses_from
  addresses_of (err e) = err e
  addresses_of (ok raw) = ok (addresses_from no_addresses raw)

  -- `ParseAddresses`, from what os.ReadFile gives; `entries` reads the JSON.
  unfoldable pub parse_addresses :
      (entries : Bytes → Result (List RawContract)) → Result Bytes → Result Addresses
  unfolding addresses_of
  parse_addresses entries (err e) = err e
  parse_addresses entries (ok file) = addresses_of (entries file)

  -- The address of the last entry with a name, or else the one before.
  abbrev pub last_address : Bytes → Address → List RawContract → Address
  last_address name before [] = before
  last_address name before (c ∷ raw) =
      last_address name (if beq c.name name then address_of c.address else before) raw

  addresses_from-last_address :
      (addrs : Addresses) (raw : List RawContract)
      → let read = addresses_from addrs raw in
        (read.flare_system_manager
          ≡ last_address (str "FlareSystemsManager") addrs.flare_system_manager raw)
        × (read.fdc2_hub ≡ last_address (str "Fdc2Hub") addrs.fdc2_hub raw)
        × (read.flare_tee_manager
            ≡ last_address (str "FlareTeeManager") addrs.flare_tee_manager raw)
  unfolding addresses_from
  addresses_from-last_address addrs [] = (refl, refl, refl)
  addresses_from-last_address addrs (c ∷ raw) =
      let rest =
        addresses_from-last_address (set_address addrs c.name (address_of c.address)) raw in
      let step = set_address-fields addrs c.name (address_of c.address) in
      (
        rest.0 ∙ ap (λ a. last_address (str "FlareSystemsManager") a raw) step.0,
        rest.1 ∙ ap (λ a. last_address (str "Fdc2Hub") a raw) step.1,
        rest.2 ∙ ap (λ a. last_address (str "FlareTeeManager") a raw) step.2,
      )

  -- Each address of a file that can be read is that of the last entry with its name, or the zero
  -- address where there is none; entries with other names have no effect.
  pub parse_addresses-last_address :
      (entries : Bytes → Result (List RawContract)) (file : Bytes) (raw : List RawContract)
      → entries file ≡ ok raw
      → (addrs : Addresses) × (parse_addresses entries (ok file) ≡ ok addrs)
        × (addrs.flare_system_manager ≡ last_address (str "FlareSystemsManager") 0 raw)
        × (addrs.fdc2_hub ≡ last_address (str "Fdc2Hub") 0 raw)
        × (addrs.flare_tee_manager ≡ last_address (str "FlareTeeManager") 0 raw)
  unfolding parse_addresses addresses_of
  parse_addresses-last_address entries file raw h =
      let read = addresses_from-last_address no_addresses raw in
      (addresses_from no_addresses raw, ground arith, read.0, read.1, read.2)

-- `ReadAddresses` of tools/pkg/configs/configs.go, from what os.ReadFile gives; `decode` reads the JSON.
unfoldable pub read_addresses : {A : Type 0} → (decode : Bytes → Result A) → Result Bytes → Result A
read_addresses decode (err e) = err e
read_addresses decode (ok file) = decode file

-- The bindings of `NewSupport`, in its order.
pub data Facet : Type 0 where
  machine_manager wallet_manager wallet_key_manager wallet_project_manager systems_manager : Facet
  fdc2_hub_contract verification extension_manager owner_allowlist extension_governance : Facet

abbrev pub Binding : Type 0
Binding = Facet × Address

-- Every TEE facet is wired to the FlareTeeManager diamond.
unfoldable pub bindings : Addresses → List Binding
bindings addrs =
    let diamond = addrs.flare_tee_manager in
    (machine_manager, diamond)
    ∷ (wallet_manager, diamond)
    ∷ (wallet_key_manager, diamond)
    ∷ (wallet_project_manager, diamond)
    ∷ (systems_manager, addrs.flare_system_manager)
    ∷ (fdc2_hub_contract, addrs.fdc2_hub)
    ∷ (verification, diamond)
    ∷ (extension_manager, diamond)
    ∷ (owner_allowlist, diamond)
    ∷ (extension_governance, diamond)
    ∷ []

-- The first error of the bindings.
unfoldable pub bind_error : (Binding → Option Bytes) → List Binding → Option Bytes
bind_error bind [] = none
bind_error bind (b ∷ bs) = elim (bind b) [ some e ↦ some e | none ↦ bind_error bind bs ]

pub record Support : Type 0 where
  pub key : Key
  pub bound : List Binding
  pub chain_id : ℕ
  pub addresses : Addresses

-- The node: an error of ethclient.Dial, those of the bindings, and the chain's id.
pub record Endpoint : Type 0 where
  pub dial_error : Option Bytes
  pub bind : Binding → Option Bytes
  pub chain_id : Result ℕ

unfoldable pub with_chain_id : Key → Addresses → Result ℕ → Result Support
with_chain_id key addrs (err e) = err e
with_chain_id key addrs (ok id) =
    ok (record { key = key; bound = bindings addrs; chain_id = id; addresses = addrs })

-- `NewSupport`.
unfoldable pub new_support : Endpoint → Key → Addresses → Result Support
unfolding bindings bind_error with_chain_id
new_support endpoint key addrs = elim (bind_error endpoint.bind (bindings addrs)) [
  | some e ↦ err e
  | none ↦ with_chain_id key addrs endpoint.chain_id
]

module _ (c : Crypto) (endpoint : Endpoint) where
  unfoldable pub support_of : Bytes → Addresses → Result Support
  unfolding new_support
  support_of key_text addrs = elim endpoint.dial_error [
    | some e ↦ err e
    | none ↦ elim (default_private_key c key_text) [
      | err e ↦ err e
      | ok key ↦ new_support endpoint key addrs
    ]
  ]

  -- `DefaultSupport`, from the variable DEPLOYMENT_PRIVATE_KEY and the file's reading as an object
  -- (`ReadAddresses`) and, where that fails, as a list (`ParseAddresses`).
  unfoldable pub default_support : Bytes → (object list : Result Addresses) → Result Support
  unfolding support_of
  default_support key_text (ok addrs) list = support_of key_text addrs
  default_support key_text (err x) (ok addrs) = support_of key_text addrs
  default_support key_text (err x) (err e) = err e
