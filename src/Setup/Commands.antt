-- ===== src/Setup/Commands.antt =====
-- The commands tools/cmd/set-governance and tools/cmd/allow-tee-version: the keys that they take from
-- the environment, and their runs. An error ends the process.
use fce_extension_scaffold.Base.{
  ℕ, Bytes, Bool, is_empty, trim_space, trim_0x, ◌==◌, ◌&&◌, if◌then◌else◌, Result, ok, List, [],
  ◌∷◌,
}
use fce_extension_scaffold.Support.Keys.{Key, Address, Crypto, strip_prefix}
use fce_extension_scaffold.Support.Addresses.{Support}
use fce_extension_scaffold.Support.Tx.{M, Chain, ◌>>=◌}
use fce_extension_scaffold.Setup.Governance.{
  GovernanceTx, Governance, parse_signers, parse_threshold, set_tee_governance,
}
use fce_extension_scaffold.Registration.Info.{TeeInfo, Library, tee_proxy_id}
use fce_extension_scaffold.Setup.Version.{VersionTx, allow_tee_version}

abbrev lift : {T A : Type 0} → Result A → M T A
lift r sent = (r, sent)

-- A text without "0X" at its front.
unfoldable pub trim_upper_0x : Bytes → Bytes
trim_upper_0x [] = []
trim_upper_0x (z ∷ []) = z ∷ []
trim_upper_0x (z ∷ x ∷ rest) = if (z == b'0') && (x == b'X') then rest else z ∷ x ∷ rest

-- The variables that set-governance reads.
pub record GovernanceVars : Type 0 where
  pub owner_key : Bytes  -- EXTENSION_OWNER_KEY
  pub initial_owner : Bytes
  pub signers : Bytes
  pub threshold : Bytes

module _ (c : Crypto) where
  -- The key of set-governance, or else the deployer's.
  unfoldable pub governance_key : Bytes → Key → Result Key
  unfolding trim_upper_0x
  governance_key text deployer =
      if is_empty text then ok deployer else c.hex_to_ecdsa (trim_upper_0x (trim_0x text))

  unfoldable pub default_signer : Bytes → Address → Address
  default_signer initial_owner deployer =
      if is_empty (trim_space initial_owner)
      then deployer
      else c.address_of (trim_space initial_owner)

  -- The key of allow-tee-version, or else the deployer's.
  unfoldable pub version_key : Bytes → Key → Result Key
  version_key text deployer =
      if is_empty text then ok deployer else c.hex_to_ecdsa (strip_prefix text)

  -- set-governance, from what DefaultSupport and TeeInfo give; `governance` is the contract for a key
  -- and an extension's id.
  unfoldable pub set_governance :
      (governance : Key → ℕ → Governance)
      → Result Support
      → GovernanceVars
      → (extension_id : Result ℕ) → M GovernanceTx (Unit {0})
  unfolding governance_key default_signer
  set_governance governance found vars extension_id = do
    support ← lift found
    key ← lift (governance_key vars.owner_key support.key)
    id ← lift extension_id
    set_tee_governance (governance key id)
        (parse_signers c.address_of vars.signers
          (default_signer vars.initial_owner (c.key_address key)))
        (parse_threshold vars.threshold)

  -- allow-tee-version, from what DefaultSupport and TeeInfo give; `chain` and `supported` are the
  -- contract for a key and a node.
  unfoldable pub allow_version :
      (l : Library) (chain : Key → TeeInfo → Chain VersionTx)
      (supported : TeeInfo → List VersionTx → Result Bool) (quote : Bytes → Bytes)
      → Result Support
      → (info : Result TeeInfo) → (owner_key version : Bytes) → M VersionTx (Unit {0})
  unfolding version_key
  allow_version l chain supported quote found info owner_key version = do
    support ← lift found
    tee ← lift info
    key ← lift (version_key owner_key support.key)
    ids ← lift (tee_proxy_id l tee)
    allow_tee_version (chain key tee) (supported tee) quote version
