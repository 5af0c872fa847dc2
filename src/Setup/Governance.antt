-- ===== src/Setup/Governance.antt =====
-- `SetTeeGovernance` of tools/pkg/fccutils/governance.go, and `parseSigners` and `parseThreshold` of
-- tools/cmd/set-governance/main.go.
pub mod Laws
use fce_extension_scaffold.Base.{
  ℕ, zero, suc, ◌+◌, ◌≤◌, ◌<◌, ◌^◌, ◌%◌, Bytes, str, is_empty, trim_space, split_at, show_nat,
  parse_uint, parse_uint-show_nat, show_nat-IsGraphic, ltb, length, ◌==◌, ◌||◌, if◌then◌else◌, Bool,
  true, false, Option, none, some, Option-cases, Bool-cases, Result-cases, inl, inr, ◌⊎◌, Result,
  ok, err, List, [], ◌∷◌, ◌++◌, ◌≡◌, ◌≢◌, refl, sym, ap, ◌∙◌, All, arith, ==_iff,
}
use fce_extension_scaffold.Base.Strings.Trim.{IsGraphic, trim_space-graphic}
use fce_extension_scaffold.Support.Tx.{
  Receipt, M, ◌>>=◌, ◌>>◌, continue, pure, check, Chain, send_only,
}

abbrev pub Address : Type 0
Address = ℕ

abbrev pub Hash : Type 0
Hash = ℕ

-- The signers of the parts that are not blank; `address_of` is common.HexToAddress.
unfoldable pub signers_of : (address_of : Bytes → Address) → List Bytes → List Address
signers_of address_of [] = []
signers_of address_of (part ∷ parts) =
    let later = signers_of address_of parts in
    if is_empty (trim_space part) then later else address_of (trim_space part) ∷ later

abbrev pub or_fallback : Address → List Address → List Address
or_fallback fallback [] = fallback ∷ []
or_fallback fallback (a ∷ signers) = a ∷ signers

-- `parseSigners`.
unfoldable pub parse_signers : (address_of : Bytes → Address) → Bytes → Address → List Address
unfolding signers_of
parse_signers address_of raw fallback =
    or_fallback fallback (signers_of address_of (split_at b',' raw))

-- A number that is not 0, or else 1.
abbrev pub at_least_one : Option ℕ → ℕ
at_least_one none = 1
at_least_one (some zero) = 1
at_least_one (some (suc n)) = suc n

-- `parseThreshold`.
unfoldable pub parse_threshold : Bytes → ℕ
parse_threshold raw = at_least_one (parse_uint (trim_space raw))

pub data GovernanceTx : Type 0 where
  set_new_tee_governance : List Address → (threshold : ℕ) → GovernanceTx

-- The contract of one extension, and go-flare-common's hash.
pub record Governance : Type 0 where
  pub chain : Chain GovernanceTx
  pub latest_hash : List GovernanceTx → Result Hash  -- GetLatestTeeGovernanceHash
  pub governance_hash : List Address → ℕ → Result Hash  -- types.GovernanceHash

-- The checks of the arguments.
unfoldable pub invalid_arguments : List Address → ℕ → Option Bytes
invalid_arguments [] threshold =
    some (str "at least one governance signer is required (set GOVERNANCE_SIGNERS)")
invalid_arguments (a ∷ signers) threshold =
    if (threshold == 0) || ltb (length (a ∷ signers)) threshold
    then some (
        str "invalid GOVERNANCE_THRESHOLD "
        ++ show_nat threshold
        ++ str " for "
        ++ show_nat (length (a ∷ signers))
        ++ str " signer(s)")
    else none

-- Whether the latest hash is known and equal.
abbrev pub is_current : Result Hash → Hash → Bool
is_current (err e) desired = false
is_current (ok current) desired = current == desired

abbrev pub set_failed : Bytes → Bytes
set_failed e = str "SetNewTeeGovernance failed: " ++ e

module _ (g : Governance) where
  unfoldable pub hash_of : List Address → ℕ → Result Hash
  hash_of signers threshold = elim (g.governance_hash signers threshold) [
    | err e ↦ err (str "computing governance hash: " ++ e)
    | ok h ↦ ok h
  ]

  abbrev pub send_set : List Address → ℕ → M GovernanceTx (Unit {0})
  send_set signers threshold =
      send_only g.chain set_failed (λ e. e) (set_new_tee_governance signers threshold)

  unfoldable pub send_governance : List Address → ℕ → M GovernanceTx (Unit {0})
  send_governance signers threshold = do check g.chain.transactor; send_set signers threshold

  unfoldable pub send_unless_current : List Address → ℕ → Hash → M GovernanceTx (Unit {0})
  send_unless_current signers threshold desired sent =
      if is_current (g.latest_hash sent) desired
      then (ok tt, sent)
      else send_governance signers threshold sent

  -- `SetTeeGovernance`.
  unfoldable pub set_tee_governance : List Address → ℕ → M GovernanceTx (Unit {0})
  unfolding hash_of send_unless_current
  set_tee_governance signers threshold = do
    check (invalid_arguments signers threshold)
    desired ← λ sent. (hash_of signers threshold, sent)
    send_unless_current signers threshold desired
