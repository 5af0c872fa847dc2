-- ===== src/Validate/Funds.antt =====
-- tools/pkg/validate/validate.go: the checks on addresses and on the deployer's balance. An address
-- and a key are numbers; the chain's answers and go-ethereum's text of an address are parameters.
pub mod Afford
use fce_extension_scaffold.Base.{
  ℕ, ◌*◌, Bytes, str, is_empty, show_nat, ℤ, pos, negsuc, leb_pos, lt_ℤ, show_ℤ, ◌==◌,
  if◌then◌else◌, Option, none, some, Result, ok, err, ◌++◌,
}

abbrev pub Address : Type 0
Address = ℕ

-- What a connected ethclient.Client answers.
pub record Client : Type 0 where
  pub chain_id : Result ℤ
  pub code_at : Address → Result Bytes
  pub balance_at : Address → Result ℤ
  pub suggest_gas_price : Result (Option ℤ)

-- go-ethereum's text of an address and its reading (common.Address.Hex and common.HexToAddress),
-- and the text of an amount: `inEther` and `inGwei`, which round a big.Float.
pub record Format : Type 0 where
  pub hex : Address → Bytes
  pub address_of : Bytes → Address
  pub in_ether : ℤ → Bytes
  pub in_gwei : ℤ → Bytes

module _ (f : Format) where
  -- An error, or none.
  unfoldable pub address_not_zero : Address → Bytes → Option Bytes
  address_not_zero addr label =
      if addr == 0
      then some
          (label ++ str " is the zero address (" ++ f.hex addr ++ str ") in the addresses file")
      else none

  unfoldable pub no_code : Address → Bytes → Bytes
  no_code addr label =
      label
      ++ str " at "
      ++ f.hex addr
      ++ str " has no deployed code. "
      ++ str
          "This address will be set as immutable in the contract constructor and cannot be changed. "
      ++ str "Check your deployed-addresses.json file — are you on the right network?"

  unfoldable pub address_has_code : Option Client → Address → Bytes → Option Bytes
  address_has_code none addr label =
      some (str "cannot check " ++ label ++ str ": no chain client connected")
  address_has_code (some client) addr label = elim (client.code_at addr) [
    | err e ↦ some (str "cannot check " ++ label ++ str ": " ++ e)
    | ok code ↦ if is_empty code then some (no_code addr label) else none
  ]

  unfoldable pub key_has_funds : Option Client → Address → ℤ → Option Bytes
  key_has_funds none addr min_wei =
      some (str "cannot check deployer balance: no chain client connected")
  key_has_funds (some client) addr min_wei = elim (client.balance_at addr) [
    | err e ↦ some (str "cannot check deployer balance: " ++ e)
    | ok balance ↦
        if lt_ℤ balance min_wei
        then some (
            str "deployer "
            ++ f.hex addr
            ++ str " has insufficient funds (balance: "
            ++ show_ℤ balance
            ++ str " wei, minimum required: "
            ++ show_ℤ min_wei
            ++ str " wei). "
            ++ str "Fund this account before deploying")
        else none
  ]

  unfoldable pub cannot_afford : Address → ℤ → ℕ → ℕ → Bytes
  cannot_afford addr balance price gas_units =
      str "deployer "
      ++ f.hex addr
      ++ str " cannot afford the deploy: has "
      ++ f.in_ether balance
      ++ str ", needs ~"
      ++ f.in_ether (pos (price * gas_units))
      ++ str " for "
      ++ show_nat gas_units
      ++ str " gas at "
      ++ f.in_gwei (pos price)
      ++ str " gwei. "
      ++ str "Fund this account before deploying"

  unfoldable pub afford : Address → ℤ → ℕ → ℕ → Option Bytes
  afford addr balance price gas_units =
      if leb_pos (price * gas_units) balance
      then none
      else some (cannot_afford addr balance price gas_units)

  unfoldable pub no_price : Bytes → Option Bytes
  no_price price = some (str "cannot price the deploy: gas price is " ++ price)

  -- `gasPrice` may be nil.
  unfoldable pub can_afford : Address → ℤ → Option ℤ → ℕ → Option Bytes
  unfolding afford no_price
  can_afford addr balance none gas_units = no_price (str "<nil>")
  can_afford addr balance (some (negsuc n)) gas_units = no_price (show_ℤ (negsuc n))
  can_afford addr balance (some (pos price)) gas_units =
      if price == 0 then no_price (show_ℤ (pos price)) else afford addr balance price gas_units

  unfoldable pub key_can_afford_deploy : Option Client → Address → ℕ → Option Bytes
  key_can_afford_deploy none addr gas_units =
      some (str "cannot check deployer balance: no chain client connected")
  key_can_afford_deploy (some client) addr gas_units = elim (client.balance_at addr) [
    | err e ↦ some (str "cannot check deployer balance: " ++ e)
    | ok balance ↦ elim client.suggest_gas_price [
      | err e ↦ some (str "cannot read gas price: " ++ e)
      | ok price ↦ can_afford addr balance price gas_units
    ]
  ]

-- `DeployGasUnits`.
abbrev pub deploy_gas_units : ℕ
deploy_gas_units = 2500000
