-- ===== src/Validate/Funds/Afford.antt =====
-- When validate.go lets a deployer deploy.
use fce_extension_scaffold.Base.{
  ℕ, ◌*◌, ◌<◌, ◌≤◌, ℤ, pos, negsuc, Option, none, some, ok, Result-cases, ◌≡◌, ◌↔◌, inl, inr, arith,
  refl,
}
use fce_extension_scaffold.Validate.Funds.{
  Address, Client, Format, afford, no_price, can_afford, key_can_afford_deploy,
}

-- The balance and the price are known and not negative, the price is not 0, and the balance covers the
-- gas at that price.
pub record Affordable (client : Client) (addr : Address) (gas_units : ℕ) : Type 0 where
  pub balance : ℕ
  pub price : ℕ
  pub has_balance : client.balance_at addr ≡ ok (pos balance)
  pub has_price : client.suggest_gas_price ≡ ok (some (pos price))
  pub priced : 0 < price
  pub covered : price * gas_units ≤ balance

module _ (f : Format) (addr : Address) (gas_units : ℕ) where
  can_afford-none :
      (balance : ℤ) (price : Option ℤ)
      → can_afford f addr balance price gas_units ≡ none
      → (b p : ℕ) × (balance ≡ pos b) × (price ≡ some (pos p)) × (0 < p) × (p * gas_units ≤ b)
  unfolding can_afford afford no_price
  can_afford-none balance none h = ground arith
  can_afford-none balance (some (negsuc p)) h = ground arith
  can_afford-none (negsuc b) (some (pos p)) h = ground arith
  can_afford-none (pos b) (some (pos p)) h = (b, p, refl, refl, ground arith, ground arith)

  can_afford-covered :
      (b p : ℕ)
      → 0 < p
      → p * gas_units ≤ b
      → can_afford f addr (pos b) (some (pos p)) gas_units ≡ none
  unfolding can_afford afford no_price
  can_afford-covered b p h k = ground arith

  -- A connected client lets the deployer deploy exactly when it tells a balance and a positive gas
  -- price and the balance covers the gas units at that price.
  pub key_can_afford_deploy_iff :
      (client : Client)
      → (key_can_afford_deploy f (some client) addr gas_units ≡ none)
        ↔ Affordable client addr gas_units
  unfolding key_can_afford_deploy
  key_can_afford_deploy_iff client = (to, from)
    where
      to :
          key_can_afford_deploy f (some client) addr gas_units ≡ none
          → Affordable client addr gas_units
      to h = elim (Result-cases (client.balance_at addr)) [
        | inr (x, e) ↦ ground arith
        | inl (balance, e) ↦ elim (Result-cases client.suggest_gas_price) [
          | inr (x, e') ↦ ground arith
          | inl (price, e') ↦
              let (b, p, eb, ep, pp, le) = can_afford-none balance price (ground arith) in
              record {
                balance = b;
                price = p;
                has_balance = ground arith;
                has_price = ground arith;
                priced = pp;
                covered = le;
              }
        ]
      ]

      from :
          Affordable client addr gas_units
          → key_can_afford_deploy f (some client) addr gas_units ≡ none
      from a = ground (arith, can_afford-covered a.balance a.price)
