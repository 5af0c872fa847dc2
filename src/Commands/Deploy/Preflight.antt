-- ===== src/Commands/Deploy/Preflight.antt =====
-- When deploy-contract deploys, and how its preflight meets the checks of verify-deploy.
use fce_extension_scaffold.Base.{
  Bytes, is_empty, ==_iff, Bool, true, false, none, some, Option-cases, Result, Result-cases, ok,
  err, List, ◌∷◌, ◌≡◌, ◌≢◌, refl, ◌∙◌, ◌↔◌, ◌⊎◌, inl, inr, arith,
}
use fce_extension_scaffold.Support.Keys.{Crypto}
use fce_extension_scaffold.Support.Addresses.{Support}
use fce_extension_scaffold.Instructions.Send.{
  InstructionTx, deploy, Outcome-cases, Node, submit_deploy, deploy_instruction_sender,
}
use fce_extension_scaffold.Validate.Report.{pass}
use fce_extension_scaffold.Validate.Checks.Deploy.{check_not_zero, check_has_code, check_funds}
use fce_extension_scaffold.Validate.Funds.{
  Address, Client, Format, address_not_zero, address_has_code, key_can_afford_deploy,
  deploy_gas_units,
}
use fce_extension_scaffold.Validate.Funds.Afford.{Affordable, key_can_afford_deploy_iff}
use fce_extension_scaffold.Commands.Deploy.{manager, preflight, deploy_unless, deploy_contract}

module _ (f : Format) (client : Client) (tee_manager deployer : Address) where
  preflight-parts : (preflight f client tee_manager deployer ≡ none) ↔ (
      (address_not_zero f tee_manager manager ≡ none)
      × (address_has_code f (some client) tee_manager manager ≡ none)
      × (key_can_afford_deploy f (some client) deployer deploy_gas_units ≡ none))
  unfolding preflight
  preflight-parts = ground arith

  -- The preflight passes exactly where the checks D3 and D1 on the FlareTeeManager and D5 on the
  -- deployer's funds of verify-deploy pass, on the same chain.
  pub preflight_agrees : (preflight f client tee_manager deployer ≡ none) ↔ (
      ((check_not_zero f manager tee_manager).status ≡ pass)
      × ((check_has_code f (some client) manager tee_manager).status ≡ pass)
      × ((check_funds f client deployer).status ≡ pass))
  unfolding check_not_zero check_has_code check_funds
  preflight_agrees = ground (arith, preflight-parts)

-- What the deployment needs.
pub record Ready (client : Client) (tee_manager deployer : Address) : Type 0 where
  pub not_zero : tee_manager ≢ 0
  pub code : Bytes
  pub has_code : client.code_at tee_manager ≡ ok code
  pub some_code : is_empty code ≡ false
  pub affordable : Affordable client deployer deploy_gas_units

preflight-Ready :
    (f : Format) (client : Client) (tee_manager deployer : Address)
    → preflight f client tee_manager deployer ≡ none
    → Ready client tee_manager deployer
unfolding address_not_zero address_has_code
preflight-Ready f client tee_manager deployer h =
    let (nonzero, coded, funded) = (preflight-parts f client tee_manager deployer).0 h in
    elim (Result-cases (client.code_at tee_manager)) [
      | inr (x, e) ↦ ground arith
      | inl (code, e) ↦ record {
        not_zero = λ z. ground (arith, ==_iff tee_manager 0);
        code = code;
        has_code = e;
        some_code = ground arith;
        affordable = (key_can_afford_deploy_iff f deployer deploy_gas_units client).0 funded;
      }
    ]

deploy_instruction_sender-sent :
    (n : Node) (sent : List InstructionTx)
    → ((deploy_instruction_sender n sent).1 ≡ sent)
      ⊎ ((deploy_instruction_sender n sent).1 ≡ deploy ∷ sent)
unfolding deploy_instruction_sender submit_deploy
deploy_instruction_sender-sent n sent = elim (Option-cases n.transactor) [
  | inr (x, e) ↦ inl (ground arith)
  | inl e ↦ elim (Outcome-cases (n.call sent deploy)) [
    | inl (x, p) ↦ inl (ground arith)
    | inr (r, p) ↦ inr (ground arith)
  ]
]

deploy_unless-sent :
    (n : Node) (only : Bool) (sent : List InstructionTx)
    → ((deploy_unless only n sent).1 ≡ sent)
      ⊎ (((deploy_unless only n sent).1 ≡ deploy ∷ sent) × (only ≡ false))
unfolding deploy_unless
deploy_unless-sent n true sent = inl refl
deploy_unless-sent n false sent = elim (Result-cases (deploy_instruction_sender n sent).0) [
  | inr (x, e) ↦ deployed_only (deploy_instruction_sender-sent n sent) (ground arith)
  | inl (a, e) ↦ deployed_only (deploy_instruction_sender-sent n sent) (ground arith)
]
  where
    deployed_only :
        {t after : List InstructionTx}
        → (t ≡ sent) ⊎ (t ≡ deploy ∷ sent)
        → after ≡ t
        → (after ≡ sent) ⊎ ((after ≡ deploy ∷ sent) × (false ≡ false))
    deployed_only (inl same) e = inl (e ∙ same)
    deployed_only (inr one) e = inr (e ∙ one, refl)

-- A run sends nothing, or the one transaction that deploys; it sends this only without the flag
-- --preflight-only, and only where the FlareTeeManager is not the zero address and has code and the
-- deployer can afford the gas.
pub deploy_contract-Ready :
    (f : Format) (client : Client) (c : Crypto) (n : Node) (preflight_only : Bool)
    (found : Result Support) (sent : List InstructionTx)
    → ((deploy_contract f client c n preflight_only found sent).1 ≡ sent)
      ⊎ (((deploy_contract f client c n preflight_only found sent).1 ≡ deploy ∷ sent)
          × (preflight_only ≡ false)
          × ((support : Support) × (found ≡ ok support)
              × Ready client support.addresses.flare_tee_manager (c.key_address support.key)))
unfolding deploy_contract
deploy_contract-Ready f client c n only (err e) sent = inl refl
deploy_contract-Ready f client c n only (ok support) sent =
    elim (Option-cases
      (preflight f client support.addresses.flare_tee_manager (c.key_address support.key))) [
        | inr (x, e) ↦ inl (ground arith)
        | inl e ↦ elim (deploy_unless-sent n only sent) [
          | inl same ↦ inl (ground (arith, same))
          | inr (one, real) ↦ inr (
            ground (arith, one),
            real,
            (
              support,
              refl,
              preflight-Ready f client support.addresses.flare_tee_manager
                  (c.key_address support.key) e,
            ),
          )
        ]
      ]
