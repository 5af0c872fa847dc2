-- ===== src/Commands/Audit/Agree.antt =====
-- The rows of audit-deploy beside the checks of verify-deploy.
use fce_extension_scaffold.Base.{
  Bytes, Bool, true, false, some, Result-cases, ◌≡◌, ◌↔◌, inl, inr, arith,
}
use fce_extension_scaffold.Validate.Report.{pass}
use fce_extension_scaffold.Validate.Funds.{
  Address, Client, Format, address_not_zero, address_has_code,
}
use fce_extension_scaffold.Validate.Checks.Deploy.{check_not_zero, check_has_code}
use fce_extension_scaffold.Commands.Audit.{AddressStatus, deployed, status_of}

-- Whether the row says "ok".
abbrev pub says_ok : AddressStatus → Bool
says_ok (deployed size) = true
says_ok _ = false

-- A row of audit-deploy says "ok" exactly where the checks D3 and D1 of verify-deploy pass for its
-- address, on the same chain.
pub status_of_agrees :
    (f : Format) (client : Client) (label : Bytes) (a : Address)
    → (says_ok (status_of a (client.code_at a)) ≡ true) ↔ (
        ((check_not_zero f label a).status ≡ pass)
        × ((check_has_code f (some client) label a).status ≡ pass))
unfolding status_of check_not_zero check_has_code address_not_zero address_has_code
status_of_agrees f client label a = elim (Result-cases (client.code_at a)) [
  | inr (x, e) ↦ ground arith
  | inl (code, e) ↦ ground arith
]
