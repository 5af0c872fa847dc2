-- ===== src/Commands/RegisterExtension/Complete.antt =====
-- What a run of register-extension has done when it prints an id.
use fce_extension_scaffold.Base.{
  ℕ, ◌+◌, ◌<◌, ◌^◌, Bytes, str, is_empty, true, false, Bool-cases, none, some, Option-cases, Result,
  Result-cases, ok, err, List, [], ◌∷◌, ◌≡◌, ap, ◌∙◌, sym, inl, inr, arith,
}
use fce_extension_scaffold.Support.Addresses.{Support}
use fce_extension_scaffold.Setup.Extend.{ExtensionTx, Contracts, setup_extension}
use fce_extension_scaffold.Setup.Extend.Once.{registrations, setup_extension-registers_once}
use fce_extension_scaffold.Validate.EnvFile.{is_extension_id}
use fce_extension_scaffold.Validate.Checks.Register.{extension_number}
use fce_extension_scaffold.Validate.Funds.{Address, Client, Format, address_has_code}
use fce_extension_scaffold.Commands.RegisterExtension.{
  extension_id_text, register_sender, register_extension_main,
}
use fce_extension_scaffold.Commands.RegisterExtension.Printed.{extension_number-extension_id_text}

-- What the printed text stands for.
pub record Registered (f : Format) (client : Client) (contracts : Support → Address → Contracts)
    (sender : Bytes) (before after : List ExtensionTx) (printed : Bytes) : Type 0 where
  pub support : Support
  pub id : ℕ
  pub code : Bytes
  pub has_code : client.code_at (f.address_of sender) ≡ ok code
  pub some_code : is_empty code ≡ false
  pub set_up : setup_extension (contracts support (f.address_of sender)) before ≡ (ok id, after)
  pub registered_once : registrations after ≡ registrations before + 1
  pub accepted : id < 2 ^ 256 → is_extension_id printed ≡ true
  pub read_back : id < 2 ^ 256 → extension_number printed ≡ id

address_has_code-none :
    (f : Format) (client : Client) (a : Address) (label : Bytes)
    → address_has_code f (some client) a label ≡ none
    → (code : Bytes) × (client.code_at a ≡ ok code) × (is_empty code ≡ false)
unfolding address_has_code
address_has_code-none f client a label h = elim (Result-cases (client.code_at a)) [
  | inr (x, e) ↦ ground arith
  | inl (code, e) ↦ elim (Bool-cases (is_empty code)) [
    | inl empty ↦ ground arith
    | inr full ↦ (code, e, full)
  ]
]

module _ (f : Format) (client : Client) (contracts : Support → Address → Contracts)
    (support : Support) (sender : Bytes) (before : List ExtensionTx) (printed : Bytes) where
  register_sender-Registered :
      (register_sender f client contracts support (f.address_of sender) before).0 ≡ ok printed
      → Registered f client contracts sender before
          (register_sender f client contracts support (f.address_of sender) before).1
          printed
  unfolding register_sender
  register_sender-Registered done =
      elim (Option-cases
        (address_has_code f (some client) (f.address_of sender) (str "InstructionSender"))) [
          | inr (x, e) ↦ ground arith
          | inl e ↦
              let c : Contracts = contracts support (f.address_of sender) in
              elim (Result-cases (setup_extension c before).0) [
                | inr (x, p) ↦ ground arith
                | inl (id, p) ↦
                    let (code, has, full) =
                      address_has_code-none f client (f.address_of sender) (str "InstructionSender")
                        e in
                    let shown : extension_id_text id ≡ printed = ground arith in
                    record {
                      support = support;
                      id = id;
                      code = code;
                      has_code = has;
                      some_code = full;
                      set_up = ground arith;
                      registered_once =
                          ground (arith, (setup_extension-registers_once c before).1 id p);
                      accepted = λ l.
                          ap is_extension_id (sym shown)
                          ∙ (extension_number-extension_id_text id l).0;
                      read_back = λ l.
                          ap extension_number (sym shown)
                          ∙ (extension_number-extension_id_text id l).1;
                    }
              ]
        ]

-- When register-extension prints an id, the instruction sender has code and SetupExtension returned
-- the id, with one registration; and where the id is a uint256, the printed text has the format of
-- EXTENSION_ID and verify-deploy reads the id back from it.
pub register_extension_main-Registered :
    (f : Format) (client : Client) (contracts : Support → Address → Contracts) (sender : Bytes)
    (found : Result Support) (before : List ExtensionTx) (printed : Bytes)
    → (register_extension_main f client contracts sender found before).0 ≡ ok printed
    → Registered f client contracts sender before
        (register_extension_main f client contracts sender found before).1
        printed
unfolding register_extension_main
register_extension_main-Registered f client contracts [] found before printed h = ground arith
register_extension_main-Registered f client contracts (b ∷ bs) (err e) before printed h =
    ground arith
register_extension_main-Registered f client contracts (b ∷ bs) (ok support) before printed h =
    register_sender-Registered f client contracts support (b ∷ bs) before printed h
