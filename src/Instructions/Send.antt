-- ===== src/Instructions/Send.antt =====
-- tools/pkg/utils/instructions.go: the contract that sends instructions, and the transactions to it.
use fce_extension_scaffold.Base.{
  ℕ, Bytes, str, is_empty, show_nat, ◌==◌, if◌then◌else◌, Bool, true, false, Option, none, some,
  Option-cases, Result, Result-cases, ok, err, List, [], ◌∷◌, ◌++◌, ◌≡◌, refl, ◌⊎◌, inl, inr, arith,
}
use fce_extension_scaffold.Support.Revert.{
  CallError, Call, Decoder, decode_revert_reason, simulate_and_decode_revert,
}
use fce_extension_scaffold.Support.Tx.{Receipt, M, ◌>>=◌, ◌>>◌, check}

abbrev pub Hash : Type 0
Hash = ℕ

abbrev pub Address : Type 0
Address = ℕ

pub data InstructionTx : Type 0 where
  deploy : InstructionTx
  set_extension_id : InstructionTx
  say_hello : (message : Bytes) → InstructionTx
  say_goodbye : (name reason : Bytes) → InstructionTx

-- A call is refused, or the transaction is sent and bind.WaitMined gives a receipt or an error.
pub data Outcome : Type 0 where
  refused : CallError → Outcome
  sent_off : Result Receipt → Outcome

-- The contract, the node and go-ethereum, by what was sent before.
pub record Node : Type 0 where
  pub bind_error : Option Bytes  -- NewHelloWorldInstructionSender
  pub transactor : Option Bytes  -- the error of bind.NewKeyedTransactorWithChainID
  pub call : List InstructionTx → InstructionTx → Outcome
  pub replay : List InstructionTx → InstructionTx → Option Call  -- `none` where the ABI cannot be packed
  pub decoder : Decoder
  pub parse_instructions : ℕ → Result Hash  -- ParseTeeInstructionsSent
  pub deployed_at : List InstructionTx → Address
  pub tx_hash : InstructionTx → Bytes

abbrev pub failed_to : Bytes → Option Bytes → Option Bytes
failed_to text none = none
failed_to text (some e) = some (text ++ e)

-- A text with the reason for a revert, where there is one.
unfoldable pub with_reason : Bytes → Bytes → Bytes
with_reason text reason =
    if is_empty reason then text else text ++ str " (revert reason: " ++ reason ++ str ")"

-- How the errors of an operation are worded: a refused call, and a receipt's status with the reason.
pub record Wording : Type 0 where
  pub call_refused : Bytes
  pub tx_failed : (status : ℕ) → (reason : Bytes) → Bytes
  pub explains : Bool  -- whether the operation looks for a reason

unfoldable pub set_wording : Wording
set_wording = record {
  call_refused = str "failed to call setExtensionId: ";
  tx_failed = λ status reason. with_reason (str "setExtensionId transaction failed") reason;
  explains = true;
}

unfoldable pub hello_wording : Wording
hello_wording = record {
  call_refused = str "failed to send instruction: ";
  tx_failed = λ status reason.
      if is_empty reason
      then str "transaction failed with status: " ++ show_nat status
      else with_reason (str "transaction failed with status " ++ show_nat status) reason;
  explains = true;
}

unfoldable pub goodbye_wording : Wording
goodbye_wording = record {
  call_refused = str "failed to send instruction: ";
  tx_failed = λ status reason. str "transaction failed with status: " ++ show_nat status;
  explains = false;
}

module _ (n : Node) where
  -- The reason that a replay of the call shows.
  unfoldable pub replayed_reason : List InstructionTx → InstructionTx → Bytes
  replayed_reason sent tx = elim (n.replay sent tx) [
    | none ↦ []
    | some call ↦ simulate_and_decode_revert n.decoder call
  ]

  unfoldable pub refusal_reason : List InstructionTx → InstructionTx → CallError → Bytes
  unfolding replayed_reason
  refusal_reason sent tx e =
      if is_empty (decode_revert_reason n.decoder e)
      then replayed_reason sent tx
      else decode_revert_reason n.decoder e

  unfoldable pub mined :
      Wording → List InstructionTx → InstructionTx → Result Receipt → Result Receipt
  mined w sent tx (err e) = err (str "failed waiting for transaction: " ++ e)
  mined w sent tx (ok receipt) =
      if receipt.status == 1
      then ok receipt
      else err (w.tx_failed receipt.status (if w.explains then replayed_reason sent tx else []))

  unfoldable pub submit : Wording → InstructionTx → M InstructionTx Receipt
  unfolding mined refusal_reason with_reason
  submit w tx sent = elim (n.call sent tx) [
    | refused e ↦ (
      err (
          with_reason (w.call_refused ++ e.message)
            (if w.explains then refusal_reason sent tx e else [])),
      sent,
    )
    | sent_off receipt ↦ (mined w (tx ∷ sent) tx receipt, tx ∷ sent)
  ]

  abbrev pub bind_contract : M InstructionTx (Unit {0})
  bind_contract = do
    check (failed_to (str "failed to bind contract: ") n.bind_error)
    check (failed_to (str "failed to create transactor: ") n.transactor)

  unfoldable pub instruction_id : List ℕ → Result Hash
  instruction_id [] = err (str "no logs found in receipt")
  instruction_id (log ∷ logs) = elim (n.parse_instructions log) [
    | err e ↦ err (str "failed to parse TeeInstructionsSent event: " ++ e)
    | ok id ↦ ok id
  ]

  -- `SetExtensionId`.
  unfoldable pub set_extension_id_on : M InstructionTx Receipt
  set_extension_id_on = do bind_contract; submit set_wording set_extension_id

  abbrev pub send_instruction : Wording → InstructionTx → M InstructionTx Hash
  send_instruction w tx = do
    bind_contract
    receipt ← submit w tx
    λ sent. (instruction_id receipt.logs, sent)

  -- `SendSayHello`, without the transaction's hash.
  unfoldable pub send_say_hello : Bytes → M InstructionTx Hash
  send_say_hello message = send_instruction hello_wording (say_hello message)

  -- `SendSayGoodbye`, without the transaction's hash.
  unfoldable pub send_say_goodbye : Bytes → Bytes → M InstructionTx Hash
  send_say_goodbye name reason = send_instruction goodbye_wording (say_goodbye name reason)

  unfoldable pub deployed : List InstructionTx → Result Receipt → Result Address
  deployed sent (err e) =
      err
        (str "deployment tx not mined within 2 minutes (tx: " ++ n.tx_hash deploy ++ str "): " ++ e)
  deployed sent (ok receipt) =
      if receipt.status == 1
      then ok (n.deployed_at sent)
      else err (str "contract deployment failed")

  -- The end of `DeployInstructionSender`.
  unfoldable pub submit_deploy : M InstructionTx Address
  unfolding deployed
  submit_deploy sent = elim (n.call sent deploy) [
    | refused e ↦ (err (str "failed to deploy contract: " ++ e.message), sent)
    | sent_off receipt ↦ (deployed (deploy ∷ sent) receipt, deploy ∷ sent)
  ]

  -- `DeployInstructionSender`.
  unfoldable pub deploy_instruction_sender : M InstructionTx Address
  deploy_instruction_sender = do
    check (failed_to (str "failed to create transactor: ") n.transactor)
    submit_deploy

-- What an instruction's id says: the transaction was sent, mined with status 1, and its first log is
-- the event that holds the id.
pub record Accepted (n : Node) (tx : InstructionTx) (before after : List InstructionTx) (id : Hash)
    : Type 0 where
  pub receipt : Receipt
  pub log : ℕ
  pub logs : List ℕ
  pub only_tx : after ≡ tx ∷ before
  pub called : n.call before tx ≡ sent_off (ok receipt)
  pub succeeded : receipt.status ≡ 1
  pub has_log : receipt.logs ≡ log ∷ logs
  pub parsed : n.parse_instructions log ≡ ok id

pub Outcome-cases :
    (o : Outcome) → ((e : CallError) × (o ≡ refused e)) ⊎ ((r : Result Receipt) × (o ≡ sent_off r))
Outcome-cases (refused e) = inl (e, refl)
Outcome-cases (sent_off r) = inr (r, refl)

module _ (n : Node) (w : Wording) (tx : InstructionTx) (sent : List InstructionTx) where
  submit-ok :
      {r : Receipt}
      → (submit n w tx sent).0 ≡ ok r
      → (n.call sent tx ≡ sent_off (ok r)) × (r.status ≡ 1) × ((submit n w tx sent).1 ≡ tx ∷ sent)
  unfolding submit mined
  submit-ok h = elim (Outcome-cases (n.call sent tx)) [
    | inl (e, p) ↦ ground arith
    | inr (r, p) ↦ elim (Result-cases r) [
      | inr (x, q) ↦ ground arith
      | inl (receipt, q) ↦ ground arith
    ]
  ]

module _ (n : Node) (w : Wording) (tx : InstructionTx) (sent : List InstructionTx) where
  logs-cases :
      (logs : List ℕ) {id : Hash}
      → instruction_id n logs ≡ ok id
      → (log : ℕ) × (rest : List ℕ) × (logs ≡ log ∷ rest) × (n.parse_instructions log ≡ ok id)
  unfolding instruction_id
  logs-cases [] h = cc
  logs-cases (log ∷ rest) h = elim (Result-cases (n.parse_instructions log)) [
    | inl (id, e) ↦ (log, rest, refl, ground arith)
    | inr (x, e) ↦ ground arith
  ]

  -- SendSayHello and SendSayGoodbye return an id only for a transaction of theirs that was sent, that
  -- was mined with status 1, and whose first log holds that id; they send nothing else.
  pub send_instruction-Accepted :
      {id : Hash}
      → (send_instruction n w tx sent).0 ≡ ok id
      → Accepted n tx sent (send_instruction n w tx sent).1 id
  send_instruction-Accepted {id} h = elim (Option-cases n.bind_error) [
    | inr (x, e) ↦ ground arith
    | inl e ↦ elim (Option-cases n.transactor) [
      | inr (x, e') ↦ ground arith
      | inl e' ↦ elim (Result-cases (submit n w tx sent).0) [
        | inr (x, p) ↦ ground arith
        | inl (r, p) ↦
            let (called, succeeded, only) = submit-ok n w tx sent p in
            let (log, rest, has, parsed) = logs-cases r.logs {id = id} (ground arith) in
            record {
              receipt = r;
              log = log;
              logs = rest;
              only_tx = ground (arith, only);
              called = called;
              succeeded = succeeded;
              has_log = has;
              parsed = parsed;
            }
      ]
    ]
  ]
