-- ===== src/Registration/Chain.antt =====
-- The chain as the registration sees it: the transactions of tools/pkg/fccutils/registration.go. A contract's answer may depend on every transaction that was
-- sent before; the contracts and the node are the record `Network`.
use fce_extension_scaffold.Base.{ℕ, Bytes, Bool, Option, none, some, Result, ok, err, List, ◌∷◌}
use fce_extension_scaffold.Support.Tx.{Receipt, check_tx}
use fce_extension_scaffold.Support.Revert.{ErrorData, AbiError, Call, Decoder}
use fce_extension_scaffold.Registration.Polling.{Attempt}

abbrev pub Hash : Type 0
Hash = ℕ

abbrev pub Address : Type 0
Address = ℕ

-- The request of an availability check; what is only copied is known by its number.
pub record CheckRequest : Type 0 where
  pub tee_id : Address
  pub rest : ℕ

-- ITeeAvailabilityCheckProof: the header and the response are known by their numbers.
pub record Proof : Type 0 where
  pub signatures : List Bytes
  pub header : ℕ
  pub request : CheckRequest
  pub response : ℕ

-- The transactions that the registration sends, with the arguments that differ from run to run.
pub data Tx : Type 0 where
  register : Tx  -- MachineManager.register
  attest : Tx  -- Verification.requestTeeAttestation
  check_availability : Hash → Tx  -- Verification.requestAvailabilityCheckAttestation
  to_production : Proof → Tx  -- MachineManager.toProduction

abbrev pub Sent : Type 0
Sent = List Tx

-- The state file.
pub record RegistrationState : Type 0 where
  pub completed_steps : Bytes
  pub tee_attest_instruction_id : Hash
  pub instruction_id : Hash

pub data StateFile : Type 0 where
  absent : StateFile
  unreadable : Bytes → StateFile  -- os.ReadFile fails otherwise
  malformed : Bytes → StateFile  -- json.Unmarshal fails
  saved : RegistrationState → StateFile

-- A call that is replayed, with the errors of its contract's ABI.
abbrev pub Replay : Type 0
Replay = List AbiError × Call

-- fdc.ProveResponse, with what is read of it.
pub record ProveResponse : Type 0 where
  pub response_header : Bytes
  pub request_body : Bytes
  pub response_body : Bytes
  pub signatures : List Bytes  -- DataProviderSignatures

-- The decoders of JSON and of package fdc, and `DecodeFTDCTeeAvailabilityCheckRequest` and
-- `DecodeFTDCTeeAvailabilityCheckResponse`, which call the ABI's decoder.
pub record ProofReader : Type 0 where
  pub result_data : Bytes → Result Bytes  -- the JSON of an ActionResponse, and its Result.Data
  pub prove_response : Bytes → Result ProveResponse
  pub header : Bytes → Result ℕ
  pub request : Bytes → Result CheckRequest
  pub response : Bytes → Result ℕ

-- The contracts, the node, the proxy and the file system, by what was sent before.
pub record Network : Type 0 where
  pub tee_proxy_id : Result (Address × Address)  -- `TeeProxyId` of the node's info
  pub transactor : Option Bytes  -- the error of bind.NewKeyedTransactorWithChainID
  pub signature_error : Option Bytes  -- of the node's signature in `PreRegistration`
  pub send : Sent → Tx → Result (Result Receipt)  -- the call, and then bind.WaitMined
  pub tx_hash : Sent → Tx → Bytes
  pub register_payload : Sent → ErrorData  -- the data of the error of a refused register()
  pub replay_register : Sent → Option Replay  -- `none` where the ABI cannot be loaded or packed
  pub decoder : Decoder
  pub failing_message : Sent → Tx → Result Bytes  -- `getFailingMessage`
  pub parse_attestation : ℕ → Option Bytes  -- the error of ParseTeeAttestationRequested
  pub parse_instructions : ℕ → Result Hash  -- ParseTeeInstructionsSent
  pub get_tee_machine : Sent → Address → Result Address
  pub policy_error : Sent → Option Bytes  -- `CheckFTDCProxyPolicyConsistency`
  pub result_attempt : Sent → Hash → ℕ → Attempt  -- the external proxy's answers for an instruction
  pub proof_reader : ProofReader
  pub writable : Bool  -- os.WriteFile and os.Remove succeed on the state file

pub record World : Type 0 where
  pub file : StateFile
  pub sent : Sent  -- the newest first

abbrev pub M : Type 0 → Type 0
M A = World → Result A × World

abbrev pub continue : {A B : Type 0} → Result A → World → (A → M B) → Result B × World
continue (ok a) w f = f a w
continue (err e) w f = (err e, w)

infixl 5 ◌>>=◌ ◌>>◌
abbrev pub ◌>>=◌ : {A B : Type 0} → M A → (A → M B) → M B
◌>>=◌ m f w = continue (m w).0 (m w).1 f

abbrev pub ◌>>◌ : {B : Type 0} → M (Unit {0}) → M B → M B
m >> k = m >>= λ _. k

-- The world is left alone.
abbrev pub lift : {A : Type 0} → Result A → M A
lift r w = (r, w)

-- An error, if there is one.
abbrev pub check : Option Bytes → M (Unit {0})
check none w = (ok tt, w)
check (some e) w = (err e, w)

module _ (net : Network) where
  -- A transaction that is sent stays sent, whatever becomes of it.
  unfoldable pub send_tx : (Bytes → Bytes) → Tx → M Receipt
  send_tx wrap tx w = elim (net.send w.sent tx) [
    | err e ↦ (err (wrap e), w)
    | ok mined ↦ (
      check_tx (net.tx_hash (tx ∷ w.sent) tx) (net.failing_message (tx ∷ w.sent) tx) mined,
      record w { sent = tx ∷ w.sent },
    )
  ]
