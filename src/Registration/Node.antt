-- ===== src/Registration/Node.antt =====
-- `RegisterNode` of tools/pkg/fccutils/registration.go and the steps that it takes.
use fce_extension_scaffold.Base.{
  ℕ, Bytes, str, Bool, false, not, ◌==◌, ◌||◌, ltb, length, if◌then◌else◌, Option, none, some,
  Result, ok, err, List, [], ◌∷◌, ◌++◌,
}
use fce_extension_scaffold.Support.Revert.{register_reason}
use fce_extension_scaffold.Support.Tx.{Receipt}
use fce_extension_scaffold.Registration.Availability.{availability_check_result}
use fce_extension_scaffold.Registration.Chain.{
  Hash, Address, register, attest, check_availability, to_production, RegistrationState, absent,
  unreadable, malformed, saved, Proof, Network, M, ◌>>=◌, ◌>>◌, lift, check, send_tx,
}

-- `strings.Contains` of one letter.
unfoldable pub contains : ℕ → Bytes → Bool
contains letter [] = false
contains letter (b ∷ bs) = b == letter || contains letter bs

-- The arguments of `RegisterNode`; `instruction_id` is already read as a hash.
pub record Request : Type 0 where
  pub command : Bytes
  pub instruction_id : Hash

abbrev pub fresh : RegistrationState
fresh = record { completed_steps = []; tee_attest_instruction_id = 0; instruction_id = 0 }

-- `loadState`.
unfoldable pub load_state : M RegistrationState
load_state w = elim w.file [
  | absent ↦ (ok fresh, w)
  | unreadable e ↦ (err (str "failed to read state file: " ++ e), w)
  | malformed e ↦ (err (str "failed to parse state file: " ++ e), w)
  | saved s ↦ (ok s, w)
]

module _ (net : Network) where
  -- `saveState`, where a failure is only logged.
  unfoldable pub save_state : RegistrationState → M (Unit {0})
  save_state s w = (ok tt, if net.writable then record w { file = saved s } else w)

  -- The instruction's id, from the first of the logs, of which there must be so many.
  unfoldable pub instruction_of : (fewest : ℕ) → Bytes → List ℕ → Result Hash
  instruction_of fewest missing [] = err missing
  instruction_of fewest missing (log ∷ logs) =
      if ltb (length (log ∷ logs)) fewest then err missing else elim (net.parse_instructions log) [
        | err e ↦ err (str "failed to parse TeeInstructionsSent event: " ++ e)
        | ok id ↦ ok id
      ]

  abbrev unexpected_logs : Bytes
  unexpected_logs = str "unexpected logs, this should not happen"

  -- `RequestTeeAttestation`.
  unfoldable pub request_tee_attestation : M Hash
  unfolding instruction_of
  request_tee_attestation = do
    check net.transactor
    receipt ← send_tx net (λ e. str "error: " ++ e) attest
    lift (instruction_of 2 unexpected_logs receipt.logs)

  -- The error of the second log's event, which `PreRegistration` reads first.
  unfoldable pub attestation_event : List ℕ → Option Bytes
  attestation_event [] = some unexpected_logs
  attestation_event (log ∷ []) = some unexpected_logs
  attestation_event (log ∷ second ∷ logs) = elim (net.parse_attestation second) [
    | none ↦ none
    | some e ↦ some (str "failed to parse TeeAttestationRequested event: " ++ e)
  ]

  -- The call of register(), whose error is explained.
  unfoldable pub send_register : M Receipt
  send_register w =
      send_tx net
        (λ e.
          str "register() reverted: "
          ++ register_reason net.decoder
              (record { message = e; payload = net.register_payload w.sent })
              (net.replay_register w.sent))
        register w

  -- `PreRegistration`, which gives the challenge too; `RegisterNode` does not use it.
  unfoldable pub pre_registration : M Hash
  unfolding send_register attestation_event instruction_of
  pre_registration = do
    check net.transactor
    check net.signature_error
    receipt ← send_register
    check (attestation_event receipt.logs)
    lift (instruction_of 2 unexpected_logs receipt.logs)

  -- `RequestFTDCAvailabilityCheck`.
  unfoldable pub request_availability_check : Hash → M Hash
  unfolding instruction_of
  request_availability_check attest_id = do
    check net.transactor
    receipt ← send_tx net (λ e. e) (check_availability attest_id)
    lift (instruction_of 1 (str "no logs found in receipt") receipt.logs)

  unfoldable pub production_check : Proof → M (Unit {0})
  production_check proof w = elim (net.get_tee_machine w.sent proof.request.tee_id) [
    | err e ↦ (err e, w)
    | ok id ↦ (
      if id == proof.request.tee_id then ok tt else err (str "tee machine not set up correctly"),
      w,
    )
  ]

  -- `ToProduction`.
  unfoldable pub promote : Proof → M (Unit {0})
  unfolding production_check
  promote proof = do
    check net.transactor
    receipt ← send_tx net (λ e. e) (to_production proof)
    production_check proof

  -- Whether the machine is on the chain already.
  abbrev is_registered : Result Address → Bool
  is_registered (err e) = false
  is_registered (ok id) = not (id == 0)

  -- A machine that is on the chain needs a new attestation only.
  unfoldable pub register_or_attest : Address → M Hash
  register_or_attest tee w =
      if is_registered (net.get_tee_machine w.sent tee)
      then request_tee_attestation w
      else pre_registration w

  -- The state with one more step completed, on disk too.
  unfoldable pub complete : RegistrationState → M RegistrationState
  unfolding save_state
  complete s w = (ok s, (save_state s w).1)

  unfoldable pub with_attestation : RegistrationState → Bytes → Hash → RegistrationState
  with_attestation s letter id = record s {
    completed_steps = s.completed_steps ++ letter;
    tee_attest_instruction_id = id;
  }

  -- A step "r" or "R" that is not completed yet.
  unfoldable pub attest_anew : ℕ → M Hash → RegistrationState → M (RegistrationState × Hash)
  unfolding complete with_attestation
  attest_anew letter act s = do
    id ← act
    s' ← complete (with_attestation s (letter ∷ []) id)
    lift (ok (s', id))

  -- The steps "r" and "R": the state and `teeAttestInstructionID` after them.
  unfoldable pub attestation_step :
      (letter : ℕ) → M Hash → Bytes → RegistrationState → Hash → M (RegistrationState × Hash)
  unfolding attest_anew contains
  attestation_step letter act command s a w =
      if contains letter command
      then (if contains letter s.completed_steps
          then (ok (s, s.tee_attest_instruction_id), w)
          else attest_anew letter act s w)
      else (ok (s, a), w)

  -- A step "a" that is not completed yet.
  unfoldable pub check_anew : RegistrationState → Hash → M Hash
  unfolding complete
  check_anew s a = do
    id ← request_availability_check a
    s' ←
        complete
          (record s { completed_steps = s.completed_steps ++ b'a' ∷ []; instruction_id = id })
    lift (ok id)

  -- The same behind the gate on the signing policy.
  unfoldable pub check_gated : RegistrationState → Hash → M Hash
  unfolding check_anew
  check_gated s a w = (check (net.policy_error w.sent) >> check_anew s a) w

  -- The step "a": `instructionID` after it.
  unfoldable pub availability_step : Request → RegistrationState → Hash → M Hash
  unfolding check_gated contains
  availability_step rq s a w =
      if contains b'a' rq.command
      then (if contains b'a' s.completed_steps then (ok s.instruction_id, w) else check_gated s a w)
      else (ok rq.instruction_id, w)

  unfoldable pub promote_result : Hash → M (Unit {0})
  unfolding availability_check_result
  promote_result id w =
      (lift (availability_check_result net.proof_reader (net.result_attempt w.sent id)) >>= promote)
        w

  -- The step "p".
  unfoldable pub promotion_step : Request → Hash → M (Unit {0})
  unfolding promote_result contains
  promotion_step rq id w = if contains b'p' rq.command then promote_result id w else (ok tt, w)

  unfoldable pub remove_state : M (Unit {0})
  remove_state w = (ok tt, if net.writable then record w { file = absent } else w)

  unfoldable pub from_promotion : Request → Hash → M (Unit {0})
  from_promotion rq id = do promotion_step rq id; remove_state

  unfoldable pub from_availability : Request → RegistrationState × Hash → M (Unit {0})
  unfolding from_promotion
  from_availability rq (s, a) = do id ← availability_step rq s a; from_promotion rq id

  unfoldable pub from_attestation : Request → RegistrationState × Hash → M (Unit {0})
  unfolding from_availability
  from_attestation rq (s, a) = do
    sa ← attestation_step b'R' request_tee_attestation rq.command s a
    from_availability rq sa

  unfoldable pub from_registration : Request → Address → RegistrationState → M (Unit {0})
  unfolding from_attestation
  from_registration rq tee s = do
    sa ← attestation_step b'r' (register_or_attest tee) rq.command s 0
    from_attestation rq sa

  -- `RegisterNode`.
  unfoldable pub register_node : Request → M (Unit {0})
  unfolding load_state from_registration
  register_node rq = do ids ← lift net.tee_proxy_id; s ← load_state; from_registration rq ids.0 s
