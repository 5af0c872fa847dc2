-- ===== src/Registration/Tests.antt =====
-- The theorems on the registration at a concrete network, and small runs of `RegisterNode`.
use fce_extension_scaffold.Base.{
  ℕ, ◌≤◌, length, zero, suc, ◌+◌, ◌<◌, Bytes, true, false, none, some, ok, [], ◌∷◌, ◌≡◌, refl, ◌⊎◌,
  arith,
}
use fce_extension_scaffold.Registration.Policy.{policy_in_sync, check_policy, out_of_sync_error}
use fce_extension_scaffold.Registration.Polling.{
  Attempt, answered, is_ok, repeats, conclude, action_result,
}
use fce_extension_scaffold.Registration.Info.{TeeInfo, Library}
use fce_extension_scaffold.Support.Tx.{check_tx}
use fce_extension_scaffold.Support.Revert.{ErrorData}
use fce_extension_scaffold.Registration.Chain.{
  Proof, ProofReader, RegistrationState, absent, saved, Network, World, register, attest,
  check_availability, to_production, send_tx,
}
use fce_extension_scaffold.Registration.Node.{
  Request, fresh, attest_anew, register_or_attest, request_tee_attestation, from_availability,
  from_attestation, register_node, pre_registration, contains, load_state, from_registration,
  from_promotion, attestation_step, complete, save_state, with_attestation, instruction_of,
  attestation_event, availability_step, check_anew, check_gated, request_availability_check,
  promotion_step, promote_result, promote, production_check, remove_state,
}
use fce_extension_scaffold.Registration.Polling.Requests.{requests, action_result_stops}
use fce_extension_scaffold.Registration.Promotion.{Promoted, promotion_step-Promoted}
use fce_extension_scaffold.Registration.Resume.{register_node_resumes_r}
use fce_extension_scaffold.Registration.Grows.{Grows}
use fce_extension_scaffold.Registration.Gate.{
  InSync, register_node-InSync, Unattested, register_node-Unattested,
}
use fce_extension_scaffold.Registration.Safety.{registrations, register_node-registers_once}

-- Proofs of the machine 5, in a format that says nothing.
abbrev reader : ProofReader
reader = record {
  result_data = λ b. ok b;
  prove_response = λ b.
      ok (record { response_header = []; request_body = []; response_body = []; signatures = [] });
  header = λ b. ok 0;
  request = λ b. ok (record { tee_id = 5; rest = 0 });
  response = λ b. ok 99;
}

abbrev proof_of_5 : Proof
proof_of_5 = record {
  signatures = [];
  header = 0;
  request = record { tee_id = 5; rest = 0 };
  response = 99;
}

-- A network on which all goes well; the id of an instruction is the number of its log.
abbrev net : Network
net = record {
  tee_proxy_id = ok (5, 6);
  transactor = none;
  signature_error = none;
  send = λ sent tx. ok (ok (record { status = 1; logs = 11 ∷ 12 ∷ [] }));
  tx_hash = λ sent tx. [];
  register_payload = λ sent. ErrorData.absent;
  replay_register = λ sent. none;
  decoder = record { unpack_revert = λ d. none; from_hex = λ b. b };
  failing_message = λ sent tx. ok [];
  parse_attestation = λ log. none;
  parse_instructions = λ log. ok log;
  get_tee_machine = λ sent tee. elim sent [ [] ↦ ok 0 | tx ∷ rest ↦ ok tee ];
  policy_error = λ sent. none;
  result_attempt = λ sent id j. answered 200 (id ∷ []);
  proof_reader = reader;
  writable = true;
}

-- The command of the deployment scripts, rRap.
abbrev deploy_request : Request
deploy_request = record { command = b'r' ∷ b'R' ∷ b'a' ∷ b'p' ∷ []; instruction_id = 0 }

abbrev begin : World
begin = record { file = absent; sent = [] }

register_node_runs : register_node net deploy_request begin ≡ (
  ok tt,
  record {
    file = absent;
    sent = to_production proof_of_5 ∷ check_availability 11 ∷ attest ∷ register ∷ [];
  },
)
unfolding register_node register_or_attest pre_registration request_tee_attestation send_tx
    load_state from_registration from_attestation from_availability from_promotion attestation_step
    attest_anew complete save_state with_attestation contains instruction_of attestation_event
    check_tx availability_step check_gated check_anew request_availability_check promotion_step
    promote_result promote production_check remove_state action_result
register_node_runs = refl

abbrev registered : RegistrationState
registered = record {
  completed_steps = b'r' ∷ [];
  tee_attest_instruction_id = 11;
  instruction_id = 0;
}

abbrev after_r : World
after_r = record { file = saved registered; sent = register ∷ [] }

step_r :
    attest_anew net b'r' (register_or_attest net 5) fresh begin ≡ (ok (registered, 11), after_r)
unfolding attest_anew register_or_attest pre_registration send_tx complete save_state
    with_attestation instruction_of attestation_event check_tx
step_r = refl

register_node-registers_once_example :
    registrations (register_node net deploy_request after_r).1.sent ≡ 1
unfolding contains
register_node-registers_once_example =
    register_node-registers_once net deploy_request (5, 6) fresh begin after_r refl refl refl step_r
      refl

register_node_resumes_r_example :
    register_node net deploy_request after_r
    ≡ from_attestation net deploy_request (registered, 11) after_r
unfolding contains
register_node_resumes_r_example =
    register_node_resumes_r net refl deploy_request (5, 6) fresh begin after_r refl refl step_r refl

abbrev attested : RegistrationState
attested = record {
  completed_steps = b'r' ∷ b'R' ∷ [];
  tee_attest_instruction_id = 11;
  instruction_id = 0;
}

abbrev after_R : World
after_R = record { file = saved attested; sent = attest ∷ register ∷ [] }

step_R :
    attest_anew net b'R' (request_tee_attestation net) registered after_r
    ≡ (ok (attested, 11), after_R)
unfolding attest_anew request_tee_attestation send_tx complete save_state with_attestation
    instruction_of check_tx
step_R = refl

-- The command "a" alone.
abbrev availability_request : Request
availability_request = record { command = b'a' ∷ []; instruction_id = 0 }

register_node-Unattested_example :
    Grows Unattested after_R.sent (register_node net availability_request after_R).1.sent
unfolding contains
register_node-Unattested_example =
    register_node-Unattested net availability_request after_R refl refl

-- It asks for a check of the attestation 0, and not of the attestation 11 of the state file.
availability_runs :
    (register_node net availability_request after_R).1.sent
    ≡ check_availability 0 ∷ attest ∷ register ∷ []
unfolding register_node send_tx load_state from_registration from_attestation from_availability
    from_promotion attestation_step complete save_state contains instruction_of check_tx
    availability_step check_gated check_anew request_availability_check promotion_step remove_state
availability_runs = refl

-- The epoch is the number of the transactions before, and the proxy is at the policy 2.
register_node-InSync_example :
    (let gated : Network = record net {
      policy_error = λ sent. check_policy (ok (some (length sent))) (ok 2);
    } in
      Grows
        (InSync (λ sent. ok (some (length sent))) (λ sent. ok 2))
        begin.sent
        (register_node gated deploy_request begin).1.sent)
register_node-InSync_example =
    register_node-InSync (λ sent. ok (some (length sent))) (λ sent. ok 2) net deploy_request begin

behind : check_policy (ok (some 9)) (ok 7) ≡ some (out_of_sync_error 9 7)
unfolding check_policy policy_in_sync
behind = refl

-- The proxy has the result from the second request on.
abbrev get : ℕ → Attempt
get zero = answered 404 []
get (suc j) = answered 200 (j ∷ [])

missed_at_first : (j : ℕ) → j < 1 → is_ok (get j) ≡ false
missed_at_first zero l = refl
missed_at_first (suc j) l = absurd (omega arith)

-- An attestation that claims its own length as the code hash and the platform 2.
abbrev claims : Library
claims = record {
  Claims = Bytes;
  parse_claims = λ b. ok b;
  claimed_code_hash = λ b. ok (length b);
  claimed_platform = λ b. ok 2;
  parse_pub_key = λ b. ok (length b);
  key_address = λ k. k;
  info_hash = λ i. ok 1;
  payload_hash = λ i h. ok h;
  sig_to_pub = λ h b. ok (length b);
}

abbrev tee : TeeInfo
tee = record {
  public_key = [];
  attestation = 1 ∷ 1 ∷ 1 ∷ [];
  code_hash = 3;
  platform = 2;
  proxy_signature = [];
}

abbrev checked : World
checked = record { file = absent; sent = register ∷ [] }

promoted : (promotion_step net deploy_request 11 checked).0 ≡ ok tt
unfolding promotion_step promote_result promote production_check send_tx check_tx action_result
    contains
promoted = refl

promotion_step-Promoted_example :
    Promoted net 11 checked (promotion_step net deploy_request 11 checked).1
unfolding contains
promotion_step-Promoted_example =
    promotion_step-Promoted net deploy_request 11 checked refl promoted

action_result_stops_example :
    (last : ℕ) × (requests get ≡ last + 1)
    × (requests get ≤ repeats)
    × (action_result {A = Bytes} ok get ≡ conclude ok (get last))
    × ((j : ℕ) → j < last → is_ok (get j) ≡ false)
    × ((is_ok (get last) ≡ true) ⊎ (requests get ≡ repeats))
action_result_stops_example = action_result_stops ok get
