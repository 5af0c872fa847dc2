-- ===== src/Registration/Gate.antt =====
-- Which availability checks a run of `RegisterNode` of registration.go asks for: the gate of
-- policy_consistency.go before them, and the attestation that they are for.
use fce_extension_scaffold.Base.{
  ℕ, ◌+◌, ◌%◌, ◌^◌, Bytes, str, false, if◌then◌else◌, Option, none, some, Result, ok, ◌∷◌, [], ◌≡◌,
  ◌≢◌, refl, sym, subst, arith,
}
use fce_extension_scaffold.Registration.Chain.{
  Hash, Address, Tx, register, attest, check_availability, to_production, Sent, RegistrationState,
  absent, unreadable, malformed, saved, StateFile, Proof, Network, World, M, lift, send_tx,
}
use fce_extension_scaffold.Registration.Policy.{policy_in_sync, check_policy}
use fce_extension_scaffold.Registration.Node.{
  contains, Request, load_state, complete, with_attestation, attestation_step, attest_anew,
  request_tee_attestation, attestation_event, instruction_of, pre_registration, send_register,
  register_or_attest, from_attestation, from_registration, register_node,
}
use fce_extension_scaffold.Registration.Grows.{
  Grows, unchanged, Adds, Adds-quiet, bind-Adds, if-Adds, check-Adds, send_tx-Adds, complete-Adds,
  from_availability-Adds,
}
use fce_extension_scaffold.Registration.Resume.{from_registration-unattested}

load_state-sent : (w : World) → (load_state w).1.sent ≡ w.sent
unfolding load_state
load_state-sent w = by_file w.file refl
  where
    by_file : (f : StateFile) → w.file ≡ f → (load_state w).1.sent ≡ w.sent
    by_file absent e = rw e refl
    by_file (unreadable x) e = rw e refl
    by_file (malformed x) e = rw e refl
    by_file (saved s) e = rw e refl

module _ (P : Sent → Tx → Type 0) (net : Network) (registers : (sent : Sent) → P sent register)
    (attests : (sent : Sent) → P sent attest) where
  request_tee_attestation-Adds : (w : World) → Adds P (request_tee_attestation net) w
  unfolding request_tee_attestation
  request_tee_attestation-Adds w = check-Adds P net.transactor _ w (λ fine.
      bind-Adds P (send_tx net _ attest) _ w (send_tx-Adds P net _ attest w (attests w.sent))
        (λ receipt e. unchanged))

  pre_registration-Adds : (w : World) → Adds P (pre_registration net) w
  unfolding pre_registration send_register
  pre_registration-Adds w = check-Adds P net.transactor _ w (λ fine.
      check-Adds P net.signature_error _ w (λ signed.
        bind-Adds P (send_register net) _ w (send_tx-Adds P net _ register w (registers w.sent))
          (λ receipt e.
            check-Adds P {B = Hash} (attestation_event net receipt.logs)
              (lift
                (instruction_of net 2 (str "unexpected logs, this should not happen") receipt.logs))
              (send_register net w).1 (λ event. unchanged))))

  attestation_step-Adds :
      (letter : ℕ) (act : M Hash) (command : Bytes) (s : RegistrationState) (a : Hash) (w : World)
      → Adds P act w
      → Adds P (attestation_step net letter act command s a) w
  unfolding attestation_step attest_anew
  attestation_step-Adds letter act command s a w h =
      if-Adds P (contains letter command)
        (λ v.
          (if contains letter s.completed_steps
            then (ok (s, s.tee_attest_instruction_id), v)
            else attest_anew net letter act s v))
        (lift (ok (s, a))) w
        (λ has.
          if-Adds P (contains letter s.completed_steps) (lift (ok (s, s.tee_attest_instruction_id)))
            (attest_anew net letter act s) w (λ done. unchanged)
            (λ todo. bind-Adds P act _ w h (λ id e.
              bind-Adds P {B = RegistrationState × Hash}
                (complete net (with_attestation net s (letter ∷ []) id)) (λ s'. lift (ok (s', id)))
                _ (complete-Adds P net _ _) (λ s' e'. unchanged))))
        (λ none_asked. unchanged)

  register_or_attest-Adds : (tee : Address) (w : World) → Adds P (register_or_attest net tee) w
  unfolding register_or_attest
  register_or_attest-Adds tee w =
      if-Adds P _ (request_tee_attestation net) (pre_registration net) w
        (λ there. request_tee_attestation-Adds w) (λ new. pre_registration-Adds w)

  register_node-Adds :
      (rq : Request) (w : World)
      → ((sent : Sent) (a : Hash) → net.policy_error sent ≡ none → P sent (check_availability a))
      → ((sent : Sent) (proof : Proof) → P sent (to_production proof))
      → Adds P (register_node net rq) w
  unfolding register_node from_registration from_attestation
  register_node-Adds rq w gated production =
      bind-Adds P (lift net.tee_proxy_id) _ w unchanged (λ ids e.
        bind-Adds P load_state _ w (Adds-quiet P load_state w (load_state-sent w)) (λ s e'.
          bind-Adds P (attestation_step net b'r' (register_or_attest net ids.0) rq.command s 0) _ _
            (attestation_step-Adds b'r' _ rq.command s 0 _ (register_or_attest-Adds ids.0 _))
            (λ sa e''.
              bind-Adds P
                (attestation_step net b'R' (request_tee_attestation net) rq.command sa.0 sa.1) _ _
                (attestation_step-Adds b'R' _ rq.command sa.0 sa.1 _
                  (request_tee_attestation-Adds _))
                (λ sb e3.
                  from_availability-Adds P net production rq sb.0 sb.1 (λ sent. gated sent sb.1)
                    _))))

-- The lookups of an epoch and of a policy that the data providers would refuse: neither the epoch nor
-- the next one, as 64-bit integers.
abbrev pub Mismatch : Result (Option ℕ) → Result ℕ → Type 0
Mismatch onchain info =
    (epoch : ℕ) × (policy : ℕ) × (onchain ≡ ok (some epoch))
    × (info ≡ ok policy)
    × (policy ≢ epoch % 2 ^ 64)
    × (policy ≢ (epoch + 1) % 2 ^ 64)

check_policy-passes :
    (onchain : Result (Option ℕ)) (info : Result ℕ)
    → check_policy onchain info ≡ none
    → ¬ Mismatch onchain info
unfolding check_policy policy_in_sync
check_policy-passes onchain info h (epoch, policy, e, i, behind, ahead) = ground arith

-- Whether a transaction is no availability check, or one that is asked for without a mismatch.
abbrev pub InSync : (Sent → Result (Option ℕ)) → (Sent → Result ℕ) → Sent → Tx → Type 0
InSync onchain info sent (check_availability a) = ¬ Mismatch (onchain sent) (info sent)
InSync onchain info sent _ = Unit

-- Where the gate is `CheckFTDCProxyPolicyConsistency`: whatever the command, the state file and the
-- network, a run asks for an availability check only where the lookups right before it did not both
-- give a value with the proxy's policy neither the epoch nor the next one, as 64-bit integers.
pub register_node-InSync :
    (onchain : Sent → Result (Option ℕ)) (info : Sent → Result ℕ) (net : Network) (rq : Request)
    (w : World)
    → (let gated : Network = record net {
      policy_error = λ sent. check_policy (onchain sent) (info sent);
    } in
        Grows (InSync onchain info) w.sent (register_node gated rq w).1.sent)
register_node-InSync onchain info net rq w =
    register_node-Adds (InSync onchain info)
      (record net { policy_error = λ sent. check_policy (onchain sent) (info sent) }) (λ sent. tt)
      (λ sent. tt) rq w (λ sent a fine. check_policy-passes (onchain sent) (info sent) fine)
      (λ sent proof. tt)

-- What a run without an attestation of its own may send.
abbrev pub Unattested : Sent → Tx → Type 0
Unattested sent register = ⊥
Unattested sent attest = ⊥
Unattested sent (check_availability a) = a ≡ 0
Unattested sent (to_production proof) = Unit

-- Whatever the state file holds and wherever the run fails: a run whose command has neither "r" nor "R"
-- sends no registration and no request for an attestation, and every availability check that it asks
-- for is for the attestation id 0, also where the state file has the id of an attestation.
pub register_node-Unattested :
    (net : Network) (rq : Request) (w : World)
    → contains b'r' rq.command ≡ false
    → contains b'R' rq.command ≡ false
    → Grows Unattested w.sent (register_node net rq w).1.sent
unfolding register_node
register_node-Unattested net rq w r bigr =
    bind-Adds Unattested (lift net.tee_proxy_id) _ w unchanged (λ ids e.
      bind-Adds Unattested load_state _ w (Adds-quiet Unattested load_state w (load_state-sent w))
        (λ s e'.
          subst (λ (x : Result (Unit {0}) × World). Grows Unattested (load_state w).1.sent x.1.sent)
            (sym (from_registration-unattested net rq ids.0 s (load_state w).1 r bigr))
            (from_availability-Adds Unattested net (λ sent proof. tt) rq s 0 (λ sent fine. refl)
              (load_state w).1)))
