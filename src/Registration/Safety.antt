-- ===== src/Registration/Safety.antt =====
-- Which transactions a run of `RegisterNode` of registration.go sends.
use fce_extension_scaffold.Base.{
  ℕ, suc, Bytes, Bool, true, false, if◌then◌else◌, Option, none, some, Result, ok, err, [], ◌∷◌,
  ◌++◌, ◌≡◌, refl, ◌∙◌, ap, arith, Result-cases, inl, inr,
}
use fce_extension_scaffold.Registration.Availability.{availability_check_result}
use fce_extension_scaffold.Registration.Chain.{
  Hash, Address, Tx, register, attest, check_availability, to_production, Sent, RegistrationState,
  Proof, Network, World, M, ◌>>=◌, continue, lift, check, send_tx,
}
use fce_extension_scaffold.Registration.Node.{
  contains, Request, save_state, complete, attestation_step, attest_anew, with_attestation,
  check_anew, check_gated, promote_result, request_tee_attestation, register_or_attest,
  request_availability_check, availability_step, promotion_step, promote, production_check,
  remove_state, from_promotion, from_availability, from_attestation, register_node,
}
use fce_extension_scaffold.Registration.Resume.{register_node_resumes_r}

abbrev pub is_register : Tx → Bool
is_register register = true
is_register _ = false

-- How many registrations were sent.
abbrev pub registrations : Sent → ℕ
registrations [] = 0
registrations (tx ∷ sent) =
    let before = registrations sent in if is_register tx then suc before else before

-- An action sends no registration.
abbrev Keeps : {A : Type 0} → M A → Type 0
Keeps m = (w : World) → registrations (m w).1.sent ≡ registrations w.sent

continue-Keeps :
    {A B : Type 0} (r : Result A) (w : World) (f : A → M B)
    → ((a : A) → Keeps (f a))
    → registrations (continue r w f).1.sent ≡ registrations w.sent
continue-Keeps (ok a) w f h = h a w
continue-Keeps (err e) w f h = refl

bind-Keeps :
    {A B : Type 0} (m : M A) (f : A → M B) → Keeps m → ((a : A) → Keeps (f a)) → Keeps (m >>= f)
bind-Keeps m f hm hf w = continue-Keeps (m w).0 (m w).1 f hf ∙ hm w

check-Keeps : (e : Option Bytes) → Keeps (check e)
check-Keeps none w = refl
check-Keeps (some x) w = refl

if-Keeps :
    {A : Type 0} (b : Bool) (m n : M A) → Keeps m → Keeps n → Keeps (λ w. (if b then m w else n w))
if-Keeps true m n hm hn w = hm w
if-Keeps false m n hm hn w = hn w

module _ (net : Network) where
  send_tx-Keeps :
      (wrap : Bytes → Bytes) (tx : Tx) → is_register tx ≡ false → Keeps (send_tx net wrap tx)
  unfolding send_tx
  send_tx-Keeps wrap tx h w = elim (Result-cases (net.send w.sent tx)) [
    | inl (mined, e) ↦ ground arith
    | inr (x, e) ↦ ground arith
  ]

  complete-Keeps : (s : RegistrationState) → Keeps (complete net s)
  unfolding complete save_state
  complete-Keeps s w = ground arith

  request_tee_attestation-Keeps : Keeps (request_tee_attestation net)
  unfolding request_tee_attestation
  request_tee_attestation-Keeps =
      bind-Keeps (check net.transactor) _ (check-Keeps net.transactor)
        (λ u. bind-Keeps (send_tx net _ attest) _ (send_tx-Keeps _ attest refl) (λ receipt w. refl))

  request_availability_check-Keeps : (id : Hash) → Keeps (request_availability_check net id)
  unfolding request_availability_check
  request_availability_check-Keeps id =
      bind-Keeps (check net.transactor) _ (check-Keeps net.transactor) (λ u.
        bind-Keeps (send_tx net _ (check_availability id)) _
          (send_tx-Keeps _ (check_availability id) refl) (λ receipt w. refl))

  production_check-Keeps : (proof : Proof) → Keeps (production_check net proof)
  unfolding production_check
  production_check-Keeps proof w =
      elim (Result-cases (net.get_tee_machine w.sent proof.request.tee_id)) [
        | inl (id, e) ↦ ground arith
        | inr (x, e) ↦ ground arith
      ]

  promote-Keeps : (proof : Proof) → Keeps (promote net proof)
  unfolding promote
  promote-Keeps proof = bind-Keeps (check net.transactor) _ (check-Keeps net.transactor) (λ u.
      bind-Keeps (send_tx net _ (to_production proof)) _
        (send_tx-Keeps _ (to_production proof) refl) (λ receipt. production_check-Keeps proof))

  attest_anew-Keeps :
      (letter : ℕ) (act : M Hash) (s : RegistrationState)
      → Keeps act
      → Keeps (attest_anew net letter act s)
  unfolding attest_anew
  attest_anew-Keeps letter act s h = bind-Keeps act _ h (λ id.
      bind-Keeps {B = RegistrationState × Hash}
        (complete net (with_attestation net s (letter ∷ []) id)) (λ s'. lift (ok (s', id)))
        (complete-Keeps _) (λ s' w. refl))

  attestation_step-Keeps :
      (letter : ℕ) (act : M Hash) (command : Bytes) (s : RegistrationState) (a : Hash)
      → Keeps act
      → Keeps (attestation_step net letter act command s a)
  unfolding attestation_step
  attestation_step-Keeps letter act command s a h =
      if-Keeps (contains letter command) _ _
        (if-Keeps (contains letter s.completed_steps) _ _ (λ w. refl)
          (attest_anew-Keeps letter act s h))
        (λ w. refl)

  check_anew-Keeps : (s : RegistrationState) (a : Hash) → Keeps (check_anew net s a)
  unfolding check_anew
  check_anew-Keeps s a =
      bind-Keeps (request_availability_check net a) _ (request_availability_check-Keeps a) (λ id.
        bind-Keeps {B = Hash}
          (complete net
            (record s { completed_steps = s.completed_steps ++ b'a' ∷ []; instruction_id = id }))
          (λ s'. lift (ok id)) (complete-Keeps _) (λ s' w. refl))

  check_gated-Keeps : (s : RegistrationState) (a : Hash) → Keeps (check_gated net s a)
  unfolding check_gated
  check_gated-Keeps s a w =
      bind-Keeps (check (net.policy_error w.sent)) _ (check-Keeps (net.policy_error w.sent))
        (λ u. check_anew-Keeps s a) w

  promote_result-Keeps : (id : Hash) → Keeps (promote_result net id)
  unfolding promote_result
  promote_result-Keeps id w =
      bind-Keeps (lift (availability_check_result net.proof_reader (net.result_attempt w.sent id)))
        (promote net) (λ v. refl) promote-Keeps w

  availability_step-Keeps :
      (rq : Request) (s : RegistrationState) (a : Hash) → Keeps (availability_step net rq s a)
  unfolding availability_step
  availability_step-Keeps rq s a =
      if-Keeps (contains b'a' rq.command) _ _
        (if-Keeps (contains b'a' s.completed_steps) _ _ (λ w. refl) (check_gated-Keeps s a))
        (λ w. refl)

  promotion_step-Keeps : (rq : Request) (id : Hash) → Keeps (promotion_step net rq id)
  unfolding promotion_step
  promotion_step-Keeps rq id =
      if-Keeps (contains b'p' rq.command) _ _ (promote_result-Keeps id) (λ w. refl)

  remove_state-Keeps : Keeps (remove_state net)
  unfolding remove_state
  remove_state-Keeps w = ground arith

  from_attestation-Keeps :
      (rq : Request) (sa : RegistrationState × Hash) → Keeps (from_attestation net rq sa)
  unfolding from_attestation from_availability from_promotion
  from_attestation-Keeps rq (s, a) =
      bind-Keeps (attestation_step net b'R' (request_tee_attestation net) rq.command s a) _
        (attestation_step-Keeps b'R' (request_tee_attestation net) rq.command s a
          request_tee_attestation-Keeps)
        (λ sa.
          bind-Keeps (availability_step net rq sa.0 sa.1) _ (availability_step-Keeps rq sa.0 sa.1)
            (λ id.
              bind-Keeps (promotion_step net rq id) _ (promotion_step-Keeps rq id)
                (λ u. remove_state-Keeps)))

-- Where the state file can be written and the node's info be read: once the step "r" of some run has
-- succeeded, and as long as the state file stays as that step left it, a run with "r" in its command
-- sends no registration any more, whatever it goes on to do and wherever it fails.
pub register_node-registers_once :
    (net : Network) (rq : Request) (ids : Address × Address) (s : RegistrationState) (w : World)
    {s' : RegistrationState} {a' : Hash} {w' : World} (later : World)
    → net.writable ≡ true
    → net.tee_proxy_id ≡ ok ids
    → contains b'r' rq.command ≡ true
    → attest_anew net b'r' (register_or_attest net ids.0) s w ≡ (ok (s', a'), w')
    → later.file ≡ w'.file
    → registrations (register_node net rq later).1.sent ≡ registrations later.sent
register_node-registers_once net rq ids s w {s'} {a'} later writable p r step same =
    ap (λ (x : Result (Unit {0}) × World). registrations x.1.sent)
      (register_node_resumes_r net writable rq ids s w later p r step same)
    ∙ from_attestation-Keeps net rq (s', a') later
