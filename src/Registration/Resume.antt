-- ===== src/Registration/Resume.antt =====
-- What a run of `RegisterNode` of registration.go does after an earlier run has failed.
use fce_extension_scaffold.Base.{
  ℕ, Bytes, true, false, ok, [], ◌∷◌, ◌++◌, ◌≡◌, arith, Result-cases, inl, inr,
}
use fce_extension_scaffold.Registration.Chain.{
  Hash, Address, RegistrationState, saved, Network, World, M,
}
use fce_extension_scaffold.Registration.Node.{
  contains, Request, load_state, save_state, complete, with_attestation, attestation_step,
  attest_anew, request_tee_attestation, register_or_attest, from_availability, from_attestation,
  from_registration, register_node,
}

contains-append_self : (letter : ℕ) (s : Bytes) → contains letter (s ++ letter ∷ []) ≡ true
unfolding contains
contains-append_self letter [] = ground arith
contains-append_self letter (b ∷ bs) = ground (arith, contains-append_self letter bs)

contains-append_other :
    (letter : ℕ) (s t : Bytes) → contains letter s ≡ true → contains letter (s ++ t) ≡ true
unfolding contains
contains-append_other letter [] t h = cc
contains-append_other letter (b ∷ bs) t h = ground (arith, contains-append_other letter bs t)

-- What the step of a letter leaves behind: the file holds the state, the state has the letter, and
-- the id that goes on is the one in the state.
record Recorded (letter : ℕ) (s : RegistrationState) (a : Hash) (w : World) : Type 0 where
  on_disk : w.file ≡ saved s
  completed : contains letter s.completed_steps ≡ true
  same_id : a ≡ s.tee_attest_instruction_id

module _ (net : Network) (writable : net.writable ≡ true) where
  attest_anew-Recorded :
      (letter : ℕ) (act : M Hash) (s : RegistrationState) (w : World) {s' : RegistrationState}
      {a' : Hash} {w' : World}
      → attest_anew net letter act s w ≡ (ok (s', a'), w')
      → Recorded letter s' a' w'
  unfolding attest_anew complete save_state with_attestation
  attest_anew-Recorded letter act s w {s'} {a'} {w'} h = elim (Result-cases (act w).0) [
    | inr (x, e) ↦ ground arith
    | inl (id, e) ↦ ground (arith, contains-append_self letter s.completed_steps)
  ]

  attest_anew-keeps :
      (letter other : ℕ) (act : M Hash) (s : RegistrationState) (w : World) {s' : RegistrationState}
      {a' : Hash} {w' : World}
      → attest_anew net letter act s w ≡ (ok (s', a'), w')
      → contains other s.completed_steps ≡ true
      → contains other s'.completed_steps ≡ true
  unfolding attest_anew complete save_state with_attestation
  attest_anew-keeps letter other act s w {s'} {a'} {w'} h had = elim (Result-cases (act w).0) [
    | inr (x, e) ↦ ground arith
    | inl (id, e) ↦ ground (arith, contains-append_other other s.completed_steps (letter ∷ []) had)
  ]

  attestation_step-skip :
      (letter : ℕ) (act : M Hash) (command : Bytes) (s : RegistrationState) (a : Hash) (w : World)
      → contains letter command ≡ true
      → contains letter s.completed_steps ≡ true
      → attestation_step net letter act command s a w ≡ (ok (s, s.tee_attest_instruction_id), w)
  unfolding attestation_step
  attestation_step-skip letter act command s a w c d = rw (c, d)

  -- Where the state file can be written and the node's info be read: once the step "r" of some run
  -- has succeeded, and as long as the state file stays as that step left it, a run with "r" in its
  -- command takes up the work right after that step, with the instruction id that the step gave.
  pub register_node_resumes_r :
      (rq : Request) (ids : Address × Address) (s : RegistrationState) (w : World)
      {s' : RegistrationState} {a' : Hash} {w' : World} (later : World)
      → net.tee_proxy_id ≡ ok ids
      → contains b'r' rq.command ≡ true
      → attest_anew net b'r' (register_or_attest net ids.0) s w ≡ (ok (s', a'), w')
      → later.file ≡ w'.file
      → register_node net rq later ≡ from_attestation net rq (s', a') later
  unfolding register_node load_state from_registration
  register_node_resumes_r rq ids s w {s'} {a'} {w'} later p r step same =
      let done = attest_anew-Recorded b'r' (register_or_attest net ids.0) s w step in
      let skip =
        attestation_step-skip b'r' (register_or_attest net ids.0) rq.command s' 0 later r
          done.completed in
      ground (arith, done, skip)

  -- Where the state file can be written and the node's info be read: once the step "R" of some run
  -- has succeeded from a state with "r" completed, and as long as the state file stays as that step
  -- left it, a run with "r" and "R" in its command goes on with the availability check, for the
  -- attestation that the step "R" asked for.
  pub register_node_resumes_R :
      (rq : Request) (ids : Address × Address) (s : RegistrationState) (w : World)
      {s' : RegistrationState} {a' : Hash} {w' : World} (later : World)
      → net.tee_proxy_id ≡ ok ids
      → contains b'r' rq.command ≡ true
      → contains b'R' rq.command ≡ true
      → contains b'r' s.completed_steps ≡ true
      → attest_anew net b'R' (request_tee_attestation net) s w ≡ (ok (s', a'), w')
      → later.file ≡ w'.file
      → register_node net rq later ≡ from_availability net rq (s', a') later
  unfolding register_node load_state from_registration from_attestation
  register_node_resumes_R rq ids s w {s'} {a'} {w'} later p r bigr had step same =
      let done = attest_anew-Recorded b'R' (request_tee_attestation net) s w step in
      let kept = attest_anew-keeps b'R' b'r' (request_tee_attestation net) s w step had in
      let skip_r =
        attestation_step-skip b'r' (register_or_attest net ids.0) rq.command s' 0 later r kept in
      let skip_R =
        attestation_step-skip b'R' (request_tee_attestation net) rq.command s'
          s'.tee_attest_instruction_id later bigr done.completed in
      ground (arith, done, skip_r, skip_R)

module _ (net : Network) where
  attestation_step-absent :
      (letter : ℕ) (act : M Hash) (command : Bytes) (s : RegistrationState) (a : Hash) (w : World)
      → contains letter command ≡ false
      → attestation_step net letter act command s a w ≡ (ok (s, a), w)
  unfolding attestation_step
  attestation_step-absent letter act command s a w c = rw c

  -- Without "r" and "R" in the command the id of the attestation is 0 at the step "a".
  pub from_registration-unattested :
      (rq : Request) (tee : Address) (s : RegistrationState) (w : World)
      → contains b'r' rq.command ≡ false
      → contains b'R' rq.command ≡ false
      → from_registration net rq tee s w ≡ from_availability net rq (s, 0) w
  unfolding from_registration from_attestation
  from_registration-unattested rq tee s w r bigr = ground (
    arith,
    attestation_step-absent b'r' (register_or_attest net tee) rq.command s 0 w r,
    attestation_step-absent b'R' (request_tee_attestation net) rq.command s 0 w bigr,
  )
