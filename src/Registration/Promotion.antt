-- ===== src/Registration/Promotion.antt =====
-- What a run of `RegisterNode` has reached when its step "p" succeeds.
use fce_extension_scaffold.Base.{
  Bytes, true, ==_iff, Option-cases, Result-cases, ok, ◌∷◌, ◌≡◌, inl, inr, arith,
}
use fce_extension_scaffold.Support.Tx.{Receipt}
use fce_extension_scaffold.Registration.Chain.{Hash, to_production, Proof, Network, World, send_tx}
use fce_extension_scaffold.Registration.Availability.{availability_check_result}
use fce_extension_scaffold.Registration.Node.{
  Request, contains, production_check, promote, promote_result, promotion_step,
}

-- The proof that the proxy gave for the instruction was sent, and the chain has its machine.
pub record Promoted (net : Network) (id : Hash) (w after : World) : Type 0 where
  pub proof : Proof
  pub proved : availability_check_result net.proof_reader (net.result_attempt w.sent id) ≡ ok proof
  pub only_tx : after.sent ≡ to_production proof ∷ w.sent
  pub same_file : after.file ≡ w.file
  pub on_chain :
      net.get_tee_machine (to_production proof ∷ w.sent) proof.request.tee_id
      ≡ ok proof.request.tee_id

module _ (net : Network) (proof : Proof) (w : World) where
  production_check-ok :
      (production_check net proof w).0 ≡ ok tt
      → (net.get_tee_machine w.sent proof.request.tee_id ≡ ok proof.request.tee_id)
        × ((production_check net proof w).1 ≡ w)
  unfolding production_check
  production_check-ok h = elim (Result-cases (net.get_tee_machine w.sent proof.request.tee_id)) [
    | inr (x, e) ↦ ground arith
    | inl (id, e) ↦ ground (arith, ==_iff id proof.request.tee_id)
  ]

  send_tx-ok :
      (wrap : Bytes → Bytes) {r : Receipt}
      → (send_tx net wrap (to_production proof) w).0 ≡ ok r
      → (send_tx net wrap (to_production proof) w).1
        ≡ record w { sent = to_production proof ∷ w.sent }
  unfolding send_tx
  send_tx-ok wrap h = elim (Result-cases (net.send w.sent (to_production proof))) [
    | inr (x, e) ↦ ground arith
    | inl (mined, e) ↦ ground arith
  ]

promote-ok :
    (net : Network) (proof : Proof) (w : World)
    → (promote net proof w).0 ≡ ok tt
    → let after : World = record w { sent = to_production proof ∷ w.sent } in
      ((promote net proof w).1 ≡ after)
      × (net.get_tee_machine after.sent proof.request.tee_id ≡ ok proof.request.tee_id)
unfolding promote
promote-ok net proof w h = elim (Option-cases net.transactor) [
  | inr (x, e) ↦ ground arith
  | inl e ↦ elim (Result-cases (send_tx net (λ e. e) (to_production proof) w).0) [
    | inr (x, p) ↦ ground arith
    | inl (r, p) ↦
        let after : World = record w { sent = to_production proof ∷ w.sent } in
        ground (arith, send_tx-ok net proof w (λ e. e) p, production_check-ok net proof after)
  ]
]

-- Where the command has the step "p" and the step succeeds: the proxy's result for the instruction
-- decodes as a proof, this proof is the one transaction that the step sends, and after it the chain
-- has the machine that the proof is about.
pub promotion_step-Promoted :
    (net : Network) (rq : Request) (id : Hash) (w : World)
    → contains b'p' rq.command ≡ true
    → (promotion_step net rq id w).0 ≡ ok tt
    → Promoted net id w (promotion_step net rq id w).1
unfolding promotion_step promote_result
promotion_step-Promoted net rq id w asked done =
    elim (Result-cases
      (availability_check_result net.proof_reader (net.result_attempt w.sent id))) [
        | inr (x, e) ↦ ground arith
        | inl (proof, e) ↦
            let sent = promote-ok net proof w (ground arith) in
            record {
              proof = proof;
              proved = e;
              only_tx = ground (arith, sent);
              same_file = ground (arith, sent);
              on_chain = sent.1;
            }
      ]
