-- ===== src/Registration/Grows.antt =====
-- The transactions that the steps of registration.go add to those sent before, each under a condition
-- on what was sent before it.
use fce_extension_scaffold.Base.{
  Bytes, Bool, true, false, if◌then◌else◌, Option, none, some, Result, ok, err, Result-cases, [],
  ◌∷◌, ◌++◌, ◌≡◌, refl, sym, subst, inl, inr, arith,
}
use fce_extension_scaffold.Registration.Availability.{availability_check_result}
use fce_extension_scaffold.Registration.Chain.{
  Hash, Tx, check_availability, to_production, Sent, RegistrationState, Proof, Network, World, M,
  ◌>>=◌, continue, lift, check, send_tx,
}
use fce_extension_scaffold.Registration.Node.{
  contains, Request, save_state, complete, check_anew, check_gated, promote_result,
  request_availability_check, availability_step, promotion_step, promote, production_check,
  remove_state, from_promotion, from_availability,
}

-- `before` with more transactions, each of which was allowed by what was sent before it.
pub data Grows (P : Sent → Tx → Type 0) (before : Sent) : Sent → Type 0 where
  unchanged : Grows P before before
  more : {sent : Sent} (tx : Tx) → Grows P before sent → P sent tx → Grows P before (tx ∷ sent)

module _ (P : Sent → Tx → Type 0) where
  Grows-trans : {a b c : Sent} → Grows P a b → Grows P b c → Grows P a c
  Grows-trans g unchanged = g
  Grows-trans g (more tx h p) = more tx (Grows-trans g h) p

  -- What an action adds in a world is allowed.
  abbrev pub Adds : {A : Type 0} → M A → World → Type 0
  Adds m w = Grows P w.sent (m w).1.sent

  pub Adds-quiet : {A : Type 0} (m : M A) (w : World) → (m w).1.sent ≡ w.sent → Adds m w
  Adds-quiet m w same = subst (Grows P w.sent) (sym same) unchanged

  continue-Adds :
      {A B : Type 0} (r : Result A) (w : World) (f : A → M B) {before : Sent}
      → Grows P before w.sent
      → ((a : A) → r ≡ ok a → Adds (f a) w)
      → Grows P before (continue r w f).1.sent
  continue-Adds (ok a) w f g h = Grows-trans g (h a refl)
  continue-Adds (err e) w f g h = g

  pub bind-Adds :
      {A B : Type 0} (m : M A) (f : A → M B) (w : World)
      → Adds m w
      → ((a : A) → (m w).0 ≡ ok a → Adds (f a) (m w).1)
      → Adds (m >>= f) w
  bind-Adds m f w g h = continue-Adds (m w).0 (m w).1 f g h

  pub if-Adds :
      {A : Type 0} (b : Bool) (m n : M A) (w : World)
      → (b ≡ true → Adds m w)
      → (b ≡ false → Adds n w)
      → Adds (λ v. (if b then m v else n v)) w
  if-Adds true m n w hm hn = hm refl
  if-Adds false m n w hm hn = hn refl

  -- After a check the action runs in the same world.
  pub check-Adds :
      {B : Type 0} (e : Option Bytes) (m : M B) (w : World)
      → (e ≡ none → Adds m w)
      → Adds (check e >>= λ u. m) w
  check-Adds none m w h = h refl
  check-Adds (some x) m w h = unchanged

  module _ (net : Network) where
    pub send_tx-Adds :
        (wrap : Bytes → Bytes) (tx : Tx) (w : World) → P w.sent tx → Adds (send_tx net wrap tx) w
    unfolding send_tx
    send_tx-Adds wrap tx w p = elim (Result-cases (net.send w.sent tx)) [
      | inl (mined, e) ↦ subst (Grows P w.sent) (ground arith) (more {sent = w.sent} tx unchanged p)
      | inr (x, e) ↦ subst (Grows P w.sent) (ground arith) unchanged
    ]

    pub complete-Adds : (s : RegistrationState) (w : World) → Adds (complete net s) w
    unfolding complete save_state
    complete-Adds s w = Adds-quiet (complete net s) w (ground arith)

    request_availability_check-Adds :
        (id : Hash) (w : World)
        → P w.sent (check_availability id)
        → Adds (request_availability_check net id) w
    unfolding request_availability_check
    request_availability_check-Adds id w p = check-Adds net.transactor _ w (λ fine.
        bind-Adds (send_tx net _ (check_availability id)) _ w
          (send_tx-Adds _ (check_availability id) w p) (λ receipt e. unchanged))

    check_anew-Adds :
        (s : RegistrationState) (a : Hash) (w : World)
        → P w.sent (check_availability a)
        → Adds (check_anew net s a) w
    unfolding check_anew
    check_anew-Adds s a w p =
        bind-Adds (request_availability_check net a) _ w (request_availability_check-Adds a w p)
          (λ id e.
            bind-Adds {B = Hash}
              (complete net (record s {
                completed_steps = s.completed_steps ++ b'a' ∷ [];
                instruction_id = id;
              }))
              (λ s'. lift (ok id)) _ (complete-Adds _ _) (λ s' e'. unchanged))

    production_check-sent :
        (proof : Proof) (w : World) → (production_check net proof w).1.sent ≡ w.sent
    unfolding production_check
    production_check-sent proof w =
        elim (Result-cases (net.get_tee_machine w.sent proof.request.tee_id)) [
          | inl (id, e) ↦ ground arith
          | inr (x, e) ↦ ground arith
        ]

    remove_state-Adds : (w : World) → Adds (remove_state net) w
    unfolding remove_state
    remove_state-Adds w = Adds-quiet (remove_state net) w (ground arith)

    -- From the step "a" on, with the attestation `a`.
    module _ (production : (sent : Sent) (proof : Proof) → P sent (to_production proof)) where
      promote-Adds : (proof : Proof) (w : World) → Adds (promote net proof) w
      unfolding promote
      promote-Adds proof w = check-Adds net.transactor _ w (λ fine.
          bind-Adds (send_tx net _ (to_production proof)) _ w
            (send_tx-Adds _ (to_production proof) w (production w.sent proof))
            (λ receipt e.
              Adds-quiet (production_check net proof) _ (production_check-sent proof _)))

      promotion_step-Adds :
          (rq : Request) (id : Hash) (w : World) → Adds (promotion_step net rq id) w
      unfolding promotion_step promote_result
      promotion_step-Adds rq id w =
          if-Adds (contains b'p' rq.command) (promote_result net id) (lift (ok tt)) w
            (λ yes_p.
              bind-Adds
                (lift (availability_check_result net.proof_reader (net.result_attempt w.sent id)))
                (promote net) w unchanged (λ proof e. promote-Adds proof w))
            (λ no_p. unchanged)

      module _ (rq : Request) (s : RegistrationState) (a : Hash)
          (gated : (sent : Sent)
            → net.policy_error sent ≡ none
            → P sent (check_availability a)) where
        availability_step-Adds : (w : World) → Adds (availability_step net rq s a) w
        unfolding availability_step check_gated
        availability_step-Adds w =
            if-Adds (contains b'a' rq.command)
              (λ v.
                (if contains b'a' s.completed_steps
                  then (ok s.instruction_id, v)
                  else check_gated net s a v))
              (lift (ok rq.instruction_id)) w
              (λ has.
                if-Adds (contains b'a' s.completed_steps) (lift (ok s.instruction_id))
                  (check_gated net s a) w (λ done. unchanged)
                  (λ todo.
                    check-Adds (net.policy_error w.sent) (check_anew net s a) w
                      (λ fine. check_anew-Adds s a w (gated w.sent fine))))
              (λ none_asked. unchanged)

        pub from_availability-Adds : (w : World) → Adds (from_availability net rq (s, a)) w
        unfolding from_availability from_promotion
        from_availability-Adds w =
            bind-Adds (availability_step net rq s a) _ w (availability_step-Adds w) (λ id e.
              bind-Adds (promotion_step net rq id) _ _ (promotion_step-Adds rq id _)
                (λ u e'. remove_state-Adds _))
