-- ===== src/Instructions/Verify/Sound.antt =====
-- What it says that run-test ends without an error.
use fce_extension_scaffold.Base.{
  Bytes, str, is_empty, false, Bool-cases, Option, none, some, Option-cases, Result, Result-cases,
  ok, err, List, ◌∷◌, ◌≡◌, ◌≢◌, refl, sym, ◌∙◌, subst, ◌⊎◌, inl, inr, arith,
}
use fce_extension_scaffold.Extension.{ActionResult}
use fce_extension_scaffold.Registration.Polling.{action_result}
use fce_extension_scaffold.Support.Tx.{check-reads, check-none, bind-ok}
use fce_extension_scaffold.Instructions.Send.{
  InstructionTx, set_extension_id, say_hello, say_goodbye, Node, Hash, Outcome-cases, Wording,
  set_wording, hello_wording, goodbye_wording, submit, Accepted, send_instruction-Accepted,
  set_extension_id_on, send_say_hello, send_say_goodbye,
}
use fce_extension_scaffold.Instructions.Verify.{
  completed_data, check_greeting, check_farewell, check_data, check_polled, verify_hello_result,
  verify_goodbye_result, Proxy, configure, verify_hello, verify_goodbye, run_test,
}

-- The proxy gave a result with data, which pass the check. Of its status it is only known that it is not
-- 0 and not 2: the test takes any other one for success, also one that docs/extension-contract.md, 4.6,
-- calls in progress.
pub record Answered {A : Type 0} (decode : Bytes → Result A) (wrong : A → Option Bytes)
    (polled : Result ActionResult) : Type 0 where
  pub result : ActionResult
  pub bytes : Bytes
  pub response : A
  pub given : polled ≡ ok result
  pub not_failed : result.status ≢ 0
  pub not_two : result.status ≢ 2
  pub has_data : result.payload ≡ some bytes
  pub nonempty : is_empty bytes ≡ false
  pub decoded : decode bytes ≡ ok response
  pub passes : wrong response ≡ none

completed_data-ok :
    (ar : ActionResult) {d : Bytes}
    → completed_data ar ≡ ok d
    → (ar.status ≢ 0) × (ar.status ≢ 2) × (ar.payload ≡ some d) × (is_empty d ≡ false)
unfolding completed_data
completed_data-ok ar {d} h = elim (Option-cases ar.payload) [
  | inl e ↦ ground arith
  | inr (p, e) ↦ elim (Bool-cases (is_empty p)) [
    | inl empty ↦ ground arith
    | inr full ↦ ground arith
  ]
]

pub check_polled-Answered :
    {A : Type 0} (decode : Bytes → Result A) (wrong : A → Option Bytes)
    (polled : Result ActionResult)
    → check_polled decode wrong polled ≡ none
    → Answered decode wrong polled
unfolding check_polled check_data
check_polled-Answered decode wrong (err e) h = cc
check_polled-Answered decode wrong (ok ar) h = elim (Result-cases (completed_data ar)) [
  | inr (x, e) ↦ ground arith
  | inl (d, e) ↦ elim (Result-cases (decode d)) [
    | inr (x, p) ↦ ground arith
    | inl (resp, p) ↦
        let (not_failed, not_two, has, full) = completed_data-ok ar e in
        record {
          result = ar;
          bytes = d;
          response = resp;
          given = refl;
          not_failed = not_failed;
          not_two = not_two;
          has_data = has;
          nonempty = full;
          decoded = p;
          passes = ground arith;
        }
  ]
]

-- The contract was configured by one transaction at most, both instructions were accepted in turn, and
-- the proxy answered each with a result whose status is not 0 and not 2 and whose data pass the test's
-- check.
pub record Tested (n : Node) (p : Proxy) (before after : List InstructionTx) : Type 0 where
  pub configured : List InstructionTx
  pub greeted : List InstructionTx
  pub hello_id : Hash
  pub goodbye_id : Hash
  pub only_config : (configured ≡ before) ⊎ (configured ≡ set_extension_id ∷ before)
  pub hello : Accepted n (say_hello p.name_payload) configured greeted hello_id
  pub greeting : Answered p.hello check_greeting (action_result p.response (p.get greeted hello_id))
  pub goodbye : Accepted n (say_goodbye (str "World") (str "heading out")) greeted after goodbye_id
  pub farewell :
      Answered p.goodbye check_farewell (action_result p.response (p.get after goodbye_id))

submit-sent :
    (n : Node) (w : Wording) (tx : InstructionTx) (sent : List InstructionTx)
    → ((submit n w tx sent).1 ≡ sent) ⊎ ((submit n w tx sent).1 ≡ tx ∷ sent)
unfolding submit
submit-sent n w tx sent = elim (Outcome-cases (n.call sent tx)) [
  | inl (e, p) ↦ inl (ground arith)
  | inr (r, p) ↦ inr (ground arith)
]

module _ (n : Node) (sent : List InstructionTx) where
  set_extension_id_on-sent :
      ((set_extension_id_on n sent).1 ≡ sent)
      ⊎ ((set_extension_id_on n sent).1 ≡ set_extension_id ∷ sent)
  unfolding set_extension_id_on
  set_extension_id_on-sent = elim (Option-cases n.bind_error) [
    | inr (x, e) ↦ inl (ground arith)
    | inl e ↦ elim (Option-cases n.transactor) [
      | inr (x, e') ↦ inl (ground arith)
      | inl e' ↦ elim (submit-sent n set_wording set_extension_id sent) [
        | inl same ↦ inl (ground (arith, same))
        | inr one ↦ inr (ground (arith, one))
      ]
    ]
  ]

  configure-sent :
      (p : Proxy)
      → ((configure n p sent).1 ≡ sent) ⊎ ((configure n p sent).1 ≡ set_extension_id ∷ sent)
  unfolding configure
  configure-sent p = elim set_extension_id_on-sent [
    | inl same ↦ inl (check-reads _ (set_extension_id_on n sent).1 ∙ same)
    | inr one ↦ inr (check-reads _ (set_extension_id_on n sent).1 ∙ one)
  ]

module _ (n : Node) (p : Proxy) (id : Hash) (sent : List InstructionTx) where
  verify_hello-Answered :
      (verify_hello n p id sent).0 ≡ ok tt
      → Answered p.hello check_greeting (action_result p.response (p.get sent id))
  unfolding verify_hello verify_hello_result
  verify_hello-Answered h = check_polled-Answered p.hello check_greeting _ (check-none _ sent h)

  pub verify_hello-sent : (verify_hello n p id sent).1 ≡ sent
  unfolding verify_hello
  verify_hello-sent = check-reads _ sent

  verify_goodbye-Answered :
      (verify_goodbye n p id sent).0 ≡ ok tt
      → Answered p.goodbye check_farewell (action_result p.response (p.get sent id))
  unfolding verify_goodbye verify_goodbye_result
  verify_goodbye-Answered h = check_polled-Answered p.goodbye check_farewell _ (check-none _ sent h)

  verify_goodbye-sent : (verify_goodbye n p id sent).1 ≡ sent
  unfolding verify_goodbye
  verify_goodbye-sent = check-reads _ sent

say_hello-Accepted :
    (n : Node) (message : Bytes) (sent : List InstructionTx) {id : Hash}
    → (send_say_hello n message sent).0 ≡ ok id
    → Accepted n (say_hello message) sent (send_say_hello n message sent).1 id
unfolding send_say_hello
say_hello-Accepted n message sent h =
    send_instruction-Accepted n hello_wording (say_hello message) sent h

say_goodbye-Accepted :
    (n : Node) (name reason : Bytes) (sent : List InstructionTx) {id : Hash}
    → (send_say_goodbye n name reason sent).0 ≡ ok id
    → Accepted n (say_goodbye name reason) sent (send_say_goodbye n name reason sent).1 id
unfolding send_say_goodbye
say_goodbye-Accepted n name reason sent h =
    send_instruction-Accepted n goodbye_wording (say_goodbye name reason) sent h

-- What a run of run-test that ends without an error has done.
pub run_test-Answered :
    (n : Node) (p : Proxy) (before : List InstructionTx)
    → (run_test n p before).0 ≡ ok tt
    → Tested n p before (run_test n p before).1
unfolding run_test
run_test-Answered n p before h =
    let (u1, e1, h1, s1) = bind-ok (configure n p) _ before h in
    let t1 : List InstructionTx = (configure n p before).1 in
    let (id, e2, h2, s2) = bind-ok (send_say_hello n p.name_payload) _ t1 h1 in
    let t2 : List InstructionTx = (send_say_hello n p.name_payload t1).1 in
    let (u3, e3, h3, s3) = bind-ok (verify_hello n p id) _ t2 h2 in
    let t3 : List InstructionTx = (verify_hello n p id t2).1 in
    let (gid, e4, h4, s4) =
      bind-ok (send_say_goodbye n (str "World") (str "heading out")) _ t3 h3 in
    let t4 : List InstructionTx = (send_say_goodbye n (str "World") (str "heading out") t3).1 in
    let same : t2 ≡ t3 = sym (verify_hello-sent n p id t2) in
    let end : t4 ≡ (run_test n p before).1 =
      sym (s1 ∙ s2 ∙ s3 ∙ s4 ∙ verify_goodbye-sent n p gid t4) in
    record {
      configured = t1;
      greeted = t3;
      hello_id = id;
      goodbye_id = gid;
      only_config = configure-sent n before p;
      hello =
          subst (λ t. Accepted n (say_hello p.name_payload) t1 t id) same
            (say_hello-Accepted n p.name_payload t1 e2);
      greeting =
          subst (λ t. Answered p.hello check_greeting (action_result p.response (p.get t id))) same
            (verify_hello-Answered n p id t2 e3);
      goodbye =
          subst (λ t. Accepted n (say_goodbye (str "World") (str "heading out")) t3 t gid) end
            (say_goodbye-Accepted n (str "World") (str "heading out") t3 e4);
      farewell =
          subst (λ t. Answered p.goodbye check_farewell (action_result p.response (p.get t gid)))
            end (verify_goodbye-Answered n p gid t4 h4);
    }
