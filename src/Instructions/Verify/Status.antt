-- ===== src/Instructions/Verify/Status.antt =====
-- What run-test makes of the status of a result.
use fce_extension_scaffold.Base.{
  ℕ, Bytes, str, is_empty, false, Option, some, none, Result, ok, err, List, [], Bool-cases, ◌==◌,
  ◌≡◌, ◌≢◌, refl, sym, ap, ◌∙◌, subst, inl, inr, arith,
}
use fce_extension_scaffold.Extension.{ActionResult}
use fce_extension_scaffold.Registration.Polling.{
  Attempt, failed, answered, repeats, poll_from, conclude, action_result,
}
use fce_extension_scaffold.Support.Tx.{M, ◌>>=◌, continue, check, check-none, bind-ok}
use fce_extension_scaffold.Instructions.Send.{
  InstructionTx, Node, Hash, send_say_hello, send_say_goodbye,
}
use fce_extension_scaffold.Instructions.Verify.{
  check_greeting, check_farewell, check_polled, verify_hello_result, verify_goodbye_result, Proxy,
  configure, verify_hello, verify_goodbye, run_test,
}
use fce_extension_scaffold.Instructions.Verify.Sound.{
  Tested, check_polled-Answered, verify_hello-sent, run_test-Answered,
}

-- A result with another status.
abbrev pub restatus : ℕ → Result ActionResult → Result ActionResult
restatus k (ok ar) = ok (record ar { status = k })
restatus k (err e) = err e

-- A proxy all of whose results have the status `k`.
abbrev pub with_status : ℕ → Proxy → Proxy
with_status k p = record p { response = λ b. restatus k (p.response b) }

check_polled-accepts :
    {A : Type 0} (decode : Bytes → Result A) (wrong : A → Option Bytes) (ar : ActionResult)
    (d : Bytes) (resp : A)
    → ar.status ≢ 0
    → ar.status ≢ 2
    → ar.payload ≡ some d
    → is_empty d ≡ false
    → decode d ≡ ok resp
    → wrong resp ≡ none
    → check_polled decode wrong (ok ar) ≡ none
unfolding check_polled
check_polled-accepts decode wrong ar d resp failed_not two_not has full reads good = ground arith

conclude-restatus :
    (k : ℕ) (response : Bytes → Result ActionResult) (a : Attempt)
    → conclude (λ b. restatus k (response b)) a ≡ restatus k (conclude response a)
unfolding conclude
conclude-restatus k response (failed e) = refl
conclude-restatus k response (answered status body) = elim (Bool-cases (status == 200)) [
  | inl h ↦ rw h refl
  | inr h ↦ rw h refl
]

action_result-restatus :
    (k : ℕ) (response : Bytes → Result ActionResult) (get : ℕ → Attempt)
    → action_result (λ b. restatus k (response b)) get ≡ restatus k (action_result response get)
unfolding action_result
action_result-restatus k response get =
    conclude-restatus k response (poll_from get repeats 0 (failed []))

-- An action whose first part succeeds goes on with the second.
bind-run :
    {T A B : Type 0} (m : M T A) (f : A → M T B) (sent : List T) {a : A}
    → (m sent).0 ≡ ok a
    → (m >>= f) sent ≡ f a (m sent).1
bind-run m f sent e = ap (λ r. continue r (m sent).1 f) e

module _ (k : ℕ) (not_failed : k ≢ 0) (not_two : k ≢ 2) where
  check_polled-restatus :
      {A : Type 0} (decode : Bytes → Result A) (wrong : A → Option Bytes)
      (polled : Result ActionResult)
      → check_polled decode wrong polled ≡ none
      → check_polled decode wrong (restatus k polled) ≡ none
  check_polled-restatus decode wrong polled h =
      let a = check_polled-Answered decode wrong polled h in
      ap (λ r. check_polled decode wrong (restatus k r)) a.given
      ∙ check_polled-accepts decode wrong (record a.result { status = k }) a.bytes a.response
          not_failed not_two a.has_data a.nonempty a.decoded a.passes

  module _ (n : Node) (p : Proxy) (id : Hash) (sent : List InstructionTx) where
    verify_hello-restatus :
        (verify_hello n p id sent).0 ≡ ok tt → (verify_hello n (with_status k p) id sent).0 ≡ ok tt
    unfolding verify_hello verify_hello_result
    verify_hello-restatus h =
        ap (λ e. (check e sent).0)
          (ap (check_polled p.hello check_greeting)
              (action_result-restatus k p.response (p.get sent id))
            ∙ check_polled-restatus p.hello check_greeting _ (check-none _ sent h))

    verify_goodbye-restatus :
        (verify_goodbye n p id sent).0 ≡ ok tt
        → (verify_goodbye n (with_status k p) id sent).0 ≡ ok tt
    unfolding verify_goodbye verify_goodbye_result
    verify_goodbye-restatus h =
        ap (λ e. (check e sent).0)
          (ap (check_polled p.goodbye check_farewell)
              (action_result-restatus k p.response (p.get sent id))
            ∙ check_polled-restatus p.goodbye check_farewell _ (check-none _ sent h))

  -- The run with the other statuses takes the same steps.
  run_test-restatus :
      (n : Node) (p : Proxy) (before : List InstructionTx)
      → (run_test n p before).0 ≡ ok tt
      → (run_test n (with_status k p) before).0 ≡ ok tt
  unfolding run_test
  run_test-restatus n p before h =
      let q : Proxy = with_status k p in
      let (u1, e1, h1, s1) = bind-ok (configure n p) _ before h in
      let t1 : List InstructionTx = (configure n p before).1 in
      let (id, e2, h2, s2) = bind-ok (send_say_hello n p.name_payload) _ t1 h1 in
      let t2 : List InstructionTx = (send_say_hello n p.name_payload t1).1 in
      let (u3, e3, h3, s3) = bind-ok (verify_hello n p id) _ t2 h2 in
      let t3 : List InstructionTx = (verify_hello n p id t2).1 in
      let say : M InstructionTx Hash = send_say_goodbye n (str "World") (str "heading out") in
      let (gid, e4, h4, s4) = bind-ok say _ t3 h3 in
      let same : t3 ≡ (verify_hello n q id t2).1 =
        verify_hello-sent n p id t2 ∙ sym (verify_hello-sent n q id t2) in
      let (e5, h5) =
        subst (λ t. ((say t).0 ≡ ok gid) × ((verify_goodbye n p gid (say t).1).0 ≡ ok tt)) same
          (e4, h4) in
      ap (λ (r : Result (Unit {0}) × List InstructionTx). r.0)
        (bind-run (configure n q) _ before e1
          ∙ bind-run (send_say_hello n p.name_payload) _ t1 e2
          ∙ bind-run (verify_hello n q id) _ t2 (verify_hello-restatus n p id t2 e3)
          ∙ bind-run say _ (verify_hello n q id t2).1 e5)
      ∙ verify_goodbye-restatus n p gid (say (verify_hello n q id t2).1).1 h5

-- A run of run-test that ends without an error has sent one transaction at most before its two
-- instructions, has had both of them accepted in turn, and for each the proxy gave a result whose status
-- is neither 0 nor 2 and whose data pass the test's check. With any status but 0 and 2 in place of that
-- of every result, such as 3, which stands for a result in progress, the run ends without an error too.
pub run_test-Tested :
    (n : Node) (p : Proxy) (before : List InstructionTx) (k : ℕ)
    → k ≢ 0
    → k ≢ 2
    → (run_test n p before).0 ≡ ok tt
    → Tested n p before (run_test n p before).1 × ((run_test n (with_status k p) before).0 ≡ ok tt)
run_test-Tested n p before k not_failed not_two h =
    (run_test-Answered n p before h, run_test-restatus k not_failed not_two n p before h)
