-- ===== src/Instructions/Verify.antt =====
-- The end-to-end test of tools/cmd/run-test/main.go. JSON is read by parameters: `response` reads the
-- action's result from the proxy's answer, `hello` and `goodbye` its data.
pub mod EndToEnd
pub mod Farewell
pub mod Sound
pub mod Status
use fce_extension_scaffold.Base.{
  ℕ, zero, suc, ◌+◌, ◌-◌, ◌^◌, ◌≤◌, ◌<◌, Bytes, str, is_empty, show_nat, contains_text, ltb, ◌==◌,
  ◌&&◌, ◌||◌, if◌then◌else◌, Bool, true, false, Option, none, some, Result, ok, err, List, [], ◌∷◌,
  ◌++◌,
}
use fce_extension_scaffold.Extension.{ActionResult, SayHelloResponse, SayGoodbyeResponse}
use fce_extension_scaffold.Registration.Polling.{Attempt, action_result}
use fce_extension_scaffold.Support.Tx.{M, ◌>>=◌, ◌>>◌, continue, check}
use fce_extension_scaffold.Instructions.Send.{
  InstructionTx, Node, Hash, set_extension_id_on, send_say_hello, send_say_goodbye,
}

-- `%d` of an int that is known by its 64 bits, and `n < 1` of it.
abbrev pub show_int : ℕ → Bytes
show_int n = if ltb n (2 ^ 63) then show_nat n else str "-" ++ show_nat (2 ^ 64 - n)

abbrev pub is_positive : ℕ → Bool
is_positive n = ltb 0 n && ltb n (2 ^ 63)

-- The checks that both operations share: the error, or the data.
unfoldable pub completed_data : ActionResult → Result Bytes
completed_data ar =
    if ar.status == 0
    then err (str "instruction processing failed: " ++ ar.log)
    else if ar.status == 2
    then err (str "instruction still pending after polling, expected completed")
    else elim ar.payload [
      | none ↦ err (str "expected response data but got none")
      | some d ↦ if is_empty d then err (str "expected response data but got none") else ok d
    ]

unfoldable pub check_greeting : SayHelloResponse → Option Bytes
check_greeting resp =
    if is_empty resp.greeting
    then some (str "expected non-empty Greeting")
    else if is_positive resp.greeting_number
    then none
    else some (str "expected GreetingNumber >= 1, got " ++ show_int resp.greeting_number)

unfoldable pub check_farewell : SayGoodbyeResponse → Option Bytes
check_farewell resp =
    if is_empty resp.farewell
    then some (str "expected non-empty Farewell")
    else if is_positive resp.farewell_number
    then none
    else some (str "expected FarewellNumber >= 1, got " ++ show_int resp.farewell_number)

-- The data as a response, and what is wrong with it.
unfoldable pub check_data :
    {A : Type 0} → (Bytes → Result A) → (A → Option Bytes) → Result Bytes → Option Bytes
check_data decode wrong (err e) = some e
check_data decode wrong (ok d) = elim (decode d) [
  | err e ↦ some (str "failed to unmarshal response: " ++ e)
  | ok resp ↦ wrong resp
]

-- A result that was polled for, or the error of the polling.
unfoldable pub check_polled :
    {A : Type 0} → (Bytes → Result A) → (A → Option Bytes) → Result ActionResult → Option Bytes
unfolding check_data completed_data
check_polled decode wrong (err e) = some e
check_polled decode wrong (ok ar) = check_data decode wrong (completed_data ar)

module _ (response : Bytes → Result ActionResult) where
  -- `verifyHelloResult`.
  unfoldable pub verify_hello_result :
      (hello : Bytes → Result SayHelloResponse) → (ℕ → Attempt) → Option Bytes
  unfolding check_polled check_greeting
  verify_hello_result hello get = check_polled hello check_greeting (action_result response get)

  -- `verifyGoodbyeResult`.
  unfoldable pub verify_goodbye_result :
      (goodbye : Bytes → Result SayGoodbyeResponse) → (ℕ → Attempt) → Option Bytes
  unfolding check_polled check_farewell
  verify_goodbye_result goodbye get =
      check_polled goodbye check_farewell (action_result response get)

-- What the test asks of its surroundings: the proxy's answers for an instruction, and JSON.
pub record Proxy : Type 0 where
  pub get : List InstructionTx → Hash → ℕ → Attempt
  pub response : Bytes → Result ActionResult
  pub hello : Bytes → Result SayHelloResponse
  pub goodbye : Bytes → Result SayGoodbyeResponse
  pub name_payload : Bytes  -- json.Marshal of the name World

-- An extension id that is set already is no error.
unfoldable pub allow_set_already : {A : Type 0} → Result A → Option Bytes
allow_set_already (ok a) = none
allow_set_already (err e) =
    if contains_text (str "already set") e || contains_text (str "Extension ID already set") e
    then none
    else some (
        str "setExtensionId failed — is the extension registered? "
        ++ str "Check that pre-build.sh completed successfully. Error: "
        ++ e)

module _ (n : Node) (p : Proxy) where
  unfoldable pub configure : M InstructionTx (Unit {0})
  unfolding allow_set_already
  configure sent =
      check (allow_set_already (set_extension_id_on n sent).0) (set_extension_id_on n sent).1

  unfoldable pub verify_hello : Hash → M InstructionTx (Unit {0})
  verify_hello id sent = check (verify_hello_result p.response p.hello (p.get sent id)) sent

  unfoldable pub verify_goodbye : Hash → M InstructionTx (Unit {0})
  verify_goodbye id sent = check (verify_goodbye_result p.response p.goodbye (p.get sent id)) sent

  -- The command, whose error ends the process.
  unfoldable pub run_test : M InstructionTx (Unit {0})
  unfolding configure verify_hello verify_goodbye
  run_test = do
    configure
    id ← send_say_hello n p.name_payload
    verify_hello id
    goodbye_id ← send_say_goodbye n (str "World") (str "heading out")
    verify_goodbye goodbye_id
