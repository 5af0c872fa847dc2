-- ===== src/Instructions/Verify/EndToEnd.antt =====
-- The test of run-test against the server of go/internal/extension.
use fce_extension_scaffold.Base.{
  All, All-append, IsByte, ℕ, ◌+◌, ◌%◌, ◌^◌, ◌≤◌, ◌<◌, Bytes, str, is_empty, length, false, Option,
  none, some, Result, ok, List, [], ◌∷◌, ◌≡◌, ◌≢◌, refl, ap, ◌∙◌, arith,
}
use fce_extension_scaffold.Extension.{Action, DataFixed, ActionResult, SayHelloResponse, Codec, new}
use fce_extension_scaffold.Extension.{build_result, greeting_text, process_action}
use fce_extension_scaffold.Extension.Laws.{
  Effect, greet, farewell, Asks, Asked, nothing, refused, accepted, greeted, serve,
  serve_greeting_number,
}
use fce_extension_scaffold.Registration.Polling.{
  Attempt, answered, is_ok, repeats, action_result-first,
}
use fce_extension_scaffold.Instructions.Verify.{check_greeting, check_polled, verify_hello_result}

-- No more names are greeted than actions are handled.
greeted-le :
    {c : Codec} {acts : List Action} {xs : List Effect}
    → Asked c acts xs
    → length (greeted xs) ≤ length acts
greeted-le nothing = omega arith
greeted-le (refused none_asked asked) = omega (arith, greeted-le asked)
greeted-le (accepted {x = greet name} asks asked) = omega (arith, greeted-le asked)
greeted-le (accepted {x = farewell name reason} asks asked) = omega (arith, greeted-le asked)

greeting_text-nonempty : (name : Bytes) → is_empty (greeting_text name) ≡ false
unfolding greeting_text str
greeting_text-nonempty name = refl

check_greeting-passes :
    (resp : SayHelloResponse)
    → is_empty resp.greeting ≡ false
    → 0 < resp.greeting_number
    → resp.greeting_number < 2 ^ 63
    → check_greeting resp ≡ none
unfolding check_greeting
check_greeting-passes resp full h k = ground arith

-- What a result of the server has in its status and its data.
module _ (a : Action) (df : DataFixed) (d : Bytes) where
  pub built_one : (build_result a df (some d) 1 none).status ≡ 1
  unfolding build_result
  built_one = refl

  pub built_status : (build_result a df (some d) 1 none).status < 256
  unfolding build_result
  built_status = omega arith

  pub built_payload : (build_result a df (some d) 1 none).payload ≡ some d
  unfolding build_result
  built_payload = refl

-- A succeeded result whose data read well passes.
pub check_polled-passes :
    {A : Type 0} (decode : Bytes → Result A) (wrong : A → Option Bytes) (ar : ActionResult)
    (d : Bytes) (resp : A)
    → ar.status ≡ 1
    → ar.payload ≡ some d
    → d ≢ []
    → decode d ≡ ok resp
    → wrong resp ≡ none
    → check_polled decode wrong (ok ar) ≡ none
unfolding check_polled
check_polled-passes decode wrong ar [] resp one has nonempty reads good = absurd (nonempty refl)
check_polled-passes decode wrong ar (b ∷ bs) resp one has nonempty reads good = ground arith

greeting_text-bytes : (name : Bytes) → All IsByte name → All IsByte (greeting_text name)
unfolding greeting_text str
greeting_text-bytes name h =
    All-append IsByte (str "Hello, ") _ (omega arith)
      (All-append IsByte name (str "! Welcome to Flare Confidential Compute.") h (omega arith))

-- A result with data comes back from the proxy with its status and its data. JSON has a hexadecimal
-- text for the data, and a number for the status, a uint8.
abbrev pub ReadsResult : Codec → (Bytes → Result ActionResult) → (envelope : Bytes → Bytes) → Type 0
ReadsResult c response envelope =
    (ar : ActionResult) (d : Bytes)
    → ar.status < 256
    → ar.payload ≡ some d
    → All IsByte d
    → (back : ActionResult) × (response (envelope (c.encode_result ar)) ≡ ok back)
      × (back.status ≡ ar.status)
      × (back.payload ≡ some d)

-- The JSON of a greeting is some bytes, from which its number is read back, and a text that is empty
-- only if the greeting is. The text may differ: invalid UTF-8 is replaced in JSON.
abbrev pub ReadsGreeting : Codec → (Bytes → Result SayHelloResponse) → Type 0
ReadsGreeting c hello =
    (r : SayHelloResponse)
    → r.greeting_number < 2 ^ 64
    → All IsByte r.greeting
    → All IsByte (c.encode_hello r)
      × (c.encode_hello r ≢ [])
      × (back : SayHelloResponse) × (hello (c.encode_hello r) ≡ ok back)
      × (back.greeting_number ≡ r.greeting_number)
      × (is_empty back.greeting ≡ is_empty r.greeting)

-- Where the proxy's result has the status and the data of the server's, and the reader of a greeting's
-- JSON gives its number and keeps its text non-empty: for every sequence of fewer than 2^63 - 1 actions
-- that a new server has handled, and a greeting of some bytes after them, the test's check of SAY_HELLO
-- passes as soon as one of its 15 requests, the earlier ones having failed, is answered with the
-- server's result.
pub verify_hello_result-passes :
    (c : Codec) (response : Bytes → Result ActionResult) (hello : Bytes → Result SayHelloResponse)
    (envelope : Bytes → Bytes) (acts : List Action) (a : Action) {name : Bytes} (get : ℕ → Attempt)
    (n : ℕ)
    → ReadsResult c response envelope
    → ReadsGreeting c hello
    → length acts + 1 < 2 ^ 63
    → Asks c a (greet name)
    → All IsByte name
    → n < repeats
    → get n ≡ answered 200 (envelope (process_action c (serve c new acts).0 a).2)
    → ((j : ℕ) → j < n → is_ok (get j) ≡ false)
    → verify_hello_result response hello get ≡ none
unfolding verify_hello_result
verify_hello_result-passes c response hello envelope acts a {name} get n reads_result reads_hello
      few asks bytes h good bad =
    let (xs, asked, df, parsed, body) = serve_greeting_number c acts a asks in
    let number : ℕ = (length (greeted xs) + 1) % 2 ^ 64 in
    let resp : SayHelloResponse = record {
      greeting = greeting_text name;
      greeting_number = number;
    } in
    let d : Bytes = c.encode_hello resp in
    let (d_bytes, nonempty, back, reads, same_number, same_text) =
      reads_hello resp (omega arith) (greeting_text-bytes name bytes) in
    let ar : ActionResult = build_result a df (some d) 1 none in
    let (ar', given, status, payload) =
      reads_result ar d (built_status a df d) (built_payload a df d) d_bytes in
    ap (check_polled hello check_greeting)
      (action_result-first response get n h good bad ∙ ap (λ b. response (envelope b)) body ∙ given)
    ∙ check_polled-passes hello check_greeting ar' d back (status ∙ built_one a df d) payload
        nonempty reads
        (check_greeting-passes back (same_text ∙ greeting_text-nonempty name)
          (omega (arith, greeted-le asked)) (omega (arith, greeted-le asked)))
