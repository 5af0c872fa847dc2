-- ===== src/Instructions/Verify/Farewell.antt =====
-- The test of run-test for SAY_GOODBYE against the server of go/internal/extension.
use fce_extension_scaffold.Base.{
  All, All-append, IsByte, ◌++◌, ℕ, ◌+◌, ◌%◌, ◌^◌, ◌≤◌, ◌<◌, Bytes, str, is_empty, length, false,
  none, some, Result, ok, List, [], ◌≡◌, ◌≢◌, refl, ap, ◌∙◌, arith,
}
use fce_extension_scaffold.Extension.{Action, ActionResult, SayGoodbyeResponse, Codec, new}
use fce_extension_scaffold.Extension.{build_result, farewell_text, process_action}
use fce_extension_scaffold.Extension.Laws.{
  Effect, greet, farewell, Asks, Asked, nothing, refused, accepted, farewelled, serve,
  serve_farewell_number,
}
use fce_extension_scaffold.Registration.Polling.{
  Attempt, answered, is_ok, repeats, action_result-first,
}
use fce_extension_scaffold.Instructions.Verify.{check_farewell, check_polled, verify_goodbye_result}
use fce_extension_scaffold.Instructions.Verify.EndToEnd.{
  ReadsResult, check_polled-passes, built_one, built_status, built_payload,
}

-- No more farewells are asked for than actions are handled.
farewelled-le :
    {c : Codec} {acts : List Action} {xs : List Effect}
    → Asked c acts xs
    → length (farewelled xs) ≤ length acts
farewelled-le nothing = omega arith
farewelled-le (refused none_asked asked) = omega (arith, farewelled-le asked)
farewelled-le (accepted {x = greet name} asks asked) = omega (arith, farewelled-le asked)
farewelled-le (accepted {x = farewell name reason} asks asked) = omega (arith, farewelled-le asked)

farewell_text-nonempty : (name reason : Bytes) → is_empty (farewell_text name reason) ≡ false
unfolding farewell_text str
farewell_text-nonempty name reason = refl

check_farewell-passes :
    (resp : SayGoodbyeResponse)
    → is_empty resp.farewell ≡ false
    → 0 < resp.farewell_number
    → resp.farewell_number < 2 ^ 63
    → check_farewell resp ≡ none
unfolding check_farewell
check_farewell-passes resp full h k = ground arith

farewell_text-bytes :
    (name reason : Bytes)
    → All IsByte name
    → All IsByte reason
    → All IsByte (farewell_text name reason)
unfolding farewell_text str
farewell_text-bytes name reason h k = All-append IsByte (str "Goodbye, ") _ (omega arith) (
    All-append IsByte (name ++ str "! Reason: ") reason
      (All-append IsByte name (str "! Reason: ") h (omega arith)) k)

-- The same of the JSON of a farewell.
abbrev pub ReadsFarewell : Codec → (Bytes → Result SayGoodbyeResponse) → Type 0
ReadsFarewell c goodbye =
    (r : SayGoodbyeResponse)
    → r.farewell_number < 2 ^ 64
    → All IsByte r.farewell
    → All IsByte (c.encode_goodbye r)
      × (c.encode_goodbye r ≢ [])
      × (back : SayGoodbyeResponse) × (goodbye (c.encode_goodbye r) ≡ ok back)
      × (back.farewell_number ≡ r.farewell_number)
      × (is_empty back.farewell ≡ is_empty r.farewell)

-- Where the proxy's result has the status and the data of the server's, and the reader of a farewell's
-- JSON gives its number and keeps its text non-empty: for every sequence of fewer than 2^63 - 1 actions
-- that a new server has handled, and a farewell of some bytes after them, the test's check of
-- SAY_GOODBYE passes as soon as one of its 15 requests, the earlier ones having failed, is answered
-- with the server's result.
pub verify_goodbye_result-passes :
    (c : Codec) (response : Bytes → Result ActionResult)
    (goodbye : Bytes → Result SayGoodbyeResponse) (envelope : Bytes → Bytes) (acts : List Action)
    (a : Action) {name reason : Bytes} (get : ℕ → Attempt) (n : ℕ)
    → ReadsResult c response envelope
    → ReadsFarewell c goodbye
    → length acts + 1 < 2 ^ 63
    → Asks c a (farewell name reason)
    → All IsByte name
    → All IsByte reason
    → n < repeats
    → get n ≡ answered 200 (envelope (process_action c (serve c new acts).0 a).2)
    → ((j : ℕ) → j < n → is_ok (get j) ≡ false)
    → verify_goodbye_result response goodbye get ≡ none
unfolding verify_goodbye_result
verify_goodbye_result-passes c response goodbye envelope acts a {name} {reason} get n reads_result
      reads_goodbye few asks name_bytes reason_bytes h good bad =
    let (xs, asked, df, parsed, body) = serve_farewell_number c acts a asks in
    let number : ℕ = (length (farewelled xs) + 1) % 2 ^ 64 in
    let resp : SayGoodbyeResponse = record {
      farewell = farewell_text name reason;
      farewell_number = number;
    } in
    let d : Bytes = c.encode_goodbye resp in
    let (d_bytes, nonempty, back, reads, same_number, same_text) =
      reads_goodbye resp (omega arith) (farewell_text-bytes name reason name_bytes reason_bytes) in
    let ar : ActionResult = build_result a df (some d) 1 none in
    let (ar', given, status, payload) =
      reads_result ar d (built_status a df d) (built_payload a df d) d_bytes in
    ap (check_polled goodbye check_farewell)
      (action_result-first response get n h good bad ∙ ap (λ b. response (envelope b)) body ∙ given)
    ∙ check_polled-passes goodbye check_farewell ar' d back (status ∙ built_one a df d) payload
        nonempty reads
        (check_farewell-passes back (same_text ∙ farewell_text-nonempty name reason)
          (omega (arith, farewelled-le asked)) (omega (arith, farewelled-le asked)))
