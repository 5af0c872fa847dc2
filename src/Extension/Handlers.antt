-- ===== src/Extension/Handlers.antt =====
-- The handlers of go/internal/extension/extension.go and utils.go.
use fce_extension_scaffold.Base.{
  ℕ, suc, zero, Bytes, str, is_empty, ok, err, ◌++◌, ◌==◌, if◌then◌else◌, Option, none, some,
}
use fce_extension_scaffold.Extension.Types.{
  Action, DataFixed, ActionResult, SayHelloRequest, SayHelloResponse, SayGoodbyeRequest,
  SayGoodbyeResponse, Extension, Codec, version, op_type_greeting, op_command_say_hello,
  op_command_say_goodbye, int_suc,
}

-- `%v` of an error.
abbrev pub error_text : Option Bytes → Bytes
error_text none = str "<nil>"
error_text (some e) = e

unfoldable pub result_log : ℕ → Option Bytes → Bytes
result_log zero e = str "error: " ++ error_text e
result_log (suc zero) e = str "ok"
result_log (suc (suc n)) e = str "pending"

unfoldable pub build_result : Action → DataFixed → Option Bytes → ℕ → Option Bytes → ActionResult
build_result a df payload status e = record {
  id = a.id;
  submission_tag = a.submission_tag;
  version = version;
  op_type = df.op_type;
  op_command = df.op_command;
  payload = payload;
  status = status;
  log = result_log status e;
}

unfoldable pub greeting_text : Bytes → Bytes
greeting_text name = str "Hello, " ++ name ++ str "! Welcome to Flare Confidential Compute."

unfoldable pub farewell_text : Bytes → Bytes → Bytes
farewell_text name reason = str "Goodbye, " ++ name ++ str "! Reason: " ++ reason

-- The critical section of `processSayHello`: the new state, the number and the text.
unfoldable pub record_greeting : Extension → Bytes → Extension × ℕ × Bytes
record_greeting e name =
    let n = int_suc e.greeting_count in
    let greeting = greeting_text name in
    (record e { greeting_count = n; last_greeting = greeting }, n, greeting)

-- The critical section of `processSayGoodbye`.
unfoldable pub record_farewell : Extension → Bytes → Bytes → Extension × ℕ × Bytes
record_farewell e name reason =
    let n = int_suc e.farewell_count in
    let farewell = farewell_text name reason in
    (record e { farewell_count = n; last_farewell = farewell }, n, farewell)

module _ (c : Codec) where
  unfoldable pub say_hello :
      Extension → Action → DataFixed → SayHelloRequest → Extension × ActionResult
  say_hello e action df req =
      let (e', n, greeting) = record_greeting e req.name in
      let resp : SayHelloResponse = record { greeting = greeting; greeting_number = n } in
      if is_empty req.name
      then (e, build_result action df none 0 (some (str "name must not be empty")))
      else (e', build_result action df (some (c.encode_hello resp)) 1 none)

  unfoldable pub process_say_hello : Extension → Action → DataFixed → Extension × ActionResult
  process_say_hello e action df = elim (c.decode_hello df.original_message) [
    | err x ↦ (e, build_result action df none 0 (some (str "decoding request: " ++ x)))
    | ok req ↦ say_hello e action df req
  ]

  unfoldable pub say_goodbye :
      Extension → Action → DataFixed → SayGoodbyeRequest → Extension × ActionResult
  say_goodbye e action df req =
      let (e', n, farewell) = record_farewell e req.name req.reason in
      let resp : SayGoodbyeResponse = record { farewell = farewell; farewell_number = n } in
      if is_empty req.name
      then (e, build_result action df none 0 (some (str "name must not be empty")))
      else (e', build_result action df (some (c.encode_goodbye resp)) 1 none)

  unfoldable pub process_say_goodbye : Extension → Action → DataFixed → Extension × ActionResult
  process_say_goodbye e action df = elim (c.decode_goodbye df.original_message) [
    | err x ↦ (e, build_result action df none 0 (some (str "decoding request: " ++ x)))
    | ok req ↦ say_goodbye e action df req
  ]

  -- An operation's state, with its result as the body of a 200 response.
  unfoldable pub respond : Extension × ActionResult → Extension × ℕ × Bytes
  respond r = (r.0, 200, c.encode_result r.1)

  abbrev pub named_hash : Bytes → Bytes
  named_hash name = c.hex (c.to_hash name) ++ str " (" ++ name ++ str ")"

  unfoldable pub unsupported_command : DataFixed → Bytes
  unsupported_command df =
      str "unsupported op command: received "
      ++ c.hex df.op_command
      ++ str ", expected one of ["
      ++ named_hash op_command_say_hello
      ++ str ", "
      ++ named_hash op_command_say_goodbye
      ++ str "]"

  unfoldable pub unsupported_type : DataFixed → Bytes
  unsupported_type df =
      str "unsupported op type: received "
      ++ c.hex df.op_type
      ++ str ", expected "
      ++ named_hash op_type_greeting

  unfoldable pub process_greeting : Extension → Action → DataFixed → Extension × ℕ × Bytes
  process_greeting e action df =
      if df.op_command == c.to_hash op_command_say_hello
      then respond (process_say_hello e action df)
      else if df.op_command == c.to_hash op_command_say_goodbye
      then respond (process_say_goodbye e action df)
      else (e, 501, unsupported_command df)

  unfoldable pub route : Extension → Action → DataFixed → Extension × ℕ × Bytes
  route e action df =
      if df.op_type == c.to_hash op_type_greeting
      then process_greeting e action df
      else (e, 501, unsupported_type df)

  -- The new state, the HTTP status and the body.
  unfoldable pub process_action : Extension → Action → Extension × ℕ × Bytes
  process_action e action = elim (c.parse_fixed action.message) [
    | err x ↦ (e, 400, str "decoding fixed data: " ++ x)
    | ok df ↦ route e action df
  ]

  -- What the handler logs of a response: the log of a result, or else the whole body.
  unfoldable pub get_log_from_body : Bytes → Bytes
  get_log_from_body body = elim (c.decode_result body) [ err _ ↦ body | ok ar ↦ ar.log ]

  -- `http.Error` ends the message with a newline.
  unfoldable pub http_error : Bytes → Bytes
  http_error message = message ++ str "\n"

  -- `POST /action`.
  unfoldable pub action_handler : Extension → Bytes → Extension × ℕ × Bytes
  action_handler e body = elim (c.decode_action body) [
    | err x ↦ (e, 400, http_error (str "decoding action: " ++ x))
    | ok action ↦ process_action e action
  ]

  -- `GET /state`.
  unfoldable pub state_handler : Extension → ℕ × Bytes
  state_handler e =
      elim (c.encode_state (record { state_version = c.to_hash version; state = e })) [
        | err x ↦ (500, http_error (str "sending response: " ++ x))
        | ok b ↦ (200, b)
      ]
