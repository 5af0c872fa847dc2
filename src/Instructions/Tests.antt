-- ===== src/Instructions/Tests.antt =====
-- The end-to-end test at a small server, and an instruction that is sent.
use fce_extension_scaffold.Base.{
  All, IsByte, ◌≢◌, ℕ, zero, suc, ap, Option, ◌<◌, Bytes, str, length, show_nat, false, none, some,
  Result, ok, err, [], ◌∷◌, ◌++◌, ◌≡◌, refl, arith,
}
use fce_extension_scaffold.Extension.{
  Action, ActionResult, SayHelloResponse, SayGoodbyeResponse, Codec, new, process_action,
}
use fce_extension_scaffold.Extension.Laws.{greet, farewell, hello, goodbye, Asks, serve}
use fce_extension_scaffold.Registration.Polling.{Attempt, failed, answered, is_ok}
use fce_extension_scaffold.Instructions.Send.{
  InstructionTx, say_hello, sent_off, Node, hello_wording, submit, mined, instruction_id,
  send_instruction, Accepted, send_instruction-Accepted,
}
use fce_extension_scaffold.Registration.Polling.{action_result}
use fce_extension_scaffold.Instructions.Send.{set_extension_id_on, send_say_hello, send_say_goodbye}
use fce_extension_scaffold.Instructions.Verify.Sound.{Tested}
use fce_extension_scaffold.Instructions.Verify.Status.{with_status, run_test-Tested}
use fce_extension_scaffold.Instructions.Verify.{
  verify_hello_result, verify_goodbye_result, Proxy, run_test, configure, allow_set_already,
  verify_hello, verify_goodbye, check_polled, check_data, completed_data, check_greeting,
  check_farewell,
}
use fce_extension_scaffold.Instructions.Verify.Farewell.{
  ReadsFarewell, verify_goodbye_result-passes,
}
use fce_extension_scaffold.Instructions.Verify.EndToEnd.{
  ReadsResult, ReadsGreeting, verify_hello_result-passes,
}

-- A node that mines every transaction with the log 4.
abbrev node : Node
node = record {
  bind_error = none;
  transactor = none;
  call = λ sent tx. sent_off (ok (record { status = 1; logs = 4 ∷ [] }));
  replay = λ sent tx. none;
  decoder = record { unpack_revert = λ d. none; from_hex = λ b. b };
  parse_instructions = λ log. ok log;
  deployed_at = λ sent. 3;
  tx_hash = λ tx. [];
}

abbrev world : InstructionTx
world = say_hello (119 ∷ [])

send_instruction-Accepted_example :
    Accepted node world [] (send_instruction node hello_wording world []).1 4
unfolding submit mined instruction_id
send_instruction-Accepted_example = send_instruction-Accepted node hello_wording world [] refl

-- A format in which a text follows its length.
abbrev read_text : ℕ → Bytes → Bytes × Bytes
read_text zero bs = ([], bs)
read_text (suc n) [] = ([], [])
read_text (suc n) (b ∷ bs) = (b ∷ (read_text n bs).0, (read_text n bs).1)

abbrev write_text : Bytes → Bytes → Bytes
write_text b rest = length b ∷ b ++ rest

abbrev next_text : Bytes → Bytes × Bytes
next_text [] = ([], [])
next_text (n ∷ bs) = read_text n bs

read_text-append : (b rest : Bytes) → read_text (length b) (b ++ rest) ≡ (b, rest)
read_text-append [] rest = refl
read_text-append (x ∷ b) rest = ap (λ r. (x ∷ r.0, r.1)) (read_text-append b rest)

abbrev write_option : Option Bytes → Bytes
write_option none = []
write_option (some d) = 0 ∷ d

abbrev read_option : Bytes → Option Bytes
read_option [] = none
read_option (b ∷ d) = some d

read_option-write_option : (o : Option Bytes) → read_option (write_option o) ≡ o
read_option-write_option none = refl
read_option-write_option (some d) = refl

abbrev write_result : ActionResult → Bytes
write_result ar =
    ar.id
    ∷ ar.op_type
    ∷ ar.op_command
    ∷ ar.status
    ∷ write_text ar.submission_tag
        (write_text ar.version (write_text ar.log (write_option ar.payload)))

abbrev read_result : Bytes → Result ActionResult
read_result (id ∷ op_type ∷ op_command ∷ status ∷ rest) =
    let tag = next_text rest in
    let ver = next_text tag.1 in
    let log = next_text ver.1 in
    ok (record {
      id = id;
      submission_tag = tag.0;
      version = ver.0;
      op_type = op_type;
      op_command = op_command;
      payload = read_option log.1;
      status = status;
      log = log.0;
    })
read_result _ = err []

read_result-write_result : (ar : ActionResult) → read_result (write_result ar) ≡ ok ar
read_result-write_result ar =
    rw
      (read_text-append ar.submission_tag
        (write_text ar.version (write_text ar.log (write_option ar.payload))))
      (rw (read_text-append ar.version (write_text ar.log (write_option ar.payload))) (
        rw (read_text-append ar.log (write_option ar.payload))
          (rw (read_option-write_option ar.payload) refl)))

-- A number as so many ones before a zero, and then a text.
abbrev write_numbered : ℕ → Bytes → Bytes
write_numbered zero text = 0 ∷ text
write_numbered (suc n) text = 1 ∷ write_numbered n text

abbrev read_numbered : Bytes → ℕ × Bytes
read_numbered [] = (0, [])
read_numbered (zero ∷ text) = (0, text)
read_numbered (suc k ∷ rest) = (suc (read_numbered rest).0, (read_numbered rest).1)

read_numbered-write_numbered :
    (n : ℕ) (text : Bytes) → read_numbered (write_numbered n text) ≡ (n, text)
read_numbered-write_numbered zero text = refl
read_numbered-write_numbered (suc n) text =
    ap (λ (r : ℕ × Bytes). (suc r.0, r.1)) (read_numbered-write_numbered n text)

write_numbered-bytes : (n : ℕ) (text : Bytes) → All IsByte text → All IsByte (write_numbered n text)
write_numbered-bytes zero text h = (omega arith, h)
write_numbered-bytes (suc n) text h = (omega arith, write_numbered-bytes n text h)

write_numbered-nonempty : (n : ℕ) (text : Bytes) → write_numbered n text ≢ []
write_numbered-nonempty zero text e = cc
write_numbered-nonempty (suc n) text e = cc

abbrev write_hello : SayHelloResponse → Bytes
write_hello r = write_numbered r.greeting_number r.greeting

abbrev read_hello : Bytes → Result SayHelloResponse
read_hello b = ok (record { greeting = (read_numbered b).1; greeting_number = (read_numbered b).0 })

-- A message is a name.
abbrev codec : Codec
codec = record {
  to_hash = length;
  hex = show_nat;
  decode_action = λ b. ok (record { id = 7; submission_tag = []; message = b });
  parse_fixed = λ m. ok (record { op_type = 8; op_command = 9; original_message = m });
  decode_hello = λ m. ok (record { name = m });
  decode_goodbye = λ m. err [];
  encode_hello = write_hello;
  encode_goodbye = λ r. write_numbered r.farewell_number r.farewell;
  encode_result = write_result;
  decode_result = read_result;
  encode_state = λ r. ok [];
}

abbrev greet_ann : Action
greet_ann = record { id = 7; submission_tag = []; message = 97 ∷ [] }

Asks-ann : Asks codec greet_ann (greet (97 ∷ []))
unfolding str
Asks-ann =
    hello (record { op_type = 8; op_command = 9; original_message = 97 ∷ [] })
      (record { name = 97 ∷ [] }) refl refl refl refl (λ e. cc)

-- The proxy has no answer to the first request.
abbrev answers : ℕ → Attempt
answers zero = failed []
answers (suc n) =
    answered 200 (process_action codec (serve codec new (greet_ann ∷ [])).0 greet_ann).2

first_fails : (j : ℕ) → j < 1 → is_ok (answers j) ≡ false
first_fails zero h = refl
first_fails (suc j) h = absurd (omega arith)

reads_result : ReadsResult codec read_result (λ b. b)
reads_result ar d small has bytes = (ar, read_result-write_result ar, refl, has)

reads_greeting : ReadsGreeting codec read_hello
reads_greeting r small bytes = (
  write_numbered-bytes r.greeting_number r.greeting bytes,
  write_numbered-nonempty r.greeting_number r.greeting,
  r,
  ap (λ (x : ℕ × Bytes). ok (record { greeting = x.1; greeting_number = x.0 }))
      (read_numbered-write_numbered r.greeting_number r.greeting),
  refl,
  refl,
)

verify_hello_result-passes_example : verify_hello_result read_result read_hello answers ≡ none
verify_hello_result-passes_example =
    verify_hello_result-passes codec read_result read_hello (λ b. b) (greet_ann ∷ []) greet_ann
      answers 1 reads_result reads_greeting (omega arith) Asks-ann (omega arith) (omega arith) refl
      first_fails

-- The same for farewells: a message is a name, and the reason is empty.
abbrev read_goodbye : Bytes → Result SayGoodbyeResponse
read_goodbye b =
    ok (record { farewell = (read_numbered b).1; farewell_number = (read_numbered b).0 })

abbrev farewell_codec : Codec
farewell_codec = record codec {
  parse_fixed = λ m. ok (record { op_type = 8; op_command = 11; original_message = m });
  decode_goodbye = λ m. ok (record { name = m; reason = [] });
}

Asks-farewell : Asks farewell_codec greet_ann (farewell (97 ∷ []) [])
unfolding str
Asks-farewell =
    goodbye (record { op_type = 8; op_command = 11; original_message = 97 ∷ [] })
      (record { name = 97 ∷ []; reason = [] }) refl refl (λ e. omega arith) refl refl (λ e. cc)

abbrev farewell_answers : ℕ → Attempt
farewell_answers zero = failed []
farewell_answers (suc n) =
    answered 200
      (process_action farewell_codec (serve farewell_codec new (greet_ann ∷ [])).0 greet_ann).2

first_farewell_fails : (j : ℕ) → j < 1 → is_ok (farewell_answers j) ≡ false
first_farewell_fails zero h = refl
first_farewell_fails (suc j) h = absurd (omega arith)

reads_farewell : ReadsFarewell farewell_codec read_goodbye
reads_farewell r small bytes = (
  write_numbered-bytes r.farewell_number r.farewell bytes,
  write_numbered-nonempty r.farewell_number r.farewell,
  r,
  ap (λ (x : ℕ × Bytes). ok (record { farewell = x.1; farewell_number = x.0 }))
      (read_numbered-write_numbered r.farewell_number r.farewell),
  refl,
  refl,
)

verify_goodbye_result-passes_example :
    verify_goodbye_result read_result read_goodbye farewell_answers ≡ none
verify_goodbye_result-passes_example =
    verify_goodbye_result-passes farewell_codec read_result read_goodbye (λ b. b) (greet_ann ∷ [])
      greet_ann farewell_answers 1 reads_result reads_farewell (omega arith) Asks-farewell
      (omega arith) tt (omega arith) refl first_farewell_fails

-- A proxy that has the same completed result for every instruction.
abbrev proxy : Proxy
proxy = record {
  get = λ sent id j. answered 200 [];
  response = λ b. ok (record {
    id = 4;
    submission_tag = [];
    version = [];
    op_type = 0;
    op_command = 0;
    payload = some (1 ∷ []);
    status = 1;
    log = [];
  });
  hello = λ b. ok (record { greeting = 72 ∷ []; greeting_number = 1 });
  goodbye = λ b. ok (record { farewell = 71 ∷ []; farewell_number = 1 });
  name_payload = 119 ∷ [];
}

test_passes : (run_test node proxy []).0 ≡ ok tt
unfolding run_test configure set_extension_id_on submit mined allow_set_already send_say_hello
    send_say_goodbye instruction_id verify_hello verify_goodbye verify_hello_result
    verify_goodbye_result check_polled check_data completed_data check_greeting check_farewell
    action_result
test_passes = refl

-- The same proxy with the status 3 passes too.
run_test-Tested_example :
    Tested node proxy [] (run_test node proxy []).1
    × ((run_test node (with_status 3 proxy) []).0 ≡ ok tt)
run_test-Tested_example =
    run_test-Tested node proxy [] 3 (λ e. omega arith) (λ e. omega arith) test_passes
