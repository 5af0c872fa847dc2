-- ===== src/Extension/Tests.antt =====
-- The server's theorems at concrete actions and interleavings, and small runs of the handlers of
-- go/internal/extension.
use fce_extension_scaffold.Base.{
  ℕ, arith, ◌≢◌, ◌%◌, ◌^◌, Bytes, str, is_empty, true, false, if◌then◌else◌, none, some, ok, err,
  List, [], ◌∷◌, ◌≡◌, refl, ◌⊎◌, length, show_nat,
}
use fce_extension_scaffold.Extension.Types.{Action, Codec, new}
use fce_extension_scaffold.Extension.Handlers.{
  process_action, action_handler, state_handler, get_log_from_body, greeting_text,
  process_say_hello, say_hello, route, process_greeting, respond, record_greeting,
}
use fce_extension_scaffold.Extension.Laws.{
  Effect, greet, apply, Asks, hello, process_action_effect, Answer, process_action-Answer, serve,
  Asked, greeted, last_of, serve_greetings,
}
use fce_extension_scaffold.Extension.Locking.Steps.{
  Log, hello_waiting, hello_locked, hello_counted, hello_numbered, hello_written, hello_done,
  state_waiting, state_locked, state_read1, state_read2, state_read3, state_read4, state_done,
  after_statement, after_read, Server, update, start, request, lock, statement, unlock, read_lock,
  read, read_unlock, Reach, here, next,
}
use fce_extension_scaffold.Extension.Locking.Invariant.{state_of, Earlier}
use fce_extension_scaffold.Extension.Locking.Own.{own_effects, hello_done-Earlier}
use fce_extension_scaffold.Extension.Locking.Unique.{greeting_numbers-differ}
use fce_extension_scaffold.Extension.Locking.Theorems.{
  state_done-Earlier, is_writing, is_reading, is_writing-exclusive,
}

-- Hashes are lengths, and a message is a name.
abbrev codec : Codec
codec = record {
  to_hash = length;
  hex = show_nat;
  decode_action = λ b. ok (record { id = 7; submission_tag = []; message = b });
  parse_fixed = λ m.
      if is_empty m
      then err (str "empty")
      else ok (record { op_type = 8; op_command = 9; original_message = m });
  decode_hello = λ m. ok (record { name = m });
  decode_goodbye = λ m. err (str "no abi");
  encode_hello = λ r. r.greeting;
  encode_goodbye = λ r. r.farewell;
  encode_result = λ ar. ar.log;
  decode_result = λ b. err (str "no json");
  encode_state = λ r. ok r.state.last_greeting;
}

abbrev bob : Bytes
bob = 66 ∷ 111 ∷ 98 ∷ []

abbrev greet_bob : Action
greet_bob = record { id = 7; submission_tag = []; message = bob }

handler_runs :
    ((action_handler codec new bob).1 ≡ 200)
    × ((action_handler codec new bob).0.greeting_count ≡ 1)
    × ((action_handler codec new []).1 ≡ 400)
    × (get_log_from_body codec bob ≡ bob)
    × ((state_handler codec new).0 ≡ 200)
unfolding action_handler process_action state_handler get_log_from_body process_say_hello say_hello
    str route process_greeting respond record_greeting
handler_runs = (refl, refl, refl, refl, refl)

Asks-bob : Asks codec greet_bob (greet bob)
unfolding str
Asks-bob =
    hello (record { op_type = 8; op_command = 9; original_message = bob }) (record { name = bob })
      refl refl refl refl (λ e. cc)

process_action_effect_example :
    ((x : Effect) × Asks codec greet_bob x × ((process_action codec new greet_bob).0 ≡ apply x new))
    ⊎ (((x : Effect) → ¬ Asks codec greet_bob x) × ((process_action codec new greet_bob).0 ≡ new))
process_action_effect_example = process_action_effect codec new greet_bob

process_action-Answer_example : Answer codec new greet_bob
process_action-Answer_example = process_action-Answer codec new greet_bob

abbrev two_greetings : List Action
two_greetings = greet_bob ∷ greet_bob ∷ []

serve_greetings_example :
    (xs : List Effect) × Asked codec two_greetings xs
    × ((serve codec new two_greetings).0.greeting_count ≡ length (greeted xs) % 2 ^ 64)
    × ((serve codec new two_greetings).0.last_greeting ≡ last_of [] (greeted xs))
serve_greetings_example = serve_greetings codec two_greetings

-- Goroutine 0 greets.
abbrev waiting : Server
waiting = record start { pcs = update start.pcs 0 (hello_waiting bob) }

abbrev locked : Server
locked = record waiting { pcs = update waiting.pcs 0 (hello_locked bob); writer = some 0 }

abbrev counted : Server
counted = record locked {
  pcs = update locked.pcs 0 (hello_counted bob);
  ext = record new { greeting_count = 1 };
}

abbrev numbered : Server
numbered = record counted { pcs = update counted.pcs 0 (hello_numbered bob 1); ext = counted.ext }

abbrev written : Server
written = record numbered {
  pcs = update numbered.pcs 0 (hello_written bob 1);
  ext = record numbered.ext { last_greeting = greeting_text bob };
}

abbrev greeted_once : Server
greeted_once = record written {
  pcs = update written.pcs 0 (hello_done bob 1);
  writer = none;
  log = (0, greet bob) ∷ [];
}

Reach-counted : Reach counted
unfolding after_statement
Reach-counted =
    next
      (next (next here (request 0 (hello_waiting bob) refl refl))
        (lock 0 (hello_locked bob) refl refl (λ j. refl)))
      (statement 0 (hello_counted bob) (record new { greeting_count = 1 }) refl)

Reach-greeted : Reach greeted_once
unfolding after_statement
Reach-greeted =
    next
      (next (next Reach-counted (statement 0 (hello_numbered bob 1) counted.ext refl)) (
        statement 0 (hello_written bob 1)
          (record numbered.ext { last_greeting = greeting_text bob }) refl))
      (unlock 0 (hello_done bob 1) (greet bob) refl)

hello_done-Earlier_example :
    (own_effects 0 greeted_once.log ≡ 1)
    × (xs : Log) × Earlier ((0, greet bob) ∷ xs) greeted_once.log
    × (◌≡◌ {A = ℕ} 1 (state_of ((0, greet bob) ∷ xs)).greeting_count)
hello_done-Earlier_example = hello_done-Earlier {s = greeted_once} 0 Reach-greeted refl

is_writing-exclusive_example :
    (◌≡◌ {A = ℕ} 0 1)
    ⊎ ((is_writing (counted.pcs 1) ≡ false) × (is_reading (counted.pcs 1) ≡ false))
is_writing-exclusive_example = is_writing-exclusive {s = counted} 0 1 Reach-counted refl

-- Goroutine 1 then reads the state.
abbrev r1 : Server
r1 = record greeted_once { pcs = update greeted_once.pcs 1 state_waiting }

abbrev r2 : Server
r2 = record r1 { pcs = update r1.pcs 1 state_locked; readers = update r1.readers 1 true }

abbrev r3 : Server
r3 = record r2 { pcs = update r2.pcs 1 (state_read1 1) }

abbrev r4 : Server
r4 = record r3 { pcs = update r3.pcs 1 (state_read2 1 (greeting_text bob)) }

abbrev r5 : Server
r5 = record r4 { pcs = update r4.pcs 1 (state_read3 1 (greeting_text bob) 0) }

abbrev r6 : Server
r6 = record r5 { pcs = update r5.pcs 1 (state_read4 greeted_once.ext) }

abbrev r7 : Server
r7 = record r6 {
  pcs = update r6.pcs 1 (state_done greeted_once.ext);
  readers = update r6.readers 1 false;
}

Reach-read : Reach r7
unfolding after_read
Reach-read =
    next
      (next
        (next
          (next
            (next
              (next (next Reach-greeted (request 1 state_waiting refl refl))
                (read_lock 1 refl refl))
              (read 1 (state_read1 1) refl))
            (read 1 (state_read2 1 (greeting_text bob)) refl))
          (read 1 (state_read3 1 (greeting_text bob) 0) refl))
        (read 1 (state_read4 greeted_once.ext) refl))
      (read_unlock 1 greeted_once.ext refl)

state_done-Earlier_example : (xs : Log) × Earlier xs r7.log × (greeted_once.ext ≡ state_of xs)
state_done-Earlier_example = state_done-Earlier {s = r7} 1 Reach-read refl

-- Goroutine 1 then greets as well.
abbrev s1 : Server
s1 = record greeted_once { pcs = update greeted_once.pcs 1 (hello_waiting bob) }

abbrev s2 : Server
s2 = record s1 { pcs = update s1.pcs 1 (hello_locked bob); writer = some 1 }

abbrev s3 : Server
s3 = record s2 {
  pcs = update s2.pcs 1 (hello_counted bob);
  ext = record greeted_once.ext { greeting_count = 2 };
}

abbrev s4 : Server
s4 = record s3 { pcs = update s3.pcs 1 (hello_numbered bob 2); ext = s3.ext }

abbrev s5 : Server
s5 = record s4 {
  pcs = update s4.pcs 1 (hello_written bob 2);
  ext = record s4.ext { last_greeting = greeting_text bob };
}

abbrev greeted_twice : Server
greeted_twice = record s5 {
  pcs = update s5.pcs 1 (hello_done bob 2);
  writer = none;
  log = (1, greet bob) ∷ (0, greet bob) ∷ [];
}

no_readers : (j : ℕ) → s1.readers j ≡ false
no_readers j = refl

Reach-greeted_twice : Reach greeted_twice
unfolding after_statement
Reach-greeted_twice =
    next
      (next
        (next
          (next
            (next (next Reach-greeted (request 1 (hello_waiting bob) refl refl))
              (lock 1 (hello_locked bob) refl refl no_readers))
            (statement 1 (hello_counted bob) s3.ext refl))
          (statement 1 (hello_numbered bob 2) s3.ext refl))
        (statement 1 (hello_written bob 2) s5.ext refl))
      (unlock 1 (hello_done bob 2) (greet bob) refl)

greeting_numbers-differ_example : ◌≢◌ {A = ℕ} 1 2
greeting_numbers-differ_example =
    greeting_numbers-differ {s = greeted_twice} 0 1 Reach-greeted_twice (omega arith) (λ e. cc) refl
      refl
