-- ===== src/Extension/Laws/Replies.antt =====
-- What the handlers of extension.go answer, and what utils.go logs of it.
use fce_extension_scaffold.Base.{
  ℕ, Bytes, str, ok, err, ◌≡◌, refl, ◌≢◌, ◌⊎◌, inl, inr, ◌==◌, none, some, ◌++◌, arith, Bool-cases,
  Result-cases, empty-cases,
}
use fce_extension_scaffold.Extension.Types.{
  Action, DataFixed, ActionResult, Extension, Codec, version, int_suc, op_type_greeting,
  op_command_say_hello, op_command_say_goodbye,
}
use fce_extension_scaffold.Extension.Handlers.{
  build_result, process_action, process_greeting, process_say_hello, process_say_goodbye, say_hello,
  say_goodbye, greeting_text, farewell_text, record_greeting, record_farewell, unsupported_type,
  unsupported_command, respond, route, result_log,
}

-- The result carries the action's identifiers.
pub record Echoes (a : Action) (df : DataFixed) (ar : ActionResult) : Type 0 where
  pub same_id : ar.id ≡ a.id
  pub same_tag : ar.submission_tag ≡ a.submission_tag
  pub same_version : ar.version ≡ version
  pub same_type : ar.op_type ≡ df.op_type
  pub same_command : ar.op_command ≡ df.op_command

-- A success has data and the log "ok"; a failure has no data, a log that begins with "error: ", and
-- the state as it was.
abbrev pub Concludes : Extension → Extension → ActionResult → Type 0
Concludes e e' ar =
    ((ar.status ≡ 1) × (ar.log ≡ str "ok") × ((d : Bytes) × (ar.payload ≡ some d)) × (e' ≢ e))
    ⊎ ((ar.status ≡ 0)
        × ((why : Bytes) × (ar.log ≡ str "error: " ++ why))
        × (ar.payload ≡ none)
        × (e' ≡ e))

int_suc-ne : (n : ℕ) → int_suc n ≢ n
int_suc-ne n h = omega arith

module _ (c : Codec) (e : Extension) (a : Action) (df : DataFixed) where
  process_say_hello-Echoes : Echoes a df (process_say_hello c e a df).1
  unfolding process_say_hello say_hello build_result
  process_say_hello-Echoes = ground arith

  process_say_goodbye-Echoes : Echoes a df (process_say_goodbye c e a df).1
  unfolding process_say_goodbye say_goodbye build_result
  process_say_goodbye-Echoes = ground arith

  process_say_hello-Concludes :
      Concludes e (process_say_hello c e a df).0 (process_say_hello c e a df).1
  unfolding process_say_hello say_hello build_result result_log record_greeting
  process_say_hello-Concludes = elim (Result-cases (c.decode_hello df.original_message)) [
    | inr (x, d) ↦
        rw (d, process_say_hello) (inr (refl, (str "decoding request: " ++ x, refl), refl, refl))
    | inl (req, d) ↦ elim (empty-cases req.name) [
      | inl n ↦
          inr
            (ground arith, (str "name must not be empty", ground arith), ground arith, ground arith)
      | inr n ↦ inl (
        ground arith,
        ground arith,
        (
          c.encode_hello (record {
            greeting = greeting_text req.name;
            greeting_number = int_suc e.greeting_count;
          }),
          ground arith,
        ),
        ground (arith, int_suc-ne e.greeting_count),
      )
    ]
  ]

  process_say_goodbye-Concludes :
      Concludes e (process_say_goodbye c e a df).0 (process_say_goodbye c e a df).1
  unfolding process_say_goodbye say_goodbye build_result result_log record_farewell
  process_say_goodbye-Concludes = elim (Result-cases (c.decode_goodbye df.original_message)) [
    | inr (x, d) ↦
        rw (d, process_say_goodbye) (inr (refl, (str "decoding request: " ++ x, refl), refl, refl))
    | inl (req, d) ↦ elim (empty-cases req.name) [
      | inl n ↦
          inr
            (ground arith, (str "name must not be empty", ground arith), ground arith, ground arith)
      | inr n ↦ inl (
        ground arith,
        ground arith,
        (
          c.encode_goodbye (record {
            farewell = farewell_text req.name req.reason;
            farewell_number = int_suc e.farewell_count;
          }),
          ground arith,
        ),
        ground (arith, int_suc-ne e.farewell_count),
      )
    ]
  ]

-- The action is of a type and a command that the extension has.
abbrev pub IsKnown : Codec → DataFixed → Type 0
IsKnown c df =
    (df.op_type ≡ c.to_hash op_type_greeting)
    × ((df.op_command ≡ c.to_hash op_command_say_hello)
        ⊎ (df.op_command ≡ c.to_hash op_command_say_goodbye))

-- The three kinds of answer to an action.
pub data Answer (c : Codec) (e : Extension) (a : Action) : Type 0 where
  undecodable :
      (x : Bytes)
      → c.parse_fixed a.message ≡ err x
      → process_action c e a ≡ (e, 400, str "decoding fixed data: " ++ x)
      → Answer c e a
  unsupported :
      (df : DataFixed) (body : Bytes)
      → c.parse_fixed a.message ≡ ok df
      → ¬ (IsKnown c df)
      → process_action c e a ≡ (e, 501, body)
      → Answer c e a
  processed :
      (df : DataFixed) (e' : Extension) (ar : ActionResult)
      → c.parse_fixed a.message ≡ ok df
      → IsKnown c df
      → process_action c e a ≡ (e', 200, c.encode_result ar)
      → Echoes a df ar
      → Concludes e e' ar
      → Answer c e a

module _ (c : Codec) (e : Extension) (a : Action) where
  route-Answer :
      (df : DataFixed)
      → c.parse_fixed a.message ≡ ok df
      → process_action c e a ≡ route c e a df
      → Answer c e a
  unfolding route process_greeting respond
  route-Answer df p q = elim (Bool-cases (df.op_type == c.to_hash op_type_greeting)) [
    | inr f ↦ unsupported df (unsupported_type c df) p (λ k. ground (arith, k.0)) (ground arith)
    | inl f ↦ elim (Bool-cases (df.op_command == c.to_hash op_command_say_hello)) [
      | inl g ↦
          let r = process_say_hello c e a df in
          processed df r.0 r.1 p (ground arith) (ground arith) (process_say_hello-Echoes c e a df)
            (process_say_hello-Concludes c e a df)
      | inr g ↦ elim (Bool-cases (df.op_command == c.to_hash op_command_say_goodbye)) [
        | inl h ↦
            let r = process_say_goodbye c e a df in
            processed df r.0 r.1 p (ground arith) (ground arith)
              (process_say_goodbye-Echoes c e a df) (process_say_goodbye-Concludes c e a df)
        | inr h ↦
            unsupported df (unsupported_command c df) p (λ k. ground (arith, k.1)) (ground arith)
      ]
    ]
  ]

  -- Every action is answered in one of three ways: 400 when its fixed data do not decode, 501 when
  -- they name no known type and command, and otherwise 200 with a result that echoes the action and
  -- is either a success that changed the state or an error that left it alone.
  pub process_action-Answer : Answer c e a
  unfolding process_action
  process_action-Answer = elim (Result-cases (c.parse_fixed a.message)) [
    | inr (x, p) ↦ undecodable x p (ground arith)
    | inl (df, p) ↦ route-Answer df p (ground arith)
  ]
