-- ===== src/Extension/Laws/Effects.antt =====
-- The effect that an action asks for, and the handlers of extension.go against it.
use fce_extension_scaffold.Base.{
  ap, sym, ◌∙◌, Result-cases, empty-cases, Bytes, ok, ◌≡◌, ◌≢◌, ◌⊎◌, inl, inr, ◌==◌, [], arith,
  Bool-cases, ==_iff,
}
use fce_extension_scaffold.Extension.Types.{
  Action, DataFixed, Extension, Codec, SayHelloRequest, SayGoodbyeRequest, op_type_greeting,
  op_command_say_hello, op_command_say_goodbye, int_suc,
}
use fce_extension_scaffold.Extension.Handlers.{
  greeting_text, farewell_text, process_action, process_greeting, process_say_hello,
  process_say_goodbye, record_greeting, record_farewell, say_hello, say_goodbye, respond, route,
}

-- What an accepted action does: it greets somebody, or bids them farewell for a reason.
pub data Effect : Type 0 where
  greet : Bytes → Effect
  farewell : Bytes → Bytes → Effect

abbrev pub apply : Effect → Extension → Extension
apply (greet name) e = record e {
  greeting_count = int_suc e.greeting_count;
  last_greeting = greeting_text name;
}
apply (farewell name reason) e = record e {
  farewell_count = int_suc e.farewell_count;
  last_farewell = farewell_text name reason;
}

-- An action asks for an effect when its fixed data parse to the GREETING type, its command is one of
-- the two, its message decodes, and the name is not empty.
module _ (c : Codec) (a : Action) where
  pub data Asks : Effect → Type 0 where
    hello :
        (df : DataFixed) (req : SayHelloRequest)
        → c.parse_fixed a.message ≡ ok df
        → df.op_type ≡ c.to_hash op_type_greeting
        → df.op_command ≡ c.to_hash op_command_say_hello
        → c.decode_hello df.original_message ≡ ok req
        → req.name ≢ []
        → Asks (greet req.name)
    goodbye :
        (df : DataFixed) (req : SayGoodbyeRequest)
        → c.parse_fixed a.message ≡ ok df
        → df.op_type ≡ c.to_hash op_type_greeting
        → df.op_command ≢ c.to_hash op_command_say_hello
        → df.op_command ≡ c.to_hash op_command_say_goodbye
        → c.decode_goodbye df.original_message ≡ ok req
        → req.name ≢ []
        → Asks (farewell req.name req.reason)

pub apply-ne : (x : Effect) (e : Extension) → apply x e ≢ e
apply-ne (greet name) e h = omega (arith, ap (λ (s : Extension). s.greeting_count) h)
apply-ne (farewell name reason) e h = omega (arith, ap (λ (s : Extension). s.farewell_count) h)

module _ (c : Codec) (e : Extension) (a : Action) where
  -- An action that asks for an effect has it, exactly.
  pub process_action-Asks : {x : Effect} → Asks c a x → (process_action c e a).0 ≡ apply x e
  unfolding process_action route process_greeting respond process_say_hello say_hello
      record_greeting process_say_goodbye say_goodbye record_farewell
  process_action-Asks (hello df req p t o d n) = ground arith
  process_action-Asks (goodbye df req p t m o d n) = ground arith

  hello_Asks :
      (df : DataFixed)
      → c.parse_fixed a.message ≡ ok df
      → df.op_type ≡ c.to_hash op_type_greeting
      → df.op_command ≡ c.to_hash op_command_say_hello
      → ((x : Effect) × Asks c a x) ⊎ ((process_say_hello c e a df).0 ≡ e)
  unfolding process_say_hello say_hello
  hello_Asks df p t o = elim (Result-cases (c.decode_hello df.original_message)) [
    | inr (x, d) ↦ inr (ground arith)
    | inl (req, d) ↦ elim (empty-cases req.name) [
      | inl n ↦ inr (ground arith)
      | inr n ↦ inl (greet req.name, hello df req p t o d n)
    ]
  ]

  goodbye_Asks :
      (df : DataFixed)
      → c.parse_fixed a.message ≡ ok df
      → df.op_type ≡ c.to_hash op_type_greeting
      → df.op_command ≢ c.to_hash op_command_say_hello
      → df.op_command ≡ c.to_hash op_command_say_goodbye
      → ((x : Effect) × Asks c a x) ⊎ ((process_say_goodbye c e a df).0 ≡ e)
  unfolding process_say_goodbye say_goodbye
  goodbye_Asks df p t m o = elim (Result-cases (c.decode_goodbye df.original_message)) [
    | inr (x, d) ↦ inr (ground arith)
    | inl (req, d) ↦ elim (empty-cases req.name) [
      | inl n ↦ inr (ground arith)
      | inr n ↦ inl (farewell req.name req.reason, goodbye df req p t m o d n)
    ]
  ]

  route-Asks :
      (df : DataFixed)
      → c.parse_fixed a.message ≡ ok df
      → ((x : Effect) × Asks c a x) ⊎ ((route c e a df).0 ≡ e)
  unfolding route process_greeting respond
  route-Asks df p = elim (Bool-cases (df.op_type == c.to_hash op_type_greeting)) [
    | inr f ↦ inr (ground arith)
    | inl f ↦ elim (Bool-cases (df.op_command == c.to_hash op_command_say_hello)) [
      | inl g ↦ elim (hello_Asks df p ((==_iff _ _).0 f) ((==_iff _ _).0 g)) [
        | inl asks ↦ inl asks
        | inr same ↦ inr (ground arith)
      ]
      | inr g ↦ elim (Bool-cases (df.op_command == c.to_hash op_command_say_goodbye)) [
        | inr h ↦ inr (ground arith)
        | inl h ↦ elim (goodbye_Asks df p ((==_iff _ _).0 f) (ground arith) ((==_iff _ _).0 h)) [
          | inl asks ↦ inl asks
          | inr same ↦ inr (ground arith)
        ]
      ]
    ]
  ]

  -- An action that changes the state asks for an effect.
  pub process_action_unchanged : ((x : Effect) × Asks c a x) ⊎ ((process_action c e a).0 ≡ e)
  unfolding process_action
  process_action_unchanged = elim (Result-cases (c.parse_fixed a.message)) [
    | inr (x, p) ↦ inr (ground arith)
    | inl (df, p) ↦ elim (route-Asks df p) [ inl asks ↦ inl asks | inr same ↦ inr (ground arith) ]
  ]

  -- An action either asks for an effect, which the new state then shows, or it asks for none and
  -- leaves the state as it was.
  pub process_action_effect :
      ((x : Effect) × Asks c a x × ((process_action c e a).0 ≡ apply x e))
      ⊎ (((x : Effect) → ¬ Asks c a x) × ((process_action c e a).0 ≡ e))
  process_action_effect = elim process_action_unchanged [
    | inl (x, asks) ↦ inl (x, asks, process_action-Asks asks)
    | inr same ↦ inr (λ x asks. apply-ne x e (sym (process_action-Asks asks) ∙ same), same)
  ]
