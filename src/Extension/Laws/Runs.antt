-- ===== src/Extension/Laws/Runs.antt =====
-- A server that handles actions one after the other: extension.go's `processAction` over a sequence.
use fce_extension_scaffold.Base.{
  ok, ℕ, Bytes, ◌≡◌, refl, ap, ◌∙◌, ◌<◌, ◌+◌, ◌%◌, ◌^◌, inl, inr, none, some, List, [], ◌∷◌, arith,
  length,
}
use fce_extension_scaffold.Extension.Types.{Action, DataFixed, Extension, Codec, new}
use fce_extension_scaffold.Extension.Handlers.{
  build_result, greeting_text, farewell_text, process_action, process_greeting, process_say_hello,
  process_say_goodbye, record_greeting, record_farewell, say_hello, say_goodbye, respond, route,
}
use fce_extension_scaffold.Extension.Laws.Effects.{
  Effect, greet, farewell, apply, Asks, hello, goodbye, process_action_effect,
}

-- The state and the answers after a list of actions.
unfoldable pub serve : Codec → Extension → List Action → Extension × List (ℕ × Bytes)
serve c e [] = (e, [])
serve c e (a ∷ acts) =
    let r = process_action c e a in
    let (last, answers) = serve c r.0 acts in (last, (r.1, r.2) ∷ answers)

-- The effects that a list of actions asks for, in order.
pub data Asked (c : Codec) : List Action → List Effect → Type 0 where
  nothing : Asked c [] []
  refused :
      {a : Action} {acts : List Action} {xs : List Effect}
      → ((x : Effect) → ¬ Asks c a x)
      → Asked c acts xs
      → Asked c (a ∷ acts) xs
  accepted :
      {a : Action} {acts : List Action} {x : Effect} {xs : List Effect}
      → Asks c a x
      → Asked c acts xs
      → Asked c (a ∷ acts) (x ∷ xs)

-- The effects on their own.
abbrev pub replay : List Effect → Extension → Extension
replay [] e = e
replay (x ∷ xs) e = replay xs (apply x e)

-- The names that were greeted, in order.
abbrev pub greeted : List Effect → List Bytes
greeted [] = []
greeted (greet name ∷ xs) = name ∷ greeted xs
greeted (farewell name reason ∷ xs) = greeted xs

-- The greeting of the last name, if any, or else the text before.
abbrev pub last_of : Bytes → List Bytes → Bytes
last_of before [] = before
last_of before (name ∷ names) = last_of (greeting_text name) names

replay-greeting_count :
    (xs : List Effect) (e : Extension)
    → e.greeting_count < 2 ^ 64
    → (replay xs e).greeting_count ≡ (e.greeting_count + length (greeted xs)) % 2 ^ 64
replay-greeting_count [] e h = omega arith
replay-greeting_count (greet name ∷ xs) e h =
    omega (arith, replay-greeting_count xs (apply (greet name) e) (omega arith))
replay-greeting_count (farewell name reason ∷ xs) e h =
    replay-greeting_count xs (apply (farewell name reason) e) h

replay-last_greeting :
    (xs : List Effect) (e : Extension)
    → (replay xs e).last_greeting ≡ last_of e.last_greeting (greeted xs)
replay-last_greeting [] e = refl
replay-last_greeting (greet name ∷ xs) e = replay-last_greeting xs (apply (greet name) e)
replay-last_greeting (farewell name reason ∷ xs) e =
    replay-last_greeting xs (apply (farewell name reason) e)

module _ (c : Codec) where
  pub serve-Asked :
      (e : Extension) (acts : List Action)
      → (xs : List Effect) × Asked c acts xs × ((serve c e acts).0 ≡ replay xs e)
  unfolding serve
  serve-Asked e [] = ([], nothing, refl)
  serve-Asked e (a ∷ acts) = elim (process_action_effect c e a) [
    | inl (x, asks, does) ↦
        let (xs, asked, same) = serve-Asked (process_action c e a).0 acts in
        (x ∷ xs, accepted asks asked, same ∙ ap (replay xs) does)
    | inr (asks, does) ↦
        let (xs, asked, same) = serve-Asked (process_action c e a).0 acts in
        (xs, refused asks asked, same ∙ ap (replay xs) does)
  ]

  -- After any actions, the greeting counter of a new server is the number of greetings that were
  -- asked for, as a 64-bit integer, and the last greeting is that of the last of them.
  pub serve_greetings :
      (acts : List Action)
      → (xs : List Effect) × Asked c acts xs
        × ((serve c new acts).0.greeting_count ≡ length (greeted xs) % 2 ^ 64)
        × ((serve c new acts).0.last_greeting ≡ last_of [] (greeted xs))
  serve_greetings acts =
      let (xs, asked, same) = serve-Asked new acts in
      (
        xs,
        asked,
        ap (λ s. s.greeting_count) same ∙ omega (arith, replay-greeting_count xs new (omega arith)),
        ap (λ s. s.last_greeting) same ∙ replay-last_greeting xs new,
      )

  -- The data of a successful result, in the state after it.
  abbrev pub reply_data : Effect → Extension → Bytes
  reply_data (greet name) e' =
      c.encode_hello (record { greeting = greeting_text name; greeting_number = e'.greeting_count })
  reply_data (farewell name reason) e' =
      c.encode_goodbye
        (record { farewell = farewell_text name reason; farewell_number = e'.farewell_count })

  pub process_action-reply_data :
      (e : Extension) (a : Action) {x : Effect}
      → Asks c a x
      → (df : DataFixed) × (c.parse_fixed a.message ≡ ok df)
        × (process_action c e a ≡ (
          apply x e,
          200,
          c.encode_result (build_result a df (some (reply_data x (apply x e))) 1 none),
        ))
  unfolding process_action route process_greeting respond process_say_hello say_hello
      record_greeting process_say_goodbye say_goodbye record_farewell
  process_action-reply_data e a (hello df req p t o d n) = (df, p, ground arith)
  process_action-reply_data e a (goodbye df req p t m o d n) = (df, p, ground arith)

  -- A new server that has handled any actions answers a greeting with the next number: one more
  -- than the number of greetings before it, as a 64-bit integer.
  pub serve_greeting_number :
      (acts : List Action) (a : Action) {name : Bytes}
      → Asks c a (greet name)
      → (xs : List Effect) × Asked c acts xs
        × (df : DataFixed) × (c.parse_fixed a.message ≡ ok df)
        × ((process_action c (serve c new acts).0 a).2
            ≡ c.encode_result (
                build_result a df
                  (some (
                    c.encode_hello (record {
                      greeting = greeting_text name;
                      greeting_number = (length (greeted xs) + 1) % 2 ^ 64;
                    })))
                  1
                  none))
  serve_greeting_number acts a {name} asks =
      let (xs, asked, counted, _) = serve_greetings acts in
      let (df, parsed, same) = process_action-reply_data (serve c new acts).0 a asks in
      (
        xs,
        asked,
        df,
        parsed,
        ap (λ (r : Extension × ℕ × Bytes). r.2) same
            ∙ ap
                (λ (n : ℕ). c.encode_result (
                  build_result a df
                    (some (
                      c.encode_hello
                        (record { greeting = greeting_text name; greeting_number = n })))
                    1 none))
                (omega (arith, counted)),
      )
