-- ===== src/Extension/Laws/Farewells.antt =====
-- The farewells of a server that handles actions one after the other.
use fce_extension_scaffold.Base.{
  ok, ℕ, Bytes, ◌≡◌, ap, ◌∙◌, ◌<◌, ◌+◌, ◌%◌, ◌^◌, none, some, List, [], ◌∷◌, arith, length,
}
use fce_extension_scaffold.Extension.Types.{Action, DataFixed, Extension, Codec, new}
use fce_extension_scaffold.Extension.Handlers.{build_result, farewell_text, process_action}
use fce_extension_scaffold.Extension.Laws.Effects.{Effect, greet, farewell, apply, Asks}
use fce_extension_scaffold.Extension.Laws.Runs.{
  serve, Asked, replay, serve-Asked, process_action-reply_data,
}

-- The names and the reasons of the farewells, in order.
abbrev pub farewelled : List Effect → List (Bytes × Bytes)
farewelled [] = []
farewelled (greet name ∷ xs) = farewelled xs
farewelled (farewell name reason ∷ xs) = (name, reason) ∷ farewelled xs

replay-farewell_count :
    (xs : List Effect) (e : Extension)
    → e.farewell_count < 2 ^ 64
    → (replay xs e).farewell_count ≡ (e.farewell_count + length (farewelled xs)) % 2 ^ 64
replay-farewell_count [] e h = omega arith
replay-farewell_count (greet name ∷ xs) e h = replay-farewell_count xs (apply (greet name) e) h
replay-farewell_count (farewell name reason ∷ xs) e h =
    omega (arith, replay-farewell_count xs (apply (farewell name reason) e) (omega arith))

-- A new server that has handled any actions answers a farewell with the next number: one more than the
-- number of farewells before it, as a 64-bit integer.
pub serve_farewell_number :
    (c : Codec) (acts : List Action) (a : Action) {name reason : Bytes}
    → Asks c a (farewell name reason)
    → (xs : List Effect) × Asked c acts xs
      × (df : DataFixed) × (c.parse_fixed a.message ≡ ok df)
      × ((process_action c (serve c new acts).0 a).2
          ≡ c.encode_result (
              build_result a df
                (some (
                  c.encode_goodbye (record {
                    farewell = farewell_text name reason;
                    farewell_number = (length (farewelled xs) + 1) % 2 ^ 64;
                  })))
                1
                none))
serve_farewell_number c acts a {name} {reason} asks =
    let (xs, asked, same) = serve-Asked c new acts in
    let counted = ap (λ s. s.farewell_count) same ∙ replay-farewell_count xs new (omega arith) in
    let (df, parsed, body) = process_action-reply_data c (serve c new acts).0 a asks in
    (
      xs,
      asked,
      df,
      parsed,
      ap (λ (r : Extension × ℕ × Bytes). r.2) body
          ∙ ap
              (λ (n : ℕ). c.encode_result (
                build_result a df
                  (some (
                    c.encode_goodbye
                      (record { farewell = farewell_text name reason; farewell_number = n })))
                  1 none))
              (omega (arith, counted)),
    )
