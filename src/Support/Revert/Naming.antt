-- ===== src/Support/Revert/Naming.antt =====
-- Which reports of a custom error revert.go can name.
use fce_extension_scaffold.Base.{
  ◌≤◌, Bytes, str, is_empty, hex_encode, hex_decode, hex_decode-hex_encode, trim_0x,
  trim_0x-hex_encode, IsByte, length, true, false, none, some, Option-cases, inl, inr, List, [],
  ◌∷◌, ◌++◌, ◌≡◌, ◌≢◌, refl, ap, ◌∙◌, All, arith,
}
use fce_extension_scaffold.Support.Revert.{
  ErrorData, absent, text, raw, other, CallError, Call, returned, reverted, AbiError, Decoder,
  decode_revert_hex, decode_revert_reason, simulate_and_decode_revert, decode_text,
  decode_revert_from_error, name_with_args, has_selector, match_selector, match_custom_error,
}

-- The first error with the payload's selector is the one that is named.
match_selector-first :
    (before : List AbiError) (e : AbiError) (after : List AbiError) (payload : Bytes)
    → All (λ x. has_selector payload x ≡ false) before
    → has_selector payload e ≡ true
    → match_selector (before ++ e ∷ after) payload ≡ name_with_args e payload
unfolding match_selector
match_selector-first [] e after payload none_before h = rw h
match_selector-first (x ∷ before) e after payload (p, none_before) h =
    rw p (match_selector-first before e after payload none_before h)

trim_0x-prefix : (s : Bytes) → trim_0x (str "0x" ++ s) ≡ s
unfolding trim_0x str
trim_0x-prefix s = refl

-- The ways in which a node can report the data of a revert: as the result of the call, or as the data of
-- its error, which are a text, with 0x or without, a []byte, or something else.
pub data Form : Type 0 where
  in_result as_text as_prefixed as_bytes as_other : Form

abbrev error_with : (message : Bytes) → ErrorData → Call
error_with message d = reverted (record { message = message; payload = d })

abbrev pub reported : Form → (message payload : Bytes) → Call
reported in_result message payload = returned payload
reported as_text message payload = error_with message (text (hex_encode payload))
reported as_prefixed message payload = error_with message (text (str "0x" ++ hex_encode payload))
reported as_bytes message payload = error_with message (raw payload)
reported as_other message payload = error_with message other

-- What is made of a report: `DecodeRevertReason` reads a text only, so the name of the error is found
-- in the first three forms, and in the others the error's message is all that is looked at.
abbrev pub made_of : Form → List AbiError → AbiError → (message payload : Bytes) → Bytes
made_of as_bytes es e message payload = match_custom_error es message
made_of as_other es e message payload = match_custom_error es message
made_of _ es e message payload = name_with_args e payload

module _ (c : Decoder) (payload : Bytes) (bytes : All IsByte payload)
    (long : 4 ≤ length payload) where
  decode_revert_hex-undecodable :
      (s : Bytes)
      → trim_0x s ≡ hex_encode payload
      → c.unpack_revert payload ≡ none
      → decode_revert_hex c s ≡ str "0x" ++ hex_encode payload
  unfolding decode_revert_hex
  decode_revert_hex-undecodable s t u = ground (arith, t, u, hex_decode-hex_encode payload bytes)

  prefixed-nonempty : is_empty (str "0x" ++ hex_encode payload) ≡ false
  unfolding str
  prefixed-nonempty = refl

  simulate-returned :
      c.unpack_revert payload ≡ none
      → simulate_and_decode_revert c (returned payload) ≡ str "0x" ++ hex_encode payload
  unfolding simulate_and_decode_revert
  simulate-returned u = ground (
    arith,
    decode_revert_hex-undecodable (hex_encode payload) (trim_0x-hex_encode payload bytes) u,
  )

  simulate-text :
      (message s : Bytes)
      → trim_0x s ≡ hex_encode payload
      → c.unpack_revert payload ≡ none
      → simulate_and_decode_revert c (error_with message (text s)) ≡ str "0x" ++ hex_encode payload
  unfolding simulate_and_decode_revert
  simulate-text message s t u =
      ground (arith, prefixed-nonempty, decode_revert_hex-undecodable s t u)

module _ (payload : Bytes) (bytes : All IsByte payload) (long : 4 ≤ length payload) where
  match_custom_error-raw :
      (es : List AbiError)
      → match_custom_error es (str "0x" ++ hex_encode payload) ≡ match_selector es payload
  unfolding match_custom_error
  match_custom_error-raw es =
      ground (arith, trim_0x-prefix (hex_encode payload), hex_decode-hex_encode payload bytes)

raw_payload-named :
    (payload : Bytes) (before : List AbiError) (e : AbiError) (after : List AbiError)
    → All IsByte payload
    → 4 ≤ length payload
    → All (λ x. has_selector payload x ≡ false) before
    → has_selector payload e ≡ true
    → match_custom_error (before ++ e ∷ after) (str "0x" ++ hex_encode payload)
      ≡ name_with_args e payload
raw_payload-named payload before e after bytes long none_before h =
    match_custom_error-raw payload bytes long (before ++ e ∷ after)
    ∙ match_selector-first before e after payload none_before h

-- Data that are no text leave the message.
simulate-bytes :
    (c : Decoder) (message payload : Bytes)
    → simulate_and_decode_revert c (error_with message (raw payload)) ≡ message
unfolding simulate_and_decode_revert
simulate-bytes c message payload = refl

simulate-other :
    (c : Decoder) (message : Bytes)
    → simulate_and_decode_revert c (error_with message other) ≡ message
unfolding simulate_and_decode_revert
simulate-other c message = refl

-- A revert whose data are bytes with a selector, and no Error(string), is named by the first error of
-- the ABI with that selector, with its arguments, where the data are the result of the call or a text
-- in its error, with 0x or without; where they are a []byte or something else, the message of the error
-- is looked up in their place.
pub match_custom_error-simulate :
    (c : Decoder) (payload message : Bytes) (before : List AbiError) (e : AbiError)
    (after : List AbiError) (form : Form)
    → All IsByte payload
    → 4 ≤ length payload
    → c.unpack_revert payload ≡ none
    → All (λ x. has_selector payload x ≡ false) before
    → has_selector payload e ≡ true
    → match_custom_error
        (before ++ e ∷ after)
        (simulate_and_decode_revert c (reported form message payload))
      ≡ made_of form (before ++ e ∷ after) e message payload
match_custom_error-simulate c payload message before e after in_result bytes long u none_before h =
    ap (match_custom_error (before ++ e ∷ after)) (simulate-returned c payload bytes long u)
    ∙ raw_payload-named payload before e after bytes long none_before h
match_custom_error-simulate c payload message before e after as_text bytes long u none_before h =
    ap (match_custom_error (before ++ e ∷ after)) (
      simulate-text c payload bytes long message (hex_encode payload)
        (trim_0x-hex_encode payload bytes) u)
    ∙ raw_payload-named payload before e after bytes long none_before h
match_custom_error-simulate c payload message before e after as_prefixed bytes long u none_before
      h =
    ap (match_custom_error (before ++ e ∷ after)) (
      simulate-text c payload bytes long message (str "0x" ++ hex_encode payload)
        (trim_0x-prefix (hex_encode payload)) u)
    ∙ raw_payload-named payload before e after bytes long none_before h
match_custom_error-simulate c payload message before e after as_bytes bytes long u none_before h =
    ap (match_custom_error (before ++ e ∷ after)) (simulate-bytes c message payload)
match_custom_error-simulate c payload message before e after as_other bytes long u none_before h =
    ap (match_custom_error (before ++ e ∷ after)) (simulate-other c message)

module _ (c : Decoder) (long : (d r : Bytes) → c.unpack_revert d ≡ some r → 4 ≤ length d) where
  decode_text-agrees : (s : Bytes) → decode_text c s ≢ [] → decode_revert_hex c s ≡ decode_text c s
  unfolding decode_text decode_revert_hex
  decode_text-agrees s h = elim (Option-cases (hex_decode (trim_0x s))) [
    | inl e ↦ ground arith
    | inr (d, e) ↦ elim (Option-cases (c.unpack_revert d)) [
      | inl u ↦ ground arith
      | inr (r, u) ↦ ground (arith, long d r u)
    ]
  ]

  data_agrees :
      (message : Bytes) (p : ErrorData)
      → let e : CallError = record { message = message; payload = p } in
        decode_revert_from_error c e ≢ [] → decode_revert_reason c e ≡ decode_revert_from_error c e
  unfolding decode_revert_from_error decode_revert_reason
  data_agrees message absent h = refl
  data_agrees message (text s) h = decode_text-agrees s h
  data_agrees message (raw b) h = refl
  data_agrees message other h = refl

-- Where UnpackRevert takes no data shorter than a selector, every reason that support.go's
-- `decodeRevertFromError` finds is the one that `DecodeRevertReason` finds.
pub decode_revert_from_error-agrees :
    (c : Decoder) (e : CallError)
    → ((d r : Bytes) → c.unpack_revert d ≡ some r → 4 ≤ length d)
    → decode_revert_from_error c e ≢ []
    → decode_revert_reason c e ≡ decode_revert_from_error c e
decode_revert_from_error-agrees c e long h = data_agrees c long e.message e.payload h
