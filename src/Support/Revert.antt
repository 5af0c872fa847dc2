-- ===== src/Support/Revert.antt =====
-- Why a call failed: tools/pkg/fccutils/revert.go and diag.go, and the decoding in
-- tools/pkg/support/support.go. The decoders of go-ethereum's package abi are parameters.
pub mod Naming
use fce_extension_scaffold.Base.{
  Bytes, str, is_empty, beq, hex_encode, hex_decode, trim_0x, ltb, length, take, drop, Bool, ◌||◌,
  ◌&&◌, not, if◌then◌else◌, Option, none, some, Result, ok, err, List, [], ◌∷◌, ◌++◌, map,
}

-- What ErrorData() of an RPC error gives; `absent` stands for nil and for an error that has no such
-- method.
pub data ErrorData : Type 0 where
  absent : ErrorData
  text : Bytes → ErrorData
  raw : Bytes → ErrorData
  other : ErrorData

pub record CallError : Type 0 where
  pub message : Bytes  -- err.Error()
  pub payload : ErrorData

-- What CallContract gives.
pub data Call : Type 0 where
  returned : Bytes → Call
  reverted : CallError → Call

-- An error that a contract's ABI declares. `unpack` gives the `%v` of the arguments of a payload, and
-- `unpack_inputs` of what follows its selector.
pub record AbiError : Type 0 where
  pub name : Bytes
  pub id : Bytes  -- the hash whose first four bytes are the selector
  pub unpack : Bytes → Result Bytes
  pub unpack_inputs : Bytes → Result Bytes

-- The decoders of go-ethereum.
pub record Decoder : Type 0 where
  pub unpack_revert : Bytes → Option Bytes  -- abi.UnpackRevert
  pub from_hex : Bytes → Bytes  -- common.FromHex

module _ (c : Decoder) where
  unfoldable pub decode_payload : Bytes → Bytes → Bytes
  decode_payload digits decoded =
      if ltb (length decoded) 4
      then []
      else elim (c.unpack_revert decoded) [ some reason ↦ reason | none ↦ str "0x" ++ digits ]

  -- `decodeRevertHex`.
  unfoldable pub decode_revert_hex : Bytes → Bytes
  unfolding decode_payload
  decode_revert_hex s = elim (hex_decode (trim_0x s)) [
    | none ↦ []
    | some decoded ↦ decode_payload (trim_0x s) decoded
  ]

  -- `DecodeRevertReason` of an error that is not nil.
  unfoldable pub decode_revert_reason : CallError → Bytes
  unfolding decode_revert_hex
  decode_revert_reason e = elim e.payload [
    | absent ↦ []
    | text s ↦ decode_revert_hex s
    | raw b ↦ []
    | other ↦ []
  ]

  -- `SimulateAndDecodeRevert`, from what the replayed call gives.
  unfoldable pub simulate_and_decode_revert : Call → Bytes
  unfolding decode_revert_reason
  simulate_and_decode_revert (reverted e) =
      if is_empty (decode_revert_reason e) then e.message else decode_revert_reason e
  simulate_and_decode_revert (returned result) =
      if ltb (length result) 4 then [] else decode_revert_hex (hex_encode result)

  -- `decodeRevertFromError` of support.go.
  unfoldable pub decode_text : Bytes → Bytes
  decode_text s = elim (hex_decode (trim_0x s)) [
    | none ↦ []
    | some decoded ↦ elim (c.unpack_revert decoded) [ some reason ↦ reason | none ↦ [] ]
  ]

  unfoldable pub decode_revert_from_error : CallError → Bytes
  unfolding decode_text
  decode_revert_from_error e = elim e.payload [
    | absent ↦ []
    | text s ↦ decode_text s
    | raw b ↦ []
    | other ↦ []
  ]

  -- The end of `getFailingMessage`, from what the replayed call gives.
  unfoldable pub replay_message : Call → Bytes
  unfolding decode_revert_from_error
  replay_message (reverted e) =
      if is_empty (decode_revert_from_error e) then e.message else decode_revert_from_error e
  replay_message (returned res) = elim (c.unpack_revert res) [
    | some reason ↦ reason
    | none ↦ if is_empty res then str "unknown revert reason" else str "0x" ++ hex_encode res
  ]

  -- `getFailingMessage`, from the errors of TransactionByHash and types.Sender.
  unfoldable pub get_failing_message : (lookup sender : Option Bytes) → Call → Result Bytes
  unfolding replay_message
  get_failing_message (some e) sender call = err e
  get_failing_message none (some e) call = err e
  get_failing_message none none call = ok (replay_message call)

  -- `ExtractRevertData` of an error that is not nil.
  unfoldable pub extract_revert_data : CallError → Bytes
  extract_revert_data e = elim e.payload [
    | absent ↦ []
    | text s ↦ c.from_hex s
    | raw b ↦ b
    | other ↦ []
  ]

-- The name of an error with its arguments, where it has some that can be read.
unfoldable pub name_with_args : AbiError → Bytes → Bytes
name_with_args e payload = elim (e.unpack payload) [
  | err x ↦ e.name
  | ok args ↦
      if not (beq args (str "[]")) && not (beq args (str "<nil>")) then e.name ++ args else e.name
]

abbrev pub has_selector : Bytes → AbiError → Bool
has_selector payload e = beq (take 4 e.id) (take 4 payload)

-- The loop of `MatchCustomError` over the errors of an ABI, in the order of the map's iteration.
unfoldable pub match_selector : List AbiError → Bytes → Bytes
unfolding name_with_args
match_selector [] payload = []
match_selector (e ∷ es) payload =
    let later = match_selector es payload in
    if has_selector payload e then name_with_args e payload else later

-- `MatchCustomError`.
unfoldable pub match_custom_error : List AbiError → Bytes → Bytes
match_custom_error es revert_hex = elim (hex_decode (trim_0x revert_hex)) [
  | none ↦ []
  | some payload ↦ if ltb (length payload) 4 then [] else match_selector es payload
]

-- The reason for a refused register() in `PreRegistration`. `replay` has the errors of the ABI and the
-- replayed call, where the ABI can be loaded and packed.
module _ (c : Decoder) (e : CallError) where
  unfoldable pub replayed_register : List AbiError → Call → Bytes
  replayed_register es call =
      let raw = simulate_and_decode_revert c call in
      if is_empty (match_custom_error es raw)
      then (if is_empty (decode_revert_reason c e) then raw else decode_revert_reason c e)
      else match_custom_error es raw

  unfoldable pub found_reason : Option (List AbiError × Call) → Bytes
  unfolding replayed_register
  found_reason none = decode_revert_reason c e
  found_reason (some (es, call)) = replayed_register es call

  unfoldable pub register_reason : Option (List AbiError × Call) → Bytes
  unfolding found_reason
  register_reason replay = if is_empty (found_reason replay) then e.message else found_reason replay

-- What `diagAvailabilityCheckRevert` of diag.go and `replayAddTeeVersion` of
-- tools/cmd/audit-deploy/main.go find out about the data of a revert.
pub data Diagnosis : Type 0 where
  no_data : Diagnosis
  too_short : Diagnosis
  reason : Bytes → Diagnosis
  custom : (contract name : Bytes) → (args : Result Bytes) → Diagnosis
  unknown : (selector : Bytes) → Diagnosis

-- An ABI with the name of its contract; `none` where it cannot be loaded.
abbrev pub Source : Type 0
Source = Bytes × Option (List AbiError)

unfoldable pub find_error : (contract : Bytes) → List AbiError → Bytes → Option Diagnosis
find_error contract [] payload = none
find_error contract (e ∷ es) payload =
    let later = find_error contract es payload in
    if has_selector payload e
    then some (custom contract e.name (e.unpack_inputs (drop 4 payload)))
    else later

unfoldable pub find_in_sources : List Source → Bytes → Option Diagnosis
unfolding find_error
find_in_sources [] payload = none
find_in_sources ((contract, none) ∷ rest) payload = find_in_sources rest payload
find_in_sources ((contract, some es) ∷ rest) payload = elim (find_error contract es payload) [
  | some d ↦ some d
  | none ↦ find_in_sources rest payload
]

-- The selector of Error(string).
abbrev pub error_selector : Bytes
error_selector = 0x08 ∷ 0xc3 ∷ 0x79 ∷ 0xa0 ∷ []

unfoldable pub find_custom : List Source → Bytes → Diagnosis
unfolding find_in_sources
find_custom sources payload = elim (find_in_sources sources payload) [
  | some d ↦ d
  | none ↦ unknown (take 4 payload)
]

module _ (c : Decoder) where
  unfoldable pub diagnose_string : List Source → Bytes → Option Bytes → Diagnosis
  unfolding find_custom
  diagnose_string sources payload (some r) = reason r
  diagnose_string sources payload none = find_custom sources payload

  -- The part that both functions share.
  unfoldable pub diagnose : List Source → Bytes → Diagnosis
  unfolding diagnose_string
  diagnose sources payload =
      if beq (take 4 payload) error_selector
      then diagnose_string sources payload (c.unpack_revert payload)
      else find_custom sources payload

  -- From `ExtractRevertData` on in diag.go.
  unfoldable pub diagnose_availability_check : List Source → CallError → Diagnosis
  unfolding diagnose
  diagnose_availability_check sources e =
      let payload = extract_revert_data c e in
      if is_empty payload
      then no_data
      else if ltb (length payload) 4
      then too_short
      else diagnose sources payload

  -- From `ExtractRevertData` on in audit-deploy.
  unfoldable pub diagnose_add_tee_version : List Source → CallError → Diagnosis
  unfolding diagnose
  diagnose_add_tee_version sources e =
      let payload = extract_revert_data c e in
      if ltb (length payload) 4 then too_short else diagnose sources payload

-- How `diagAvailabilityCheckRevert` ends: the ABI cannot be loaded or the call not packed, or the call
-- that is replayed shows no revert, or it shows one.
pub data DiagEnd : Type 0 where
  not_loaded : Bytes → DiagEnd
  not_packed : Bytes → DiagEnd
  unexpected_success : DiagEnd
  diagnosed : Diagnosis → DiagEnd

-- `diagAvailabilityCheckRevert`, from the errors of loading the ABI and of packing the call, and the
-- replayed call.
unfoldable pub diag_availability_check_revert :
    Decoder → List Source → (loading packing : Option Bytes) → Call → DiagEnd
unfolding diagnose_availability_check
diag_availability_check_revert c sources (some e) packing call = not_loaded e
diag_availability_check_revert c sources none (some e) call = not_packed e
diag_availability_check_revert c sources none none (returned b) = unexpected_success
diag_availability_check_revert c sources none none (reverted e) =
    diagnosed (diagnose_availability_check c sources e)
