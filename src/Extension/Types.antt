-- ===== src/Extension/Types.antt =====
-- The data of the extension server: go/pkg/types/types.go, the state of `Extension`, the constants of
-- go/internal/config/config.go, and the external codecs.
use fce_extension_scaffold.Base.{ℕ, ◌+◌, ◌%◌, ◌^◌, Bytes, str, Result, Option, []}

-- A bytes32, read as a number.
abbrev pub Hash : Type 0
Hash = ℕ

-- The fields of teetypes.Action that the handlers read.
pub record Action : Type 0 where
  pub id : Hash
  pub submission_tag : Bytes
  pub message : Bytes

-- instruction.DataFixed.
pub record DataFixed : Type 0 where
  pub op_type : Hash
  pub op_command : Hash
  pub original_message : Bytes

-- teetypes.ActionResult, as `buildResult` fills it. `payload` is the field Data; `none` is nil.
pub record ActionResult : Type 0 where
  pub id : Hash
  pub submission_tag : Bytes
  pub version : Bytes
  pub op_type : Hash
  pub op_command : Hash
  pub payload : Option Bytes
  pub status : ℕ
  pub log : Bytes

pub record SayHelloRequest : Type 0 where
  pub name : Bytes

pub record SayHelloResponse : Type 0 where
  pub greeting : Bytes
  pub greeting_number : ℕ

pub record SayGoodbyeRequest : Type 0 where
  pub name : Bytes
  pub reason : Bytes

pub record SayGoodbyeResponse : Type 0 where
  pub farewell : Bytes
  pub farewell_number : ℕ

-- The state that the server keeps and `GET /state` shows: the fields of `Extension`, which are those
-- of `types.State`.
pub record Extension : Type 0 where
  pub greeting_count : ℕ
  pub last_greeting : Bytes
  pub farewell_count : ℕ
  pub last_farewell : Bytes

pub record StateResponse : Type 0 where
  pub state_version : Hash
  pub state : Extension

-- What `New` starts with.
abbrev pub new : Extension
new = record { greeting_count = 0; last_greeting = []; farewell_count = 0; last_farewell = [] }

-- The functions outside the repository that the handlers call.
pub record Codec : Type 0 where
  pub to_hash : Bytes → Hash  -- teeutils.ToHash
  pub hex : Hash → Bytes  -- common.Hash.Hex
  pub decode_action : Bytes → Result Action  -- JSON of the request's body
  pub parse_fixed : Bytes → Result DataFixed  -- processorutils.Parse
  pub decode_hello : Bytes → Result SayHelloRequest  -- strict JSON
  pub decode_goodbye : Bytes → Result SayGoodbyeRequest  -- structs.DecodeTo
  pub encode_hello : SayHelloResponse → Bytes
  pub encode_goodbye : SayGoodbyeResponse → Bytes
  pub encode_result : ActionResult → Bytes
  pub decode_result : Bytes → Result ActionResult
  pub encode_state : StateResponse → Result Bytes

-- The constants of package config.
abbrev pub version : Bytes
version = str "0.1.0"

abbrev pub op_type_greeting : Bytes
op_type_greeting = str "GREETING"

abbrev pub op_command_say_hello : Bytes
op_command_say_hello = str "SAY_HELLO"

abbrev pub op_command_say_goodbye : Bytes
op_command_say_goodbye = str "SAY_GOODBYE"

-- `n++` on an int, which is known here by its 64 bits, as an unsigned number.
abbrev pub int_suc : ℕ → ℕ
int_suc n = (n + 1) % 2 ^ 64
