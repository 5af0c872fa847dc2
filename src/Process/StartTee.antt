-- ===== src/Process/StartTee.antt =====
-- go/cmd/start-tee/main.go: the environment of the process, and what it does up to its wait for a
-- signal. An environment tells a variable that is not set from one that is empty.
pub mod Environ
use fce_extension_scaffold.Base.{
  ℕ, Bytes, str, is_empty, beq, if◌then◌else◌, Option, none, some, Result, ok, err, ◌++◌,
}
use fce_extension_scaffold.Support.Keys.{Crypto, Environment, set_owner_address, set_proxy_url}

abbrev pub Environ : Type 0
Environ = Bytes → Option Bytes

-- os.Getenv.
abbrev pub value_or_empty : Option Bytes → Bytes
value_or_empty none = str ""
value_or_empty (some v) = v

abbrev pub getenv : Environ → Bytes → Bytes
getenv env name = value_or_empty (env name)

-- os.Setenv.
abbrev pub setenv : Environ → Bytes → Bytes → Environ
setenv env name value k = if beq k name then some value else env k

-- The machine: godotenv.Load of a file, which leaves the environment alone when it fails, and what the
-- process meets in `runExtension`.
pub record Machine : Type 0 where
  pub load : Bytes → Environ → Result Environ
  pub root_env : Bytes  -- the project's .env, beside the source
  pub early : Option Bytes  -- the value of the channel of StartExtension
  pub marshal : Bytes → Result Bytes  -- json.Marshal of a ConfigureProxyURLRequest with this URL
  pub post : (url body : Bytes) → Result ℕ  -- http.Post, the status

-- `loadEnv`.
unfoldable pub load_env : Machine → Environ → Environ
load_env m env = elim (m.load m.root_env env) [
  | ok env' ↦ env'
  | err e ↦ elim (m.load (str ".env") env) [ ok env' ↦ env' | err e' ↦ env ]
]

-- `setOwnerAddress` in the environment of the process; what it returns is not used.
unfoldable pub export_owner : Crypto → Environ → Result Environ
export_owner c env =
    let owner = getenv env (str "INITIAL_OWNER") in
    let key = getenv env (str "DEPLOYMENT_PRIVATE_KEY") in
    elim (set_owner_address c (record { initial_owner = owner; deployment_private_key = key })) [
      | err e ↦ err e
      | ok (address, found) ↦
          ok (if is_empty owner then setenv env (str "INITIAL_OWNER") found.initial_owner else env)
    ]

-- EXTENSION_ID after the flag -extensionID.
unfoldable pub export_extension_id : (flag : Bytes) → Environ → Environ
export_extension_id flag env = if is_empty flag then env else setenv env (str "EXTENSION_ID") flag

-- `runExtension`: the error that ends the process.
unfoldable pub run_extension : Machine → Option Bytes
run_extension m = elim m.early [
  | some e ↦ some (str "extension server failed to start: " ++ e)
  | none ↦ elim (set_proxy_url m.marshal m.post 5501 6663) [
    | none ↦ none
    | some e ↦ some (str "Error: " ++ e)
  ]
]

-- main up to its wait: the environment in which the node runs, or the error that ends the process.
unfoldable pub start_tee : Crypto → Machine → (flag : Bytes) → Environ → Result Environ
start_tee c m flag env = elim (export_owner c (load_env m env)) [
  | err e ↦ err e
  | ok owned ↦
      let exported = export_extension_id flag owned in
      elim (run_extension m) [ some e ↦ err e | none ↦ ok exported ]
]
