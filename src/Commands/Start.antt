-- ===== src/Commands/Start.antt =====
-- The commands that start processes, before they do: tools/cmd/start-proxy, and the ports of
-- go/cmd/docker. The proxy itself is a library.
use fce_extension_scaffold.Base.{
  Bytes, str, is_empty, ℤ, pos, if◌then◌else◌, Bool, Option, none, some, Result, ok, err, ◌++◌,
}
use fce_extension_scaffold.Support.Keys.{int_env, port_of}
use fce_extension_scaffold.Registration.Polling.{Attempt}
use fce_extension_scaffold.Registration.Info.{Address, TeeInfo, Library, get_tee_proxy_id}

-- `loadEnv`: the .env file that is read, the project's or that of the working directory; the errors
-- are those of godotenv.Load. A second failure is only printed.
pub data EnvSource : Type 0 where
  project working_directory nothing : EnvSource

unfoldable pub load_env : (root_error cwd_error : Option Bytes) → EnvSource
load_env none cwd_error = project
load_env (some e) none = working_directory
load_env (some e) (some e') = nothing

-- `findProxyConfig`, from PROXY_CONFIG and the project's candidate, which `exists` or not.
unfoldable pub find_proxy_config : (env candidate : Bytes) → (exists : Bool) → Bytes
find_proxy_config env candidate exists =
    if is_empty env
    then (if exists then candidate else str "./config/proxy/extension_proxy.toml")
    else env

-- `logProxyAndTeeIds`: the ids, from the external port of the configuration and the answer of the
-- proxy at a URL.
unfoldable pub proxy_and_tee_ids :
    Library
    → (decode : Bytes → Result TeeInfo) → (port : Result Bytes) → (get : Bytes → Attempt)
    → Result (Address × Address)
proxy_and_tee_ids l decode (err e) get = err (str "failed to read proxy config: " ++ e)
proxy_and_tee_ids l decode (ok port) get =
    elim (get_tee_proxy_id l decode (get (str "http://localhost:" ++ port))) [
      | err e ↦ err (str "failed to extract teeID and proxyID: " ++ e)
      | ok ids ↦ ok ids
    ]

-- main of start-proxy, in the environment after `loadEnv`, up to its wait for a signal: the file with
-- which the proxy is started, and the warning that is logged, if any. `port` reads a configuration.
unfoldable pub start_proxy :
    Library
    → (decode : Bytes → Result TeeInfo) → (env candidate : Bytes) → (exists : Bool)
    → (port : Bytes → Result Bytes) → (get : Bytes → Attempt) → Bytes × Option Bytes
unfolding find_proxy_config proxy_and_tee_ids
start_proxy l decode env candidate exists port get =
    let file = find_proxy_config env candidate exists in
    (
      file,
      elim (proxy_and_tee_ids l decode (port file) get) [
        | ok ids ↦ none
        | err e ↦ some (str "Failed to log proxy and tee IDs: " ++ e)
      ],
    )

-- The ports of the docker command, from CONFIG_PORT, SIGN_PORT and EXTENSION_PORT.
pub record Ports : Type 0 where
  pub config : ℤ
  pub sign : ℤ
  pub extension : ℤ

unfoldable pub docker_ports : (config sign extension : Bytes) → Ports
docker_ports config sign extension = record {
  config = int_env config (pos 5501);
  sign = port_of sign (pos 9090);
  extension = port_of extension (pos 8080);
}
