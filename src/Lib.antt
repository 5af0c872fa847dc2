-- ===== src/Lib.antt =====
-- The extension scaffold: a server that runs inside a trusted execution environment (TEE), and the
-- tools that deploy and register it. Eight parts of its Go code are modelled.
--
-- * The server, go/internal/extension (`Extension`, with the types of go/pkg/types and the constants
--   of go/internal/config). It keeps two counters and two texts and answers `POST /action` and
--   `GET /state`. Extension/Types.antt has the data, Extension/Handlers.antt the handlers as functions
--   that pass the state on (`process_action` is processAction, `record_greeting` the statements of
--   processSayHello under the lock). Extension/Locking models the RWMutex: the program counters of any
--   number of goroutines, and a step for each statement under a lock. The log of a `Server` is the
--   order in which the critical sections ended, each with its goroutine. The codecs are the record
--   `Codec`.
-- * The deployment checks, tools/pkg/validate with the command tools/cmd/verify-deploy (`Validate`).
--   Validate/Report.antt is report.go, Validate/Funds.antt validate.go, Validate/EnvFile.antt the file
--   config/extension.env, Validate/Checks has a module for each of the six steps of checks.go, and
--   Validate/Command.antt is the command. The machine on which they run is the record `Host`, and the
--   chain is `Client`, `Registry` and `Allowlist`.
-- * The registration of a TEE machine, tools/pkg/fccutils (`Registration`): registration.go with its
--   state file (Node), policy_consistency.go (Policy), ActionResult of tee_calls.go (Polling),
--   GetFTDCAvailabilityCheckResult (Availability), and what a node says of itself, tee_calls.go and
--   common.go (Info). Grows, Gate and Safety are about the transactions of a run. The contracts,
--   the node and the proxy are the record `Network`, whose answers may depend on every transaction
--   sent before; an operation passes on the `World`, the state file and the transactions.
-- * What the commands share (`Support`): CheckTx of tools/pkg/support/support.go and the state of an
--   operation that sends transactions, the list of those sent before (Tx); the decoding of reverts in
--   revert.go, diag.go, support.go and tools/cmd/audit-deploy (Revert); the addresses file and
--   DefaultSupport (Addresses); the keys and ports of the environment, with setOwnerAddress of
--   go/cmd/start-tee and intEnv of go/cmd/docker (Keys).
-- * The setup of an extension (`Setup`): SetupExtension of tools/pkg/fccutils/extension.go (Extend),
--   SetTeeGovernance of governance.go with the arguments of tools/cmd/set-governance (Governance), and
--   the versions of the code: StringToBytes32, AddTeeVersion and bytes32ToString (Version).
--   Setup/Commands.antt is the two commands set-governance and allow-tee-version.
-- * Instructions (`Instructions`): tools/pkg/utils/instructions.go (Send) and the end-to-end test
--   tools/cmd/run-test (Verify), which meets the server through the proxy's answers.
-- * The other commands (`Commands`): tools/cmd/deploy-contract with its preflight (Deploy),
--   register-extension with the text of the id that it prints (RegisterExtension), register-tee around
--   RegisterNode (RegisterTee), the lines of audit-deploy (Audit) and of query-tee (QueryTee), and what
--   start-proxy and go/cmd/docker do before their servers start (Start).
-- * The processes of the Go extension (`Process`): go/cmd/main.go as two goroutines around net/http
--   (Serve), StartExtension of go/pkg/server with the commands docker and start-tee around its channel
--   (Launch), and the environment of start-tee (StartTee). A run is a list of steps in any order that
--   the guards allow, and waiting takes no model time: a timeout may come at any step.
--
-- Texts are lists of bytes, in Base/Text.antt. An int of the server is known by its 64 bits and wraps;
-- big integers are `ℤ` of Base/Int.antt. Base/Strings.antt has the functions of Go's packages
-- strings and bufio that the code uses; `scan_lines` keeps the limit of bufio.Scanner on a line's
-- length; Base/Numbers.antt and Base/Hex.antt have what it uses of strconv and encoding/hex, and
-- Base/Hex/Print.antt the verb %x. The loop of ActionResult runs on the source's own bound of 15, and
-- the trimming and splitting loops on the length of their text, which each round of them shortens.
--
-- Not modelled: the reading of the commands' flags; the node and the proxy, which are libraries; the
-- contracts; the Python and TypeScript servers; the scripts, but for the text that pre-build.sh writes
-- (Validate/EnvFile/Written.antt); SetProxyUrl of tee_calls.go, which nothing calls and start-tee has a
-- copy of; the encoders of encoding.go and the rounding of inEther and inGwei, which are calls of
-- libraries; what is logged, and the waiting between requests.
pub mod Base
pub mod Support
pub mod Extension
pub mod Validate
pub mod Registration
pub mod Setup
pub mod Instructions
pub mod Commands
pub mod Process
