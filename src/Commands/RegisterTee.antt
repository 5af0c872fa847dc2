-- ===== src/Commands/RegisterTee.antt =====
-- tools/cmd/register-tee/main.go.
pub mod Checked
use fce_extension_scaffold.Base.{
  ℕ, Bytes, is_empty, Bool, true, false, if◌then◌else◌, Result, ok, err,
}
use fce_extension_scaffold.Support.Addresses.{Support}
use fce_extension_scaffold.Registration.Polling.{Attempt}
use fce_extension_scaffold.Registration.Info.{
  Hash, Address, TeeInfo, Library, tee_proxy_id, get_tee_proxy_id, get_code_hash_and_platform,
}
use fce_extension_scaffold.Registration.Chain.{
  Network, World, M, ◌>>=◌, ◌>>◌, continue, lift, absent,
}
use fce_extension_scaffold.Registration.Node.{Request, register_node}

-- Without --resume a state file is removed first; a failure is only logged.
unfoldable pub start_fresh : (resume writable : Bool) → M (Unit {0})
start_fresh true writable w = (ok tt, w)
start_fresh false writable w = (ok tt, if writable then record w { file = absent } else w)

-- The URL to register: that of the flag -h, or else that of -p.
unfoldable pub host_url : (host proxy : Bytes) → Bytes
host_url host proxy = if is_empty host then proxy else host

pub record TeeFlags : Type 0 where
  pub resume : Bool
  pub host : Bytes
  pub proxy : Bytes
  pub request : Request  -- -command and -i

-- What the command meets: SIMULATED_TEE, the text of a hash, JSON, and the network for the support, the
-- node's info, the URL and the external TEE.
pub record Setting : Type 1 where
  pub library : Library
  pub decode : Bytes → Result TeeInfo
  pub simulated : Bytes
  pub hash_text : Hash → Bytes
  pub writable : Bool
  pub network : Support → TeeInfo → (url : Bytes) → (ftdc_tee : Address) → Network

-- `RegisterNode` for a node whose info is checked.
unfoldable pub register_checked :
    Setting → TeeFlags → Support → TeeInfo → (ftdc_tee : Address) → M (Unit {0})
unfolding host_url
register_checked s flags support tee ftdc =
    register_node
      (record (s.network support tee (host_url flags.host flags.proxy) ftdc) {
        tee_proxy_id = tee_proxy_id s.library tee;
        writable = s.writable;
      })
      flags.request

-- The checks on the node and on the external TEE.
unfoldable pub register_info :
    Setting → TeeFlags → (external : Attempt) → Support → TeeInfo → M (Unit {0})
unfolding register_checked
register_info s flags external support tee = do
  ids ← lift (tee_proxy_id s.library tee)
  ftdc ← lift (get_tee_proxy_id s.library s.decode external)
  hashes ← lift (get_code_hash_and_platform s.library s.simulated s.hash_text tee)
  register_checked s flags support tee ftdc.0

-- The command, from what DefaultSupport, TeeInfo and the request to the external proxy give.
unfoldable pub register_tee :
    Setting → TeeFlags → Result Support → Result TeeInfo → (external : Attempt) → M (Unit {0})
unfolding start_fresh register_info
register_tee s flags found info external = do
  start_fresh flags.resume s.writable
  support ← lift found
  tee ← lift info
  register_info s flags external support tee
