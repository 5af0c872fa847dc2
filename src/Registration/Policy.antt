-- ===== src/Registration/Policy.antt =====
-- tools/pkg/fccutils/policy_consistency.go: the gate before the availability check.
use fce_extension_scaffold.Base.{
  ℕ, ◌+◌, ◌-◌, ◌%◌, ◌^◌, Bytes, str, show_nat, Bool, ◌||◌, ◌==◌, ltb, if◌then◌else◌, Option, none,
  some, Result, ok, err, ◌++◌, ◌≡◌, ◌≢◌, refl, arith,
}

-- `onchainEpoch+1` wraps on a uint64.
unfoldable pub policy_in_sync : ℕ → ℕ → Bool
policy_in_sync epoch policy = (policy == epoch) || (policy == (epoch + 1) % 2 ^ 64)

-- The two differences are of a larger number and a smaller one.
relation_text : ℕ → ℕ → Bytes
relation_text epoch policy =
    if ltb policy epoch
    then str "proxy is " ++ show_nat (epoch - policy) ++ str " epoch(s) behind"
    else str "proxy is " ++ show_nat (policy - epoch) ++ str " epoch(s) ahead"

unfoldable pub out_of_sync_error : ℕ → ℕ → Bytes
unfolding relation_text
out_of_sync_error epoch policy =
    str "FTDC proxy signing policy out of sync with on-chain reward epoch: proxy signing policy "
    ++ show_nat policy
    ++ str " vs on-chain current reward epoch "
    ++ show_nat epoch
    ++ str " ("
    ++ relation_text epoch policy
    ++ str "); data providers will reject the availability check with 404 \"no round\"; "
    ++ str "wait for the proxy to catch up to the current signing policy, or check the proxy's "
    ++ str "initial_signing_policy_offset and C-chain indexer sync"

-- The epoch that the chain gives may be nil, and only its low 64 bits are used; the policy is the
-- LastSigningPolicyID of the proxy's info, a uint32.
unfoldable pub check_policy : Result (Option ℕ) → Result ℕ → Option Bytes
check_policy (err e) info = none
check_policy (ok none) info = none
check_policy (ok (some onchain)) (err e) = none
check_policy (ok (some onchain)) (ok policy) =
    let epoch = onchain % 2 ^ 64 in
    if policy_in_sync epoch policy then none else some (out_of_sync_error epoch policy)

-- The gate stops a registration only on a confirmed mismatch: both lookups gave a value, and the
-- policy is neither the epoch nor the next one, as 64-bit integers.
pub check_policy_blocks :
    (onchain : Result (Option ℕ)) (info : Result ℕ) {e : Bytes}
    → check_policy onchain info ≡ some e
    → (epoch policy : ℕ) × (onchain ≡ ok (some epoch))
      × (info ≡ ok policy)
      × (policy ≢ epoch % 2 ^ 64)
      × (policy ≢ (epoch + 1) % 2 ^ 64)
unfolding check_policy policy_in_sync
check_policy_blocks (err x) info h = cc
check_policy_blocks (ok none) info h = cc
check_policy_blocks (ok (some epoch)) (err x) h = cc
check_policy_blocks (ok (some epoch)) (ok policy) h =
    (epoch, policy, refl, refl, ground arith, ground arith)
