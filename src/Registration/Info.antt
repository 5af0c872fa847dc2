-- ===== src/Registration/Info.antt =====
-- What a node says of itself: tools/pkg/fccutils/tee_calls.go and common.go.
use fce_extension_scaffold.Base.{
  ℕ, Bytes, str, beq, beq_iff, ◌≢◌, ◌==◌, if◌then◌else◌, not, Result, Result-cases, ok, err, ◌++◌,
  ◌≡◌, ◌↔◌, ◌⊎◌, inl, inr, Bool-cases, arith,
}
use fce_extension_scaffold.Registration.Polling.{Attempt}

abbrev pub Hash : Type 0
Hash = ℕ

abbrev pub Address : Type 0
Address = ℕ

-- The fields of types.SignedTeeInfoResponse that the tools read.
pub record TeeInfo : Type 0 where
  pub public_key : Bytes
  pub attestation : Bytes
  pub code_hash : Hash
  pub platform : Hash
  pub proxy_signature : Bytes

abbrev pub continue {ℓ κ} : {A : Type ℓ} {B : Type κ} → Result A → (A → Result B) → Result B
continue (ok a) f = f a
continue (err e) f = err e

infixl 5 ◌>>=◌
abbrev pub ◌>>=◌ {ℓ κ} : {A : Type ℓ} {B : Type κ} → Result A → (A → Result B) → Result B
◌>>=◌ = continue

-- `TeeInfo`, from what http.Get gives; the status is not looked at.
unfoldable pub tee_info : (decode : Bytes → Result TeeInfo) → Attempt → Result TeeInfo
tee_info decode (Attempt.failed e) = err e
tee_info decode (Attempt.answered status body) = decode body

-- The libraries of the TEE node: the claims of an attestation, and the keys and the hashes of an info.
pub record Library : Type 1 where
  pub Claims : Type 0
  pub parse_claims : Bytes → Result Claims  -- ParsePKITokenUnverifiedClaims
  pub claimed_code_hash : Claims → Result Hash
  pub claimed_platform : Claims → Result Hash
  pub parse_pub_key : Bytes → Result ℕ
  pub key_address : ℕ → Address  -- PubkeyToAddress
  pub info_hash : TeeInfo → Result Hash  -- TeeInfo.Hash
  pub payload_hash : TeeInfo → Hash → Result Hash  -- NewPayload(ProxyTeeInfo, chain id, hash).Hash
  pub sig_to_pub : Hash → Bytes → Result ℕ  -- SigToPub of the hash's TextHash

module _ (l : Library) where
  -- `CodeHashAndPlatform`.
  unfoldable pub code_hash_and_platform : Bytes → Result (Hash × Hash)
  code_hash_and_platform attestation = do
    claims ← l.parse_claims attestation
    code_hash ← l.claimed_code_hash claims
    platform ← l.claimed_platform claims
    ok (code_hash, platform)

  -- `TeeProxyId`: the addresses of the node and of the proxy that signed its info.
  unfoldable pub tee_proxy_id : TeeInfo → Result (Address × Address)
  tee_proxy_id info = do
    key ← l.parse_pub_key info.public_key
    hash ← l.info_hash info
    signed ← l.payload_hash info hash
    proxy ← l.sig_to_pub signed info.proxy_signature
    ok (l.key_address key, l.key_address proxy)

  -- `GetTeeProxyID`.
  unfoldable pub get_tee_proxy_id :
      (decode : Bytes → Result TeeInfo) → Attempt → Result (Address × Address)
  unfolding tee_info tee_proxy_id
  get_tee_proxy_id decode answer = do info ← tee_info decode answer; tee_proxy_id info

  -- `TeeCodeHash` and `TestPlatform`, by which a simulated TEE is known.
  abbrev pub tee_code_hash : Hash
  tee_code_hash = 0x194844cf417dde867073e5ab7199fa4d21fd82b5dbe2bdea8b3d7fc18d10fdc2

  abbrev pub test_platform : Hash
  test_platform = 0x544553545f504c4154464f524d00000000000000000000000000000000000000

  -- The code hash and the platform that a node should have; `simulated` is the variable SIMULATED_TEE.
  unfoldable pub expected_hashes : (simulated : Bytes) → TeeInfo → Result (Hash × Hash)
  expected_hashes simulated info =
      if beq simulated (str "true")
      then ok (tee_code_hash, test_platform)
      else code_hash_and_platform info.attestation

  -- `text` is the verb %s of a hash.
  unfoldable pub compare_hashes :
      (text : Hash → Bytes) → TeeInfo → Hash × Hash → Result (Hash × Hash)
  compare_hashes text info (code_hash, platform) =
      if not (code_hash == info.code_hash)
      then err
          (str "code hashes do not match: " ++ text code_hash ++ str ", " ++ text info.code_hash)
      else if not (platform == info.platform)
      then err (str "platforms do not matc: " ++ text platform ++ str ", " ++ text info.platform)
      else ok (code_hash, platform)

  -- `GetCodeHashAndPlatform`.
  unfoldable pub get_code_hash_and_platform :
      (simulated : Bytes) → (text : Hash → Bytes) → TeeInfo → Result (Hash × Hash)
  unfolding expected_hashes compare_hashes
  get_code_hash_and_platform simulated text info = do
    hashes ← expected_hashes simulated info
    compare_hashes text info hashes

  compare_hashes_iff :
      (text : Hash → Bytes) (info : TeeInfo) (h : Hash × Hash) (c p : Hash)
      → (compare_hashes text info h ≡ ok (c, p))
        ↔ ((h ≡ (c, p)) × (c ≡ info.code_hash) × (p ≡ info.platform))
  unfolding compare_hashes
  compare_hashes_iff text info (a, b) c p = ground arith

  -- The tools take a node's hashes exactly where they are those of the simulated TEE, if SIMULATED_TEE
  -- is "true", and otherwise those that its attestation claims, and the node's own data say the same.
  pub get_code_hash_and_platform_iff :
      (simulated : Bytes) (text : Hash → Bytes) (info : TeeInfo) (c p : Hash)
      → (get_code_hash_and_platform simulated text info ≡ ok (c, p)) ↔ (
          (((simulated ≡ str "true") × (c ≡ tee_code_hash) × (p ≡ test_platform))
            ⊎ ((simulated ≢ str "true") × (code_hash_and_platform info.attestation ≡ ok (c, p))))
          × (c ≡ info.code_hash)
          × (p ≡ info.platform))
  unfolding get_code_hash_and_platform expected_hashes
  get_code_hash_and_platform_iff simulated text info c p =
      elim (Bool-cases (beq simulated (str "true"))) [
        | inl q ↦ ground (
          arith,
          q,
          beq_iff simulated (str "true"),
          compare_hashes_iff text info (tee_code_hash, test_platform) c p,
        )
        | inr q ↦ elim (Result-cases (code_hash_and_platform info.attestation)) [
          | inl (h, e) ↦
              ground
                (arith, q, e, beq_iff simulated (str "true"), compare_hashes_iff text info h c p)
          | inr (x, e) ↦ ground (arith, q, e, beq_iff simulated (str "true"))
        ]
      ]
