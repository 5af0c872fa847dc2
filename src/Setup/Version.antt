-- ===== src/Setup/Version.antt =====
-- Versions of the code: `StringToBytes32` and `AddTeeVersion` of tools/pkg/fccutils/registration.go,
-- `bytes32ToString` of tools/cmd/audit-deploy/main.go, and tools/cmd/allow-tee-version/main.go.
pub mod Again
use mathlib.Core.List.{reverse, reverse_aux, reverse_aux-append, reverse-reverse}
use fce_extension_scaffold.Base.{
  ℕ, zero, suc, ◌-◌, ◌≤◌, Bytes, str, trim_space, ltb, length, replicate, contains_text, ◌==◌,
  if◌then◌else◌, Bool, true, false, Result, ok, err, List, [], ◌∷◌, ◌++◌, ◌≡◌, refl, ap, ◌∙◌, All,
  arith, length-append,
}
use fce_extension_scaffold.Base.Strings.Trim.{IsGraphic, All-reverse, trim_space-graphic}
use fce_extension_scaffold.Support.Tx.{M, ◌>>=◌, ◌>>◌, ask, check, Chain, send_only}

-- `StringToBytes32`; `quote` is the verb %q.
unfoldable pub string_to_bytes32 : (quote : Bytes → Bytes) → Bytes → Result Bytes
string_to_bytes32 quote s =
    if ltb 32 (length s)
    then err (str "version " ++ quote s ++ str " exceeds 32 bytes")
    else ok (s ++ replicate (32 - length s) 0)

-- The text without the zeros that it begins with.
unfoldable pub drop_zeros : Bytes → Bytes
drop_zeros [] = []
drop_zeros (b ∷ bs) = let rest = drop_zeros bs in if b == 0 then rest else b ∷ bs

-- `bytes32ToString`; the loop runs from the end of the text.
unfoldable pub bytes32_to_string : Bytes → Bytes
unfolding drop_zeros
bytes32_to_string b = trim_space (reverse (drop_zeros (reverse b)))

pub data VersionTx : Type 0 where
  add_tee_version : (version : Bytes) → VersionTx

-- `AddTeeVersion`, for one extension, code hash and platform.
unfoldable pub add_tee_version_tx :
    Chain VersionTx → (quote : Bytes → Bytes) → Bytes → M VersionTx (Unit {0})
unfolding string_to_bytes32
add_tee_version_tx chain quote version = do
  check chain.transactor
  bytes ← λ sent. (string_to_bytes32 quote version, sent)
  send_only chain (λ e. str "TeeExtensionRegistry.AddTeeVersion failed: " ++ e) (λ e. e)
      (add_tee_version bytes)

-- An error that says VersionAlreadyExists is taken for success.
unfoldable pub forgive : M VersionTx (Unit {0}) → M VersionTx (Unit {0})
forgive m sent = elim (m sent).0 [
  | ok u ↦ m sent
  | err e ↦ if contains_text (str "VersionAlreadyExists") e then (ok tt, (m sent).1) else m sent
]

unfoldable pub add_unless : Bool → M VersionTx (Unit {0}) → M VersionTx (Unit {0})
add_unless true m sent = (ok tt, sent)
add_unless false m sent = m sent

-- The end of the command allow-tee-version: `supported` is IsCodeHashPlatformSupported.
unfoldable pub allow_tee_version :
    Chain VersionTx
    → (supported : List VersionTx → Result Bool) → (quote : Bytes → Bytes) → Bytes
    → M VersionTx (Unit {0})
unfolding add_unless forgive add_tee_version_tx
allow_tee_version chain supported quote version = do
  yes_already ← ask (λ e. e) supported
  add_unless yes_already (forgive (add_tee_version_tx chain quote version))

drop_zeros-reverse_aux :
    (n : ℕ) (t : Bytes) → drop_zeros (reverse_aux (replicate {A = ℕ} n 0) t) ≡ drop_zeros t
unfolding drop_zeros
drop_zeros-reverse_aux zero t = refl
drop_zeros-reverse_aux (suc n) t = drop_zeros-reverse_aux n (0 ∷ t)

drop_zeros-graphic : (s : Bytes) → All IsGraphic s → drop_zeros s ≡ s
unfolding drop_zeros
drop_zeros-graphic [] h = refl
drop_zeros-graphic (b ∷ bs) (p, h) = ground arith

drop_zeros-padded :
    (s : Bytes) (n : ℕ)
    → All IsGraphic s
    → drop_zeros (reverse (s ++ replicate {A = ℕ} n 0)) ≡ reverse s
drop_zeros-padded s n h =
    ap drop_zeros (reverse_aux-append s (replicate {A = ℕ} n 0) [])
    ∙ drop_zeros-reverse_aux n (reverse s)
    ∙ drop_zeros-graphic (reverse s) (All-reverse s h)

bytes32_to_string-padded :
    (s : Bytes) (n : ℕ) → All IsGraphic s → bytes32_to_string (s ++ replicate {A = ℕ} n 0) ≡ s
unfolding bytes32_to_string
bytes32_to_string-padded s n h =
    ap (λ t. trim_space (reverse t)) (drop_zeros-padded s n h)
    ∙ ap trim_space (reverse-reverse s)
    ∙ trim_space-graphic s h

length-replicate : (n : ℕ) → length (replicate {A = ℕ} n 0) ≡ n
length-replicate zero = refl
length-replicate (suc n) = ap suc (length-replicate n)

-- A version of at most 32 printable characters without blanks is put into 32 bytes, from which the
-- audit's bytes32ToString reads it back.
pub bytes32_to_string-string_to_bytes32 :
    (quote : Bytes → Bytes) (s : Bytes)
    → length s ≤ 32
    → All IsGraphic s
    → (b : Bytes) × (string_to_bytes32 quote s ≡ ok b) × (length b ≡ 32) × (bytes32_to_string b ≡ s)
unfolding string_to_bytes32
bytes32_to_string-string_to_bytes32 quote s short h = (
  s ++ replicate (32 - length s) 0,
  ground arith,
  omega
      (arith, length-append {0} s (replicate (32 - length s) 0), length-replicate (32 - length s)),
  bytes32_to_string-padded s (32 - length s) h,
)
