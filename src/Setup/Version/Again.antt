-- ===== src/Setup/Version/Again.antt =====
-- tools/cmd/allow-tee-version/main.go, run twice.
use fce_extension_scaffold.Base.{
  Bytes, str, Bool, true, false, Option-cases, Result, Result-cases, ok, err, List, ◌∷◌, ◌++◌, ◌≡◌,
  refl, ap, subst, ◌∙◌, sym, ◌⊎◌, inl, inr, arith,
}
use fce_extension_scaffold.Support.Tx.{M, Chain, send_only-sent}
use fce_extension_scaffold.Setup.Version.{
  VersionTx, add_tee_version, string_to_bytes32, add_tee_version_tx, forgive, allow_tee_version,
}

module _ (chain : Chain VersionTx) (quote : Bytes → Bytes) (version b : Bytes)
    (sent : List VersionTx) (fits : string_to_bytes32 quote version ≡ ok b) where
  -- AddTeeVersion sends nothing, or the version once.
  add_tee_version_tx-sent :
      ((add_tee_version_tx chain quote version sent).1 ≡ sent)
      ⊎ ((add_tee_version_tx chain quote version sent).1 ≡ add_tee_version b ∷ sent)
  unfolding add_tee_version_tx
  add_tee_version_tx-sent = elim (Option-cases chain.transactor) [
    | inr (x, e) ↦ inl (ground arith)
    | inl e ↦
        elim (send_only-sent chain (λ e. str "TeeExtensionRegistry.AddTeeVersion failed: " ++ e)
          (λ e. e) (add_tee_version b) sent) [
            | inl same ↦ inl (ground (arith, same))
            | inr one ↦ inr (ground (arith, one))
          ]
  ]

forgive-sent :
    (m : M VersionTx (Unit {0})) (sent : List VersionTx) → (forgive m sent).1 ≡ (m sent).1
unfolding forgive
forgive-sent m sent = elim (Result-cases (m sent).0) [
  | inl (u, e) ↦ ground arith
  | inr (x, e) ↦ ground arith
]

module _ (chain : Chain VersionTx) (supported : List VersionTx → Result Bool)
    (quote : Bytes → Bytes) (version : Bytes) where
  abbrev run : M VersionTx (Unit {0})
  run = allow_tee_version chain supported quote version

  allow_tee_version-supported :
      (sent : List VersionTx) → supported sent ≡ ok true → run sent ≡ (ok tt, sent)
  unfolding allow_tee_version
  allow_tee_version-supported sent h = ground arith

  allow_tee_version-unsupported :
      (sent : List VersionTx)
      → supported sent ≡ ok false
      → run sent ≡ forgive (add_tee_version_tx chain quote version) sent
  unfolding allow_tee_version
  allow_tee_version-unsupported sent h = ground arith

  allow_tee_version-unknown :
      (sent : List VersionTx) (x : Bytes) → supported sent ≡ err x → (run sent).0 ≡ err x
  unfolding allow_tee_version
  allow_tee_version-unknown sent x h = ground arith

  settled :
      (sent after : List VersionTx)
      → (run sent).1 ≡ after
      → run after ≡ (ok tt, after)
      → run (run sent).1 ≡ (ok tt, (run sent).1)
  settled sent after e h = subst (λ l. run l ≡ (ok tt, l)) (sym e) h

  -- Where the chain supports a version after the transaction that adds it: after a run that succeeds,
  -- also one whose VersionAlreadyExists was forgiven, the next one succeeds and sends nothing.
  pub allow_tee_version_idempotent :
      (b : Bytes) (sent : List VersionTx)
      → string_to_bytes32 quote version ≡ ok b
      → supported (add_tee_version b ∷ sent) ≡ ok true
      → (allow_tee_version chain supported quote version sent).0 ≡ ok tt
      → let after = (allow_tee_version chain supported quote version sent).1 in
        allow_tee_version chain supported quote version after ≡ (ok tt, after)
  allow_tee_version_idempotent b sent fits added done = from (supported sent) refl
    where
      from : (r : Result Bool) → supported sent ≡ r → run (run sent).1 ≡ (ok tt, (run sent).1)
      from (err x) e = cc (allow_tee_version-unknown sent x e)
      from (ok true) e =
          settled sent sent
            (ap (λ (p : Result (Unit {0}) × List VersionTx). p.1)
              (allow_tee_version-supported sent e))
            (allow_tee_version-supported sent e)
      from (ok false) e =
          let left =
            ap (λ (p : Result (Unit {0}) × List VersionTx). p.1)
              (allow_tee_version-unsupported sent e)
            ∙ forgive-sent (add_tee_version_tx chain quote version) sent in
          elim (add_tee_version_tx-sent chain quote version b sent fits) [
            | inl same ↦ settled sent sent (left ∙ same) (λ i. (done i, (left ∙ same) i))
            | inr one ↦
                settled sent (add_tee_version b ∷ sent) (left ∙ one)
                  (allow_tee_version-supported (add_tee_version b ∷ sent) added)
          ]
