-- ===== src/Setup/Extend/Complete.antt =====
-- What a run of `SetupExtension` of extension.go has reached when it succeeds.
use fce_extension_scaffold.Base.{
  ℕ, Bytes, Bool, true, Option-cases, Result, Result-cases, ok, List, ◌∷◌, ◌≡◌, sym, ap, ◌∙◌, subst,
  ◌⊎◌, inl, inr, arith,
}
use fce_extension_scaffold.Support.Tx.{
  M, ◌>>◌, check-reads, send_only-ok, send_only-sent, send_then-ok, send_then-sent, wrap_error,
  wrap_error-ok, wrap_error-sent, ensure, ensure-Holds, ensure-sent,
}
use fce_extension_scaffold.Setup.Extend.{
  ExtensionTx, add_machine_owner, add_project_owner, add_key_type, Contracts, register_extension,
  allow_machine_owner, allow_project_owner, add_supported_key_types, ensure_machine_owner,
  ensure_project_owner, ensure_key_type, grant, setup_extension,
}

-- A transaction at most.
abbrev pub AtMost : M ExtensionTx (Unit {0}) → ExtensionTx → Type 0
AtMost m tx = (s : List ExtensionTx) → ((m s).1 ≡ s) ⊎ ((m s).1 ≡ tx ∷ s)

-- A success has sent the transaction.
abbrev Sends : M ExtensionTx (Unit {0}) → ExtensionTx → Type 0
Sends m tx = (s : List ExtensionTx) → (m s).0 ≡ ok tt → (m s).1 ≡ tx ∷ s

pub wrapped-AtMost :
    (w : Bytes → Bytes) (m : M ExtensionTx (Unit {0})) (tx : ExtensionTx)
    → AtMost m tx
    → AtMost (wrap_error w m) tx
wrapped-AtMost w m tx h s = elim (h s) [
  | inl same ↦ inl (wrap_error-sent w m s ∙ same)
  | inr one ↦ inr (wrap_error-sent w m s ∙ one)
]

wrapped-Sends :
    (w : Bytes → Bytes) (m : M ExtensionTx (Unit {0})) (tx : ExtensionTx)
    → Sends m tx
    → Sends (wrap_error w m) tx
wrapped-Sends w m tx h s done = wrap_error-sent w m s ∙ h s (wrap_error-ok w m s done)

module _ (c : Contracts) (id : ℕ) where
  allow_machine_owner-Sends : Sends (allow_machine_owner c id) (add_machine_owner id)
  unfolding allow_machine_owner
  allow_machine_owner-Sends s done =
      send_then-ok c.chain _ _ (add_machine_owner id) _ (λ r t. check-reads _ t) s done

  pub allow_machine_owner-AtMost : AtMost (allow_machine_owner c id) (add_machine_owner id)
  unfolding allow_machine_owner
  allow_machine_owner-AtMost s =
      send_then-sent c.chain _ _ (add_machine_owner id) _ (λ r t. check-reads _ t) s

  allow_project_owner-Sends : Sends (allow_project_owner c id) (add_project_owner id)
  unfolding allow_project_owner
  allow_project_owner-Sends s done =
      send_then-ok c.chain _ _ (add_project_owner id) _ (λ r t. check-reads _ t) s done

  pub allow_project_owner-AtMost : AtMost (allow_project_owner c id) (add_project_owner id)
  unfolding allow_project_owner
  allow_project_owner-AtMost s =
      send_then-sent c.chain _ _ (add_project_owner id) _ (λ r t. check-reads _ t) s

  add_supported_key_types-Sends : Sends (add_supported_key_types c id) (add_key_type id)
  unfolding add_supported_key_types
  add_supported_key_types-Sends s done = elim (Option-cases c.chain.transactor) [
    | inr (x, e) ↦ ground arith
    | inl e ↦ ground (arith, send_only-ok c.chain (λ e. e) (λ e. e) (add_key_type id) s)
  ]

  pub add_supported_key_types-AtMost : AtMost (add_supported_key_types c id) (add_key_type id)
  unfolding add_supported_key_types
  add_supported_key_types-AtMost s = elim (Option-cases c.chain.transactor) [
    | inr (x, e) ↦ inl (ground arith)
    | inl e ↦ elim (send_only-sent c.chain (λ e. e) (λ e. e) (add_key_type id) s) [
      | inl same ↦ inl (ground (arith, same))
      | inr one ↦ inr (ground (arith, one))
    ]
  ]

-- An answer that a transaction makes true and that none makes false.
abbrev pub Makes : (List ExtensionTx → Result Bool) → ExtensionTx → Type 0
Makes q tx = (s : List ExtensionTx) → q (tx ∷ s) ≡ ok true

abbrev pub Lasts : (List ExtensionTx → Result Bool) → Type 0
Lasts q = (tx : ExtensionTx) (s : List ExtensionTx) → q s ≡ ok true → q (tx ∷ s) ≡ ok true

module _ (holds q : List ExtensionTx → Result Bool) (wrap : Bytes → Bytes)
    (act : M ExtensionTx (Unit {0})) (tx : ExtensionTx) (s : List ExtensionTx) where
  ensured :
      Sends act tx
      → Makes holds tx
      → (ensure holds wrap act s).0 ≡ ok tt
      → holds (ensure holds wrap act s).1 ≡ ok true
  ensured sends makes done =
      ensure-Holds holds wrap act s (λ h. ap holds (sends s h) ∙ makes s) done

  kept : AtMost act tx → Lasts q → q s ≡ ok true → q (ensure holds wrap act s).1 ≡ ok true
  kept at_most lasts h = elim (ensure-sent holds wrap act tx s (at_most s)) [
    | inl same ↦ ap q same ∙ h
    | inr one ↦ ap q one ∙ lasts tx s h
  ]

module _ (c : Contracts) (id : ℕ) (s : List ExtensionTx) where
  machine_ensured :
      Makes (c.is_machine_owner id) (add_machine_owner id)
      → (ensure_machine_owner c id s).0 ≡ ok tt
      → c.is_machine_owner id (ensure_machine_owner c id s).1 ≡ ok true
  unfolding ensure_machine_owner
  machine_ensured makes done =
      ensured (c.is_machine_owner id) (c.is_machine_owner id) _ _ (add_machine_owner id) s
        (wrapped-Sends _ (allow_machine_owner c id) _ (allow_machine_owner-Sends c id)) makes done

  project_ensured :
      Makes (c.is_project_owner id) (add_project_owner id)
      → (ensure_project_owner c id s).0 ≡ ok tt
      → c.is_project_owner id (ensure_project_owner c id s).1 ≡ ok true
  unfolding ensure_project_owner
  project_ensured makes done =
      ensured (c.is_project_owner id) (c.is_project_owner id) _ _ (add_project_owner id) s
        (wrapped-Sends _ (allow_project_owner c id) _ (allow_project_owner-Sends c id)) makes done

  key_ensured :
      Makes (c.is_key_type_supported id) (add_key_type id)
      → (ensure_key_type c id s).0 ≡ ok tt
      → c.is_key_type_supported id (ensure_key_type c id s).1 ≡ ok true
  unfolding ensure_key_type
  key_ensured makes done =
      ensured (c.is_key_type_supported id) (c.is_key_type_supported id) _ _ (add_key_type id) s
        (add_supported_key_types-Sends c id) makes done

  project_keeps :
      (q : List ExtensionTx → Result Bool)
      → Lasts q
      → q s ≡ ok true
      → q (ensure_project_owner c id s).1 ≡ ok true
  unfolding ensure_project_owner
  project_keeps q lasts h =
      kept (c.is_project_owner id) q _ _ (add_project_owner id) s
        (wrapped-AtMost _ (allow_project_owner c id) _ (allow_project_owner-AtMost c id)) lasts h

  key_keeps :
      (q : List ExtensionTx → Result Bool)
      → Lasts q
      → q s ≡ ok true
      → q (ensure_key_type c id s).1 ≡ ok true
  unfolding ensure_key_type
  key_keeps q lasts h =
      kept (c.is_key_type_supported id) q _ _ (add_key_type id) s
        (add_supported_key_types-AtMost c id) lasts h

-- A success of a sequence.
then-ok :
    {T B : Type 0} (m : M T (Unit {0})) (k : M T B) (s : List T) {b : B}
    → ((m >> k) s).0 ≡ ok b
    → ((m s).0 ≡ ok tt) × ((k (m s).1).0 ≡ ok b) × (((m >> k) s).1 ≡ (k (m s).1).1)
then-ok m k s h = elim (Result-cases (m s).0) [
  | inr (x, e) ↦ ground arith
  | inl (u, e) ↦ (ground arith, ground arith, ground arith)
]

ok-injective : {x y : ℕ} → ok x ≡ ok y → x ≡ y
ok-injective h = cc

-- What the contracts say of an extension once it is set up.
abbrev pub IsSetUp : Contracts → ℕ → List ExtensionTx → Type 0
IsSetUp c id s =
    (c.is_machine_owner id s ≡ ok true)
    × (c.is_project_owner id s ≡ ok true)
    × (c.is_key_type_supported id s ≡ ok true)

module _ (c : Contracts)
    (machine_made : (id : ℕ) → Makes (c.is_machine_owner id) (add_machine_owner id))
    (machine_lasts : (id : ℕ) → Lasts (c.is_machine_owner id))
    (project_made : (id : ℕ) → Makes (c.is_project_owner id) (add_project_owner id))
    (project_lasts : (id : ℕ) → Lasts (c.is_project_owner id))
    (key_made : (id : ℕ) → Makes (c.is_key_type_supported id) (add_key_type id)) where
  grant-IsSetUp :
      (id : ℕ) (s : List ExtensionTx) {got : ℕ}
      → (grant c id s).0 ≡ ok got
      → IsSetUp c got (grant c id s).1
  unfolding grant
  grant-IsSetUp id s {got} done =
      let first = then-ok (ensure_machine_owner c id) _ s done in
      let s1 : List ExtensionTx = (ensure_machine_owner c id s).1 in
      let second = then-ok (ensure_project_owner c id) _ s1 first.1 in
      let s2 : List ExtensionTx = (ensure_project_owner c id s1).1 in
      let third = then-ok (ensure_key_type c id) _ s2 second.1 in
      let machine = machine_ensured c id s (machine_made id) first.0 in
      let project = project_ensured c id s1 (project_made id) second.0 in
      let m2 = project_keeps c id s1 (c.is_machine_owner id) (machine_lasts id) machine in
      subst (λ t. IsSetUp c got t) (sym (first.2 ∙ second.2 ∙ third.2))
        (subst (λ i. IsSetUp c i (ensure_key_type c id s2).1) (ok-injective third.1)
          (
            key_keeps c id s2 (c.is_machine_owner id) (machine_lasts id) m2,
            key_keeps c id s2 (c.is_project_owner id) (project_lasts id) project,
            key_ensured c id s2 (key_made id) third.0,
          ))

  -- Where adding an owner or a key type makes the contracts say so, and no transaction takes an owner
  -- away: when a run returns an extension's id, the deployer is allowed as an owner of its TEE machines
  -- and of its wallet projects, and it supports the EVM type of keys.
  pub setup_extension-IsSetUp :
      (s : List ExtensionTx) {id : ℕ}
      → (setup_extension c s).0 ≡ ok id
      → IsSetUp c id (setup_extension c s).1
  unfolding setup_extension
  setup_extension-IsSetUp s {id} done = elim (Option-cases c.chain.transactor) [
    | inr (x, e) ↦ ground arith
    | inl e ↦ elim (Result-cases (register_extension c s).0) [
      | inr (x, p) ↦ cc
      | inl (new, p) ↦
          let same : setup_extension c s ≡ grant c new (register_extension c s).1 = ground arith in
          subst (λ (r : Result ℕ × List ExtensionTx). r.0 ≡ ok id → IsSetUp c id r.1) (sym same)
            (λ h. grant-IsSetUp new (register_extension c s).1 h) done
    ]
  ]
