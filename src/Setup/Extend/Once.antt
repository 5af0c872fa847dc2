-- ===== src/Setup/Extend/Once.antt =====
-- How often a run of `SetupExtension` registers.
use fce_extension_scaffold.Base.{
  ℕ, ◌+◌, ◌≤◌, Bytes, Bool, Option-cases, Result, Result-cases, ok, List, [], ◌∷◌, ◌≡◌, refl, ap,
  ◌∙◌, ◌⊎◌, inl, inr, arith,
}
use fce_extension_scaffold.Support.Tx.{
  M, ◌>>◌, pure, send_then-ok, send_then-sent, ensure, ensure-sent,
}
use fce_extension_scaffold.Setup.Extend.{
  ExtensionTx, register, add_machine_owner, add_project_owner, add_key_type, Contracts,
  register_extension, ensure_machine_owner, ensure_project_owner, ensure_key_type, grant,
  setup_extension,
}
use fce_extension_scaffold.Setup.Extend.Complete.{
  AtMost, wrapped-AtMost, allow_machine_owner-AtMost, allow_project_owner-AtMost,
  add_supported_key_types-AtMost,
}

-- 1 for a registration.
abbrev weight : ExtensionTx → ℕ
weight register = 1
weight (add_machine_owner id) = 0
weight (add_project_owner id) = 0
weight (add_key_type id) = 0

abbrev pub registrations : List ExtensionTx → ℕ
registrations [] = 0
registrations (tx ∷ sent) = weight tx + registrations sent

-- An action that registers nothing.
abbrev Quiet : {A : Type 0} → M ExtensionTx A → Type 0
Quiet m = (s : List ExtensionTx) → registrations (m s).1 ≡ registrations s

then-Quiet :
    {B : Type 0} (m : M ExtensionTx (Unit {0})) (k : M ExtensionTx B)
    → Quiet m
    → Quiet k
    → Quiet (m >> k)
then-Quiet m k h h' s = elim (Result-cases (m s).0) [
  | inr (x, e) ↦ ground (arith, h s)
  | inl (u, e) ↦ ground (arith, h s, h' (m s).1)
]

ensure-Quiet :
    (holds : List ExtensionTx → Result Bool) (wrap : Bytes → Bytes) (act : M ExtensionTx (Unit {0}))
    (tx : ExtensionTx)
    → weight tx ≡ 0
    → AtMost act tx
    → Quiet (ensure holds wrap act)
ensure-Quiet holds wrap act tx light at_most s =
    elim (ensure-sent holds wrap act tx s (at_most s)) [
      | inl same ↦ ap registrations same
      | inr one ↦ ap registrations one ∙ ap (λ n. n + registrations s) light ∙ omega arith
    ]

module _ (c : Contracts) where
  grant-Quiet : (id : ℕ) → Quiet (grant c id)
  unfolding grant ensure_machine_owner ensure_project_owner ensure_key_type
  grant-Quiet id =
      then-Quiet (ensure_machine_owner c id) _
        (ensure-Quiet _ _ _ (add_machine_owner id) refl
          (wrapped-AtMost _ _ _ (allow_machine_owner-AtMost c id)))
        (then-Quiet (ensure_project_owner c id) _
          (ensure-Quiet _ _ _ (add_project_owner id) refl
            (wrapped-AtMost _ _ _ (allow_project_owner-AtMost c id)))
          (then-Quiet (ensure_key_type c id) (pure id)
            (ensure-Quiet _ _ _ (add_key_type id) refl (add_supported_key_types-AtMost c id))
            (λ s. refl)))

  register_extension-sent :
      (s : List ExtensionTx)
      → ((register_extension c s).1 ≡ s) ⊎ ((register_extension c s).1 ≡ register ∷ s)
  unfolding register_extension
  register_extension-sent s = send_then-sent c.chain _ _ register _ (λ r t. refl) s

  register_extension-ok :
      (s : List ExtensionTx) {id : ℕ}
      → (register_extension c s).0 ≡ ok id
      → (register_extension c s).1 ≡ register ∷ s
  unfolding register_extension
  register_extension-ok s = send_then-ok c.chain _ _ register _ (λ r t. refl) s

  -- A run registers one extension at most, and one exactly if it returns an id.
  pub setup_extension-registers_once :
      (s : List ExtensionTx)
      → (registrations (setup_extension c s).1 ≤ registrations s + 1)
        × ((id : ℕ)
            → (setup_extension c s).0 ≡ ok id
            → registrations (setup_extension c s).1 ≡ registrations s + 1)
  unfolding setup_extension
  setup_extension-registers_once s = elim (Option-cases c.chain.transactor) [
    | inr (x, e) ↦ (ground arith, λ id h. ground arith)
    | inl e ↦ elim (Result-cases (register_extension c s).0) [
      | inr (x, p) ↦ elim (register_extension-sent s) [
        | inl same ↦ (ground arith, λ id h. ground arith)
        | inr one ↦ (ground arith, λ id h. ground arith)
      ]
      | inl (id, p) ↦
          let more : registrations (setup_extension c s).1 ≡ registrations s + 1 =
            ground (arith, register_extension-ok s p, grant-Quiet id (register_extension c s).1) in
          (omega (arith, more), λ i h. more)
    ]
  ]
