-- ===== src/Commands/RegisterTee/Checked.antt =====
-- What register-tee has checked before it sends anything.
use fce_extension_scaffold.Base.{
  str, Bool, true, false, Result, ok, err, ◌≡◌, ◌≢◌, refl, ap, ◌∙◌, sym, ◌⊎◌, inl, inr,
}
use fce_extension_scaffold.Support.Addresses.{Support}
use fce_extension_scaffold.Registration.Polling.{Attempt}
use fce_extension_scaffold.Registration.Info.{
  Hash, Address, TeeInfo, tee_code_hash, test_platform, code_hash_and_platform, tee_proxy_id,
  get_tee_proxy_id, get_code_hash_and_platform, get_code_hash_and_platform_iff,
}
use fce_extension_scaffold.Registration.Chain.{World, M, ◌>>=◌, lift}
use fce_extension_scaffold.Commands.RegisterTee.{
  start_fresh, TeeFlags, Setting, register_checked, register_info, register_tee,
}

start_fresh-sent :
    (resume writable : Bool) (w : World) → (start_fresh resume writable w).1.sent ≡ w.sent
unfolding start_fresh
start_fresh-sent true writable w = refl
start_fresh-sent false true w = refl
start_fresh-sent false false w = refl

start_fresh-ok : (resume writable : Bool) (w : World) → (start_fresh resume writable w).0 ≡ ok tt
unfolding start_fresh
start_fresh-ok true writable w = refl
start_fresh-ok false writable w = refl

-- The node's info has the code hash and the platform of the simulated TEE with SIMULATED_TEE=true, and
-- else those that its own attestation token claims. The token's signature is not verified
-- (ParsePKITokenUnverifiedClaims), so this does not say that the info is genuine.
abbrev pub Matching : Setting → TeeInfo → Type 0
Matching s tee =
    ((s.simulated ≡ str "true")
      × (tee.code_hash ≡ tee_code_hash s.library)
      × (tee.platform ≡ test_platform s.library))
    ⊎ ((s.simulated ≢ str "true")
        × (code_hash_and_platform s.library tee.attestation ≡ ok (tee.code_hash, tee.platform)))

-- An action behind three answers sends nothing unless all of them are there.
three :
    {A B C : Type 0} (r : Result A) (q : Result B) (p : Result C) (m : B → M (Unit {0})) (w : World)
    → (((lift r >>= λ a. lift q >>= λ b. lift p >>= λ c. m b) w).1.sent ≡ w.sent)
      ⊎ (((a : A) × (r ≡ ok a)) × ((b : B) × (q ≡ ok b)) × ((c : C) × (p ≡ ok c)))
three (err e) q p m w = inl refl
three (ok a) (err e) p m w = inl refl
three (ok a) (ok b) (err e) m w = inl refl
three (ok a) (ok b) (ok c) m w = inr ((a, refl), (b, refl), (c, refl))

Matching-lem :
    (s : Setting) (tee : TeeInfo) (c p : Hash)
    → get_code_hash_and_platform s.library s.simulated s.hash_text tee ≡ ok (c, p)
    → Matching s tee
Matching-lem s tee c p h =
    let (which, same_hash, same_platform) =
      (get_code_hash_and_platform_iff s.library s.simulated s.hash_text tee c p).0 h in
    elim which [
      | inl (sim, ch, pl) ↦ inl (sim, sym same_hash ∙ ch, sym same_platform ∙ pl)
      | inr (real, claimed) ↦ inr (
        real,
        claimed ∙ ap ok (ap (λ h. (h, p)) same_hash ∙ ap (λ q. (tee.code_hash, q)) same_platform),
      )
    ]

register_info-Matching :
    (s : Setting) (flags : TeeFlags) (external : Attempt) (support : Support) (tee : TeeInfo)
    (w : World)
    → ((register_info s flags external support tee w).1.sent ≡ w.sent)
      ⊎ (Matching s tee
          × ((ids : Address × Address) × (tee_proxy_id s.library tee ≡ ok ids))
          × ((ids : Address × Address) × (get_tee_proxy_id s.library s.decode external ≡ ok ids)))
unfolding register_info
register_info-Matching s flags external support tee w =
    elim (three (tee_proxy_id s.library tee) (get_tee_proxy_id s.library s.decode external)
      (get_code_hash_and_platform s.library s.simulated s.hash_text tee)
      (λ ftdc. register_checked s flags support tee ftdc.0) w) [
        | inl same ↦ inl same
        | inr (ids, ftdc, (h, e)) ↦ inr (Matching-lem s tee h.0 h.1 e, ids, ftdc)
      ]

-- A run of register-tee sends nothing unless the node's info was read, the two nodes' ids could be
-- recovered, and the info's code hash and platform are those of the simulated TEE, with
-- SIMULATED_TEE=true, or else those that its attestation token claims, whose signature is not verified.
pub register_tee-Matching :
    (s : Setting) (flags : TeeFlags) (found : Result Support) (info : Result TeeInfo)
    (external : Attempt) (w : World)
    → ((register_tee s flags found info external w).1.sent ≡ w.sent)
      ⊎ ((tee : TeeInfo) × (info ≡ ok tee)
          × Matching s tee
          × ((ids : Address × Address) × (tee_proxy_id s.library tee ≡ ok ids))
          × ((ids : Address × Address) × (get_tee_proxy_id s.library s.decode external ≡ ok ids)))
unfolding register_tee
register_tee-Matching s flags (err e) info external w =
    rw (start_fresh-ok flags.resume s.writable w) (inl (start_fresh-sent flags.resume s.writable w))
register_tee-Matching s flags (ok support) (err e) external w =
    rw (start_fresh-ok flags.resume s.writable w) (inl (start_fresh-sent flags.resume s.writable w))
register_tee-Matching s flags (ok support) (ok tee) external w =
    rw (start_fresh-ok flags.resume s.writable w)
      (elim (register_info-Matching s flags external support tee
        (start_fresh flags.resume s.writable w).1) [
          | inl same ↦ inl (same ∙ start_fresh-sent flags.resume s.writable w)
          | inr (matching, ids, ftdc) ↦ inr (tee, refl, matching, ids, ftdc)
        ])
