-- ===== src/Setup/Governance/Laws.antt =====
-- What governance.go sends, and how the variables of set-governance are read.
use fce_extension_scaffold.Base.{
  ℕ, zero, suc, ◌≤◌, ◌<◌, ◌^◌, Bytes, trim_space, split_at, show_nat, parse_uint,
  parse_uint-show_nat, show_nat-IsGraphic, parse_uint-lt, length, false, Option, none, some,
  Option-cases, Bool-cases, Result-cases, inl, inr, ◌⊎◌, ◌↔◌, Result, ok, List, [], ◌∷◌, ◌≡◌, ◌≢◌,
  refl, ap, ◌∙◌, arith,
}
use fce_extension_scaffold.Base.Strings.Trim.{trim_space-graphic}
use fce_extension_scaffold.Support.Tx.{send_only-sent, send_only-ok}
use fce_extension_scaffold.Setup.Governance.{
  Address, Hash, signers_of, or_fallback, parse_signers, at_least_one, parse_threshold,
  GovernanceTx, set_new_tee_governance, set_failed, Governance, invalid_arguments, is_current,
  hash_of, send_governance, send_unless_current, set_tee_governance,
}

-- A threshold from 1 on that is written in decimal is read back, also as the node's environment has it.
pub parse_threshold-show_nat : (n : ℕ) → 0 < n → n < 2 ^ 64 → parse_threshold (show_nat n) ≡ n
unfolding parse_threshold
parse_threshold-show_nat zero h k = elim h [ ]
parse_threshold-show_nat (suc n) h k =
    ap (λ t. at_least_one (parse_uint t))
      (trim_space-graphic (show_nat (suc n)) (show_nat-IsGraphic (suc n)))
    ∙ ap at_least_one (parse_uint-show_nat (suc n) k)

at_least_one_bounds :
    (o : Option ℕ)
    → ((n : ℕ) → o ≡ some n → n < 2 ^ 64)
    → (0 < at_least_one o) × (at_least_one o < 2 ^ 64)
at_least_one_bounds none h = omega arith
at_least_one_bounds (some zero) h = omega arith
at_least_one_bounds (some (suc n)) h = (omega arith, h (suc n) refl)

or_fallback-pos : (a : Address) (signers : List Address) → 0 < length (or_fallback a signers)
or_fallback-pos a [] = omega arith
or_fallback-pos a (b ∷ signers) = omega arith

invalid_arguments_iff :
    (signers : List Address) (threshold : ℕ)
    → (invalid_arguments signers threshold ≡ none)
      ↔ ((0 < threshold) × (threshold ≤ length signers))
unfolding invalid_arguments
invalid_arguments_iff [] threshold = ((λ h. cc), λ h. absurd (omega arith))
invalid_arguments_iff (a ∷ signers) threshold = ground arith

-- Whatever the variables hold, set-governance has at least one signer and a threshold from 1 on that
-- fits a uint64, and SetTeeGovernance takes them exactly where the threshold is not above the number
-- of the signers.
pub parsed_arguments :
    (address_of : Bytes → Address) (signers threshold : Bytes) (fallback : Address)
    → let parsed = parse_signers address_of signers fallback in
      let t = parse_threshold threshold in
      (0 < length parsed)
      × (0 < t)
      × (t < 2 ^ 64)
      × ((invalid_arguments parsed t ≡ none) ↔ (t ≤ length parsed))
unfolding parse_signers parse_threshold
parsed_arguments address_of signers threshold fallback =
    let some_signer = or_fallback-pos fallback (signers_of address_of (split_at b',' signers)) in
    let bounds =
      at_least_one_bounds (parse_uint (trim_space threshold))
        (parse_uint-lt (trim_space threshold)) in
    let taken =
      invalid_arguments_iff (or_fallback fallback (signers_of address_of (split_at b',' signers)))
        (at_least_one (parse_uint (trim_space threshold))) in
    (some_signer, bounds.0, bounds.1, ((λ h. (taken.0 h).1), λ h. taken.1 (bounds.0, h)))

module _ (g : Governance) (signers : List Address) (threshold : ℕ) where
  abbrev tx : GovernanceTx
  tx = set_new_tee_governance signers threshold

  send_governance-sent :
      (sent : List GovernanceTx)
      → ((send_governance g signers threshold sent).1 ≡ sent)
        ⊎ ((send_governance g signers threshold sent).1 ≡ tx ∷ sent)
  unfolding send_governance
  send_governance-sent sent = elim (Option-cases g.chain.transactor) [
    | inr (x, e) ↦ inl (ground arith)
    | inl e ↦ elim (send_only-sent g.chain set_failed (λ e. e) tx sent) [
      | inl same ↦ inl (ground (arith, same))
      | inr one ↦ inr (ground (arith, one))
    ]
  ]

  send_governance-ok :
      (sent : List GovernanceTx)
      → (send_governance g signers threshold sent).0 ≡ ok tt
      → (send_governance g signers threshold sent).1 ≡ tx ∷ sent
  unfolding send_governance
  send_governance-ok sent h = elim (Option-cases g.chain.transactor) [
    | inr (x, e) ↦ ground arith
    | inl e ↦ ground (arith, send_only-ok g.chain set_failed (λ e. e) tx sent)
  ]

  is_current-ne : {r : Result Hash} (h : Hash) → is_current r h ≡ false → r ≢ ok h
  is_current-ne {r} h old e = ground arith

  -- A run sends nothing, or it sends the signers and the threshold once; it does so only where the
  -- threshold is from 1 to the number of the signers and the chain is not known to have their hash.
  pub set_tee_governance-sent :
      (sent : List GovernanceTx)
      → ((set_tee_governance g signers threshold sent).1 ≡ sent)
        ⊎ (((set_tee_governance g signers threshold sent).1 ≡ tx ∷ sent)
            × (0 < threshold)
            × (threshold ≤ length signers)
            × ((h : Hash) × (g.governance_hash signers threshold ≡ ok h)
                × (g.latest_hash sent ≢ ok h)))
  unfolding set_tee_governance hash_of send_unless_current
  set_tee_governance-sent sent = elim (Option-cases (invalid_arguments signers threshold)) [
    | inr (x, e) ↦ inl (ground arith)
    | inl e ↦ elim (Result-cases (g.governance_hash signers threshold)) [
      | inr (x, p) ↦ inl (ground arith)
      | inl (h, p) ↦ elim (Bool-cases (is_current (g.latest_hash sent) h)) [
        | inl same ↦ inl (ground arith)
        | inr old ↦ elim (send_governance-sent sent) [
          | inl none_sent ↦ inl (ground (arith, none_sent))
          | inr one_sent ↦
              let range = (invalid_arguments_iff signers threshold).0 e in
              inr (ground (arith, one_sent), range.0, range.1, (h, p, is_current-ne h old))
        ]
      ]
    ]
  ]

  -- Where the chain has the hash of the governance that was sent last: after a run that succeeds, the
  -- next one succeeds and sends nothing.
  pub set_tee_governance_idempotent :
      (h : Hash) (sent : List GovernanceTx)
      → g.governance_hash signers threshold ≡ ok h
      → g.latest_hash (tx ∷ sent) ≡ ok h
      → (set_tee_governance g signers threshold sent).0 ≡ ok tt
      → let after = (set_tee_governance g signers threshold sent).1 in
        set_tee_governance g signers threshold after ≡ (ok tt, after)
  unfolding set_tee_governance hash_of send_unless_current
  set_tee_governance_idempotent h sent e latest done =
      elim (Option-cases (invalid_arguments signers threshold)) [
        | inr (x, p) ↦ ground arith
        | inl p ↦ elim (Bool-cases (is_current (g.latest_hash sent) h)) [
          | inl same ↦ ground arith
          | inr old ↦ ground (arith, send_governance-ok sent)
        ]
      ]
