-- ===== src/Validate/Command/Laws.antt =====
-- What the command of tools/cmd/verify-deploy/main.go reports, and how it exits.
use fce_extension_scaffold.Base.{
  is_empty, Bytes, str, Bool, true, false, ◌≡◌, refl, ◌↔◌, List, [], ◌∷◌, All, All-append, arith,
  Result, ok, err, sym, subst, if◌then◌else◌, beq,
}
use fce_extension_scaffold.Validate.Report.{Report, CheckResult, is_fail, has_failures, step_label}
use fce_extension_scaffold.Validate.Funds.{Format}
use fce_extension_scaffold.Validate.Checks.Services.{register_services_checks}
use fce_extension_scaffold.Validate.Checks.TeeVersion.{register_tee_version_checks}
use fce_extension_scaffold.Validate.Checks.TeeMachine.{register_tee_machine_checks}
use fce_extension_scaffold.Validate.Checks.Test.{register_test_checks}
use fce_extension_scaffold.Validate.Checks.{Host, WellFormed, Extends}
use fce_extension_scaffold.Validate.Checks.Laws.{
  register_deploy_checks-Extends, register_registration_checks-Extends,
  register_services_checks-Extends, register_tee_version_checks-Extends,
  register_tee_machine_checks-Extends, register_test_checks-Extends,
}
use fce_extension_scaffold.Validate.Command.{
  Setup, Flags, Run, report, no_setup, unknown_step, deploy_step, register_step, all_steps,
  with_setup, run_step, filter_checks, finish, verify_deploy, handles,
}

-- The report has a label for the step.
abbrev pub HasLabel : Bytes → Type 0
HasLabel step = is_empty (step_label step) ≡ false

-- A well-formed result of a step that has a label.
abbrev pub Labelled : CheckResult → Type 0
Labelled res = (step : Bytes) × HasLabel step × WellFormed step res

abbrev AllLabelled : Report → Type 0
AllLabelled = All Labelled

WellFormed-Labelled :
    (step : Bytes) (rs : List CheckResult)
    → HasLabel step
    → All (WellFormed step) rs
    → AllLabelled rs
WellFormed-Labelled step [] h formed = tt
WellFormed-Labelled step (res ∷ rest) h (f, fs) = ((step, h, f), WellFormed-Labelled step rest h fs)

Extends-Labelled :
    (step : Bytes) (before after : Report)
    → HasLabel step
    → Extends step before after
    → AllLabelled before
    → AllLabelled after
Extends-Labelled step before after h (new, e, formed) all =
    subst AllLabelled (sym e)
      (All-append Labelled before new all (WellFormed-Labelled step new h formed))

module _ (f : Format) (host : Host) (config : Bytes) where
  deploy_step-Labelled :
      (s : Setup) (r : Report) → AllLabelled r → AllLabelled (deploy_step f host s config r)
  unfolding deploy_step step_label beq str
  deploy_step-Labelled s r h =
      Extends-Labelled (str "deploy") r _ refl
        (register_deploy_checks-Extends f host r _ _ _ _ config) h

  register_step-Labelled :
      (s : Setup) (r : Report) → AllLabelled r → AllLabelled (register_step f host s config r)
  unfolding register_step step_label beq str
  register_step-Labelled s r h =
      Extends-Labelled (str "register") r _ refl
        (register_registration_checks-Extends f host r (handles s) config) h

  services-Labelled :
      (r : Report) → AllLabelled r → AllLabelled (register_services_checks host r config)
  unfolding step_label beq str
  services-Labelled r h =
      Extends-Labelled (str "services") r _ refl (register_services_checks-Extends host r config) h

  tee_version-Labelled :
      (r : Report) → AllLabelled r → AllLabelled (register_tee_version_checks host r config)
  unfolding step_label beq str
  tee_version-Labelled r h =
      Extends-Labelled (str "tee-version") r _ refl
        (register_tee_version_checks-Extends host r config) h

  tee_machine-Labelled :
      (r : Report) → AllLabelled r → AllLabelled (register_tee_machine_checks host r)
  unfolding step_label beq str
  tee_machine-Labelled r h =
      Extends-Labelled (str "tee-machine") r _ refl
        (register_tee_machine_checks-Extends host r config) h

  test-Labelled : (r : Report) → AllLabelled r → AllLabelled (register_test_checks host r config)
  unfolding step_label beq str
  test-Labelled r h =
      Extends-Labelled (str "test") r _ refl (register_test_checks-Extends host r config) h

  all_steps-Labelled :
      (s : Setup) (r : Report) → AllLabelled r → AllLabelled (all_steps f host s config r)
  unfolding all_steps
  all_steps-Labelled s r h = test-Labelled _ (
      tee_machine-Labelled _ (
        tee_version-Labelled _
          (services-Labelled _ (register_step-Labelled s _ (deploy_step-Labelled s r h)))))

  -- What a run may be: a report of labelled results, or no report.
  abbrev Reports : Run → Type 0
  Reports (report r) = AllLabelled r
  Reports no_setup = Unit
  Reports unknown_step = Unit

  with_setup-Reports :
      (setup : Result Setup) (steps : Setup → Report)
      → ((s : Setup) → AllLabelled (steps s))
      → Reports (with_setup f host setup steps)
  unfolding with_setup
  with_setup-Reports (ok s) steps h = h s
  with_setup-Reports (err e) steps h = tt

  Reports-if : (b : Bool) (x y : Run) → Reports x → Reports y → Reports (if b then x else y)
  Reports-if true x y hx hy = hx
  Reports-if false x y hx hy = hy

  run_step-Reports :
      (setup : Result Setup) (step : Bytes) → Reports (run_step f host setup step config)
  unfolding run_step
  run_step-Reports setup step =
      Reports-if (beq step (str "deploy")) _ _
        (with_setup-Reports setup _ (λ s. deploy_step-Labelled s [] tt))
        (Reports-if (beq step (str "register")) _ _
          (with_setup-Reports setup _ (λ s. register_step-Labelled s [] tt))
          (Reports-if (beq step (str "all")) _ _
            (with_setup-Reports setup _ (λ s. all_steps-Labelled s [] tt))
            (Reports-if (beq step (str "services")) _ _ (services-Labelled [] tt) (
              Reports-if (beq step (str "tee-version")) _ _ (tee_version-Labelled [] tt) (
                Reports-if (beq step (str "tee-machine")) _ _ (tee_machine-Labelled [] tt)
                  (Reports-if (beq step (str "test")) _ _ (test-Labelled [] tt) tt))))))

  -- Whatever the step, the environment and the chain, every result that the command collects belongs
  -- to a step that has a label in the report, has one of the four statuses, and has a Fix only if it fails or warns.
  pub run_step-Labelled :
      (setup : Result Setup) (step : Bytes) {r : Report}
      → run_step f host setup step config ≡ report r
      → All Labelled r
  run_step-Labelled setup step e = subst Reports e (run_step-Reports setup step)

has_failures-All :
    (r : Report) → (has_failures r ≡ false) ↔ All (λ res. is_fail res.status ≡ false) r
unfolding has_failures
has_failures-All [] = ground arith
has_failures-All (res ∷ rest) = ground (arith, has_failures-All rest)

report-inj : {r s : Report} → report r ≡ report s → r ≡ s
report-inj h = cc

finish_exit :
    (flags : Flags) (run : Run)
    → ((finish flags run).0 ≡ 0) ↔ (
        (r : Report) × (run ≡ report r)
        × All (λ res. is_fail res.status ≡ false) (filter_checks flags.checks r))
unfolding finish
finish_exit flags no_setup = ((λ h. absurd (omega arith)), λ (r, e, all). cc)
finish_exit flags unknown_step = ((λ h. absurd (omega arith)), λ (r, e, all). cc)
finish_exit flags (report r) = (to, from)
  where
    shown : Report
    shown = filter_checks flags.checks r

    to :
        (finish flags (report r)).0 ≡ 0
        → (s : Report) × (report r ≡ report s)
          × All (λ res. is_fail res.status ≡ false) (filter_checks flags.checks s)
    to h = (r, refl, (has_failures-All shown).0 (ground arith))

    from :
        ((s : Report) × (report r ≡ report s)
          × All (λ res. is_fail res.status ≡ false) (filter_checks flags.checks s))
        → (finish flags (report r)).0 ≡ 0
    from (s, e, all) =
        let none_fails : has_failures shown ≡ false = (has_failures-All shown).1 (
          subst (λ t. All (λ res. is_fail res.status ≡ false) (filter_checks flags.checks t))
            (sym (report-inj e)) all) in
        ground arith

-- The command exits with status 0 exactly when it has a report and none of the results that it shows
-- is a failure.
pub verify_deploy_exit :
    (f : Format) (host : Host) (setup : Result Setup) (flags : Flags)
    → ((verify_deploy f host setup flags).0 ≡ 0) ↔ (
        (r : Report) × (run_step f host setup flags.step flags.config ≡ report r)
        × All (λ res. is_fail res.status ≡ false) (filter_checks flags.checks r))
unfolding verify_deploy
verify_deploy_exit f host setup flags =
    finish_exit flags (run_step f host setup flags.step flags.config)
