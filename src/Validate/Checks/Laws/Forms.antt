-- ===== src/Validate/Checks/Laws/Forms.antt =====
-- Every check of checks.go makes results of one shape, and every `Register…Checks` only appends.
use fce_extension_scaffold.Base.{Bytes, str, arith}
use fce_extension_scaffold.Validate.Report.{Report}
use fce_extension_scaffold.Validate.Checks.Common.{Host}
use fce_extension_scaffold.Validate.Checks.Shape.{WellFormed, Extends, Extends-refl, Extends-add}
use fce_extension_scaffold.Validate.Checks.Services.{
  s2_check, s5_check, s7_check, s9_check, s10_check, register_services_checks,
}
use fce_extension_scaffold.Validate.Checks.TeeVersion.{
  v2_check, v4_check, v6_check, register_tee_version_checks,
}
use fce_extension_scaffold.Validate.Checks.TeeMachine.{
  t1_check, t5_check, t10_check, register_tee_machine_checks,
}
use fce_extension_scaffold.Validate.Checks.Test.{e1_check, e3_check, e6_check, register_test_checks}

module _ (host : Host) (path : Bytes) where
  s2 : WellFormed (str "services") (s2_check host path)
  unfolding s2_check
  s2 = ground arith

  s5 : WellFormed (str "services") (s5_check host)
  unfolding s5_check
  s5 = ground arith

  s7 : WellFormed (str "services") (s7_check host)
  unfolding s7_check
  s7 = ground arith

  s9 : WellFormed (str "services") (s9_check host)
  unfolding s9_check
  s9 = ground arith

  s10 : WellFormed (str "services") (s10_check host)
  unfolding s10_check
  s10 = ground arith

  v2 : WellFormed (str "tee-version") (v2_check host)
  unfolding v2_check
  v2 = ground arith

  v4 : WellFormed (str "tee-version") (v4_check host path)
  unfolding v4_check
  v4 = ground arith

  v6 : WellFormed (str "tee-version") (v6_check host)
  unfolding v6_check
  v6 = ground arith

  t1 : WellFormed (str "tee-machine") (t1_check host)
  unfolding t1_check
  t1 = ground arith

  t5 : WellFormed (str "tee-machine") (t5_check host)
  unfolding t5_check
  t5 = ground arith

  t10 : WellFormed (str "tee-machine") (t10_check host)
  unfolding t10_check
  t10 = ground arith

  e1 : WellFormed (str "test") (e1_check host path)
  unfolding e1_check
  e1 = ground arith

  e3 : WellFormed (str "test") (e3_check host)
  unfolding e3_check
  e3 = ground arith

e6 : WellFormed (str "test") e6_check
unfolding e6_check
e6 = ground arith

module _ (host : Host) (r : Report) (path : Bytes) where
  pub register_services_checks-Extends :
      Extends (str "services") r (register_services_checks host r path)
  unfolding register_services_checks
  register_services_checks-Extends =
      Extends-add _ r _ (s10_check host)
        (Extends-add _ r _ (s9_check host)
          (Extends-add _ r _ (s7_check host)
            (Extends-add _ r _ (s5_check host)
              (Extends-add _ r _ (s2_check host path) (Extends-refl _ r) (s2 host path))
              (s5 host path))
            (s7 host path))
          (s9 host path))
        (s10 host path)

  pub register_tee_version_checks-Extends :
      Extends (str "tee-version") r (register_tee_version_checks host r path)
  unfolding register_tee_version_checks
  register_tee_version_checks-Extends =
      Extends-add _ r _ (v6_check host)
        (Extends-add _ r _ (v4_check host path)
          (Extends-add _ r _ (v2_check host) (Extends-refl _ r) (v2 host path)) (v4 host path))
        (v6 host path)

  pub register_tee_machine_checks-Extends :
      Extends (str "tee-machine") r (register_tee_machine_checks host r)
  unfolding register_tee_machine_checks
  register_tee_machine_checks-Extends =
      Extends-add _ r _ (t10_check host)
        (Extends-add _ r _ (t5_check host)
          (Extends-add _ r _ (t1_check host) (Extends-refl _ r) (t1 host path)) (t5 host path))
        (t10 host path)

  pub register_test_checks-Extends : Extends (str "test") r (register_test_checks host r path)
  unfolding register_test_checks
  register_test_checks-Extends =
      Extends-add _ r _ e6_check
        (Extends-add _ r _ (e3_check host)
          (Extends-add _ r _ (e1_check host path) (Extends-refl _ r) (e1 host path)) (e3 host path))
        e6
