-- ===== src/Registration/Availability.antt =====
-- `GetFTDCAvailabilityCheckResult` of tools/pkg/fccutils/registration.go, from the answers of the proxy.
use fce_extension_scaffold.Base.{ℕ, Result, ok}
use fce_extension_scaffold.Registration.Polling.{Attempt, action_result}
use fce_extension_scaffold.Registration.Info.{◌>>=◌}
use fce_extension_scaffold.Registration.Chain.{Proof, ProofReader}

-- The four decoders run in turn, and the first error is returned.
unfoldable pub availability_check_result : ProofReader → (ℕ → Attempt) → Result Proof
availability_check_result r get = do
  body ← action_result r.result_data get
  proof ← r.prove_response body
  header ← r.header proof.response_header
  request ← r.request proof.request_body
  response ← r.response proof.response_body
  ok (record {
    signatures = proof.signatures;
    header = header;
    request = request;
    response = response;
  })
