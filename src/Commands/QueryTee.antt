-- ===== src/Commands/QueryTee.antt =====
-- tools/cmd/query-tee/main.go: the lines that it prints about TEE machines.
use fce_extension_scaffold.Base.{
  ℕ, ◌+◌, Bytes, str, show_nat, ℤ, pos, negsuc, ◌==◌, if◌then◌else◌, Option, none, some, Result, ok,
  err, List, [], ◌∷◌, ◌++◌,
}
use fce_extension_scaffold.Validate.Funds.{Address, Format}

-- What GetTeeMachine gives.
pub record Machine : Type 0 where
  pub tee_id : Address
  pub tee_proxy_id : Address
  pub url : Bytes

-- What the MachineManager answers: of an extension, its machines and their URLs.
pub record Machines : Type 0 where
  pub active : ℕ → Result (List Address × List Bytes)
  pub machine : Address → Result Machine
  pub status : Address → Result ℕ
  pub owner : Address → Result Address
  pub extension_id : Address → Result ℕ
  pub last_status_change : Address → Result ℕ
  pub initial_signing_policy_id : Address → Result ℕ

-- An answer in words, or its error.
unfoldable pub answer_line : {A : Type 0} → (call : Bytes) → (A → Bytes) → Result A → Bytes
answer_line call text (err e) = str "  " ++ call ++ str " ERROR: " ++ e
answer_line call text (ok a) = str "  " ++ call ++ str ": " ++ text a

module _ (f : Format) (quote : Bytes → Bytes) where
  -- One line for each machine; `none` where the loop's index is outside the URLs, which panics.
  unfoldable pub active_rows : ℕ → List Address → List Bytes → Option (List Bytes)
  active_rows i [] urls = some []
  active_rows i (id ∷ ids) [] = none
  active_rows i (id ∷ ids) (url ∷ urls) = elim (active_rows (i + 1) ids urls) [
    | none ↦ none
    | some rows ↦
        some ((str "  " ++ show_nat i ++ str ": " ++ f.hex id ++ str " url=" ++ quote url) ∷ rows)
  ]

  unfoldable pub listed_rows : List Address → List Bytes → Option (List Bytes)
  unfolding active_rows
  listed_rows [] urls = some (str "  (none)" ∷ [])
  listed_rows (id ∷ ids) urls = active_rows 0 (id ∷ ids) urls

  unfoldable pub active_answer : Result (List Address × List Bytes) → Option (List Bytes)
  unfolding listed_rows
  active_answer (err e) = some ((str "getActiveTeeMachines ERROR: " ++ e) ∷ [])
  active_answer (ok (ids, urls)) = listed_rows ids urls

  -- The list of the flag -ext, where it is not negative.
  unfoldable pub active_lines : Machines → ℤ → Option (List Bytes)
  unfolding active_answer
  active_lines mm (negsuc n) = some []
  active_lines mm (pos ext) = elim (active_answer (mm.active ext)) [
    | none ↦ none
    | some rows ↦
        some ([] ∷ (str "=== Active TEEs for extensionId=" ++ show_nat ext ++ str " ===") ∷ rows)
  ]

  unfoldable pub machine_lines : Result Machine → List Bytes
  machine_lines (err e) = (str "  getTeeMachine ERROR: " ++ e) ∷ []
  machine_lines (ok m) =
      (str "  getTeeMachine: teeId="
        ++ f.hex m.tee_id
        ++ str " teeProxyId="
        ++ f.hex m.tee_proxy_id
        ++ str " url="
        ++ quote m.url)
      ∷ (if m.tee_id == 0 then str "  -> EMPTY/UNREGISTERED" ∷ [] else [])

  -- The body of the loop over the arguments.
  unfoldable pub tee_lines : Machines → Address → List Bytes
  unfolding machine_lines answer_line
  tee_lines mm id =
      [] ∷ (str "=== TEE " ++ f.hex id ++ str " ===") ∷ machine_lines (mm.machine id)
      ++ answer_line (str "getTeeMachineStatus") show_nat (mm.status id)
        ∷ answer_line (str "getTeeMachineOwner") f.hex (mm.owner id)
        ∷ answer_line (str "getExtensionId") show_nat (mm.extension_id id)
        ∷ answer_line (str "getLastStatusChangeTs") show_nat (mm.last_status_change id)
        ∷ answer_line (str "getInitialSigningPolicyId") show_nat (mm.initial_signing_policy_id id)
        ∷ []

  unfoldable pub argument_lines : Machines → List Bytes → List Bytes
  unfolding tee_lines
  argument_lines mm [] = []
  argument_lines mm (raw ∷ rest) = tee_lines mm (f.address_of raw) ++ argument_lines mm rest

  -- The command, from the errors of ethclient.Dial and of the binding, which end the process.
  unfoldable pub query_tee :
      (dial bind : Option Bytes) → Machines → ℤ → List Bytes → Result (Option (List Bytes))
  unfolding active_lines argument_lines
  query_tee (some e) bind mm ext args = err (str "dial: " ++ e)
  query_tee none (some e) mm ext args = err (str "bind: " ++ e)
  query_tee none none mm ext args = ok (elim (active_lines mm ext) [
    | none ↦ none
    | some rows ↦ some (rows ++ argument_lines mm args)
  ])
