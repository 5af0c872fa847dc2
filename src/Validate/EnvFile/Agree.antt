-- ===== src/Validate/EnvFile/Agree.antt =====
-- The two readers of extension.env in checks.go give the same values.
use fce_extension_scaffold.Base.{
  Bytes, str, beq, beq_iff, false, Option, none, some, List, [], ◌∷◌, ◌≡◌, refl, arith, scan_lines,
}
use fce_extension_scaffold.Validate.EnvFile.{
  Vars, put, put_entry, set_entry, entry_of, vars_from, read_vars, EnvIds, set_id, ids_from,
  parse_extension_env,
}

abbrev pub or_empty : Option Bytes → Bytes
or_empty none = []
or_empty (some v) = v

keys_differ : beq (str "EXTENSION_ID") (str "INSTRUCTION_SENDER") ≡ false
unfolding beq str
keys_differ = refl

-- The variables of one reader are the entries of the other.
abbrev Same : Vars → EnvIds → Type 0
Same vars ids =
    (ids.extension_id ≡ or_empty (vars (str "EXTENSION_ID")))
    × (ids.instruction_sender ≡ or_empty (vars (str "INSTRUCTION_SENDER")))

set_id-put :
    (vars : Vars) (ids : EnvIds) (k v : Bytes)
    → Same vars ids
    → Same (put vars k v) (set_id ids k v)
unfolding set_id
set_id-put vars ids k v h = ground (
  arith,
  keys_differ,
  beq_iff k (str "EXTENSION_ID"),
  beq_iff k (str "INSTRUCTION_SENDER"),
  beq_iff (str "EXTENSION_ID") k,
  beq_iff (str "INSTRUCTION_SENDER") k,
)

set_entry-put_entry :
    (vars : Vars) (ids : EnvIds) (entry : Option (Bytes × Bytes))
    → Same vars ids
    → Same (put_entry vars entry) (set_entry ids entry)
set_entry-put_entry vars ids none h = h
set_entry-put_entry vars ids (some (k, v)) h = set_id-put vars ids k v h

ids_from-vars_from :
    (vars : Vars) (ids : EnvIds) (texts : List Bytes)
    → Same vars ids
    → Same (vars_from vars texts) (ids_from ids texts)
unfolding vars_from ids_from
ids_from-vars_from vars ids [] h = h
ids_from-vars_from vars ids (text ∷ rest) h =
    ids_from-vars_from (put_entry vars (entry_of text)) (set_entry ids (entry_of text)) rest
      (set_entry-put_entry vars ids (entry_of text) h)

-- Whatever the file holds, `parseExtensionEnv` returns the values that `CheckExtensionEnvFormat` has
-- under the same keys, and the empty text for a key that is missing there.
pub parse_extension_env-read_vars :
    (file : Bytes)
    → let ids = parse_extension_env (some file) in
      (ids.extension_id ≡ or_empty (read_vars file (str "EXTENSION_ID")))
      × (ids.instruction_sender ≡ or_empty (read_vars file (str "INSTRUCTION_SENDER")))
unfolding parse_extension_env read_vars
parse_extension_env-read_vars file = ids_from-vars_from (λ k. none) _ (scan_lines file) (refl, refl)
