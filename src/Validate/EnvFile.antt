-- ===== src/Validate/EnvFile.antt =====
-- The file config/extension.env: the formats of its values, and the two loops of
-- tools/pkg/validate/checks.go that read it.
pub mod Agree
pub mod Written
use fce_extension_scaffold.Base.{
  ℕ, zero, suc, Bytes, str, is_empty, beq, trim_space, split_eq, starts_with_hash, scan_lines, Bool,
  true, false, ◌&&◌, ◌||◌, ◌==◌, leb, if◌then◌else◌, Option, none, some, List, [], ◌∷◌,
}

abbrev pub is_hex_digit : ℕ → Bool
is_hex_digit b =
    (leb b'0' b && leb b b'9') || (leb b'a' b && leb b b'f') || (leb b'A' b && leb b b'F')

-- Exactly `n` hexadecimal digits.
unfoldable pub is_hex : ℕ → Bytes → Bool
is_hex zero [] = true
is_hex zero (b ∷ bs) = false
is_hex (suc n) [] = false
is_hex (suc n) (b ∷ bs) = is_hex_digit b && is_hex n bs

-- `^0x[0-9a-fA-F]{n}$`.
unfoldable pub is_prefixed_hex : ℕ → Bytes → Bool
unfolding is_hex
is_prefixed_hex n [] = false
is_prefixed_hex n (z ∷ []) = false
is_prefixed_hex n (z ∷ x ∷ bs) = (z == b'0') && (x == b'x') && is_hex n bs

-- `addressRegex` and `extensionIDRegex`.
unfoldable pub is_address : Bytes → Bool
unfolding is_prefixed_hex
is_address s = is_prefixed_hex 40 s

unfoldable pub is_extension_id : Bytes → Bool
unfolding is_prefixed_hex
is_extension_id s = is_prefixed_hex 64 s

-- The key and the value of a line, if it has any: the body of both loops.
unfoldable pub entry_of : Bytes → Option (Bytes × Bytes)
entry_of text =
    let line = trim_space text in
    let entry : Option (Bytes × Bytes) = elim (split_eq line) [
      | none ↦ none
      | some (k, v) ↦ some (trim_space k, trim_space v)
    ] in
    if is_empty line || starts_with_hash line then none else entry

-- The map `vars` of `CheckExtensionEnvFormat`.
abbrev pub Vars : Type 0
Vars = Bytes → Option Bytes

abbrev pub put : Vars → Bytes → Bytes → Vars
put vars key val k = if beq k key then some val else vars k

abbrev pub put_entry : Vars → Option (Bytes × Bytes) → Vars
put_entry vars none = vars
put_entry vars (some (k, v)) = put vars k v

unfoldable pub vars_from : Vars → List Bytes → Vars
vars_from vars [] = vars
vars_from vars (text ∷ rest) = vars_from (put_entry vars (entry_of text)) rest

unfoldable pub read_vars : Bytes → Vars
unfolding vars_from
read_vars file = vars_from (λ k. none) (scan_lines file)

-- The two variables of `parseExtensionEnv`.
pub record EnvIds : Type 0 where
  pub extension_id : Bytes
  pub instruction_sender : Bytes

unfoldable pub set_id : EnvIds → Bytes → Bytes → EnvIds
set_id ids key val =
    if beq key (str "EXTENSION_ID")
    then record ids { extension_id = val }
    else if beq key (str "INSTRUCTION_SENDER")
    then record ids { instruction_sender = val }
    else ids

abbrev pub set_entry : EnvIds → Option (Bytes × Bytes) → EnvIds
set_entry ids none = ids
set_entry ids (some (k, v)) = set_id ids k v

unfoldable pub ids_from : EnvIds → List Bytes → EnvIds
ids_from ids [] = ids
ids_from ids (text ∷ rest) = ids_from (set_entry ids (entry_of text)) rest

-- `parseExtensionEnv`, from what `os.Open` gives; it has no error to return.
unfoldable pub parse_extension_env : Option Bytes → EnvIds
unfolding ids_from
parse_extension_env none = record { extension_id = []; instruction_sender = [] }
parse_extension_env (some file) =
    ids_from (record { extension_id = []; instruction_sender = [] }) (scan_lines file)
