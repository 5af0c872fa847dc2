-- ===== src/Validate/EnvFile/Written.antt =====
-- The file extension.env as scripts/pre-build.sh writes it, and what checks.go reads from it.
use fce_extension_scaffold.Base.{
  ℕ, zero, suc, ◌+◌, ◌<◌, Bytes, str, true, false, if◌then◌else◌, Bool-cases, Option, none, some,
  is_empty, beq, max_scan_token_size, starts_with_hash, [], ◌∷◌, ◌++◌, ◌≡◌, refl, sym, ap, ◌∙◌, inl,
  inr, arith, length, All, All-append, scan_lines, trim_space, split_eq,
}
use fce_extension_scaffold.Base.Strings.Trim.{IsGraphic, trim_space-graphic}
use fce_extension_scaffold.Base.Strings.Scan.{scan_lines-line}
use fce_extension_scaffold.Validate.EnvFile.{
  is_hex, is_prefixed_hex, is_address, is_extension_id, entry_of, set_id, ids_from, vars_from,
  read_vars, parse_extension_env,
}

-- The text of the file.
unfoldable pub config_text : (id sender : Bytes) → Bytes
config_text id sender =
    str "# Auto-generated by pre-build.sh — do not edit manually\n"
    ++ ((str "EXTENSION_ID=" ++ id) ++ 10 ∷ ((str "INSTRUCTION_SENDER=" ++ sender) ++ 10 ∷ []))

-- What the script writes, from the last lines that deploy-contract and register-extension print; it
-- stops at a line that has not the format.
unfoldable pub written_config : (sender id : Bytes) → Option Bytes
unfolding config_text
written_config sender id =
    if is_address sender
    then (if is_extension_id id then some (config_text id sender) else none)
    else none

is_hex-IsGraphic : (n : ℕ) (s : Bytes) → is_hex n s ≡ true → All IsGraphic s × (length s ≡ n)
unfolding is_hex
is_hex-IsGraphic zero [] h = (tt, refl)
is_hex-IsGraphic zero (b ∷ bs) h = cc
is_hex-IsGraphic (suc n) [] h = cc
is_hex-IsGraphic (suc n) (b ∷ bs) h = ground (arith, is_hex-IsGraphic n bs)

is_prefixed_hex-IsGraphic :
    (n : ℕ) (s : Bytes) → is_prefixed_hex n s ≡ true → All IsGraphic s × (length s ≡ suc (suc n))
unfolding is_prefixed_hex
is_prefixed_hex-IsGraphic n [] h = cc
is_prefixed_hex-IsGraphic n (z ∷ []) h = cc
is_prefixed_hex-IsGraphic n (z ∷ x ∷ bs) h = ground (arith, is_hex-IsGraphic n bs)

is_address-IsGraphic : (s : Bytes) → is_address s ≡ true → All IsGraphic s × (length s ≡ 42)
unfolding is_address
is_address-IsGraphic s h = is_prefixed_hex-IsGraphic 40 s h

is_extension_id-IsGraphic :
    (s : Bytes) → is_extension_id s ≡ true → All IsGraphic s × (length s ≡ 66)
unfolding is_extension_id
is_extension_id-IsGraphic s h = is_prefixed_hex-IsGraphic 64 s h

-- A line of printable characters is read as what SplitN gives.
entry_of-line :
    (line k v : Bytes)
    → All IsGraphic line
    → All IsGraphic k
    → All IsGraphic v
    → is_empty line ≡ false
    → starts_with_hash line ≡ false
    → split_eq line ≡ some (k, v)
    → entry_of line ≡ some (k, v)
unfolding entry_of
entry_of-line line k v g gk gv some_text no_hash e = ground (
  arith,
  e,
  some_text,
  no_hash,
  trim_space-graphic line g,
  trim_space-graphic k gk,
  trim_space-graphic v gv,
)

module _ (v : Bytes) (h : All IsGraphic v) where
  id_line-IsGraphic : All IsGraphic (str "EXTENSION_ID=" ++ v)
  unfolding str
  id_line-IsGraphic = All-append IsGraphic (str "EXTENSION_ID=") v (omega arith) h

  sender_line-IsGraphic : All IsGraphic (str "INSTRUCTION_SENDER=" ++ v)
  unfolding str
  sender_line-IsGraphic = All-append IsGraphic (str "INSTRUCTION_SENDER=") v (omega arith) h

  entry_of-id_line : entry_of (str "EXTENSION_ID=" ++ v) ≡ some (str "EXTENSION_ID", v)
  unfolding str split_eq
  entry_of-id_line =
      entry_of-line (str "EXTENSION_ID=" ++ v) (str "EXTENSION_ID") v id_line-IsGraphic
        (omega arith) h refl refl refl

  entry_of-sender_line :
      entry_of (str "INSTRUCTION_SENDER=" ++ v) ≡ some (str "INSTRUCTION_SENDER", v)
  unfolding str split_eq
  entry_of-sender_line =
      entry_of-line (str "INSTRUCTION_SENDER=" ++ v) (str "INSTRUCTION_SENDER") v
        sender_line-IsGraphic (omega arith) h refl refl refl

abbrev comment : Bytes
comment = str "# Auto-generated by pre-build.sh — do not edit manually"

scan_lines-comment :
    (rest : Bytes)
    → scan_lines (str "# Auto-generated by pre-build.sh — do not edit manually\n" ++ rest)
      ≡ comment ∷ scan_lines rest
unfolding scan_lines str
scan_lines-comment rest = refl

comment_entry : entry_of comment ≡ none
unfolding entry_of str trim_space
comment_entry = refl

set_both :
    (id sender : Bytes)
    → set_id
        (set_id (record { extension_id = []; instruction_sender = [] }) (str "EXTENSION_ID") id)
        (str "INSTRUCTION_SENDER")
        sender
      ≡ record { extension_id = id; instruction_sender = sender }
unfolding set_id str beq
set_both id sender = refl

scan_lines-nil : scan_lines [] ≡ []
unfolding scan_lines
scan_lines-nil = refl

module _ (v : Bytes) (l : length v < 100) where
  id_line-short : length (str "EXTENSION_ID=" ++ v) + 1 < max_scan_token_size
  unfolding str
  id_line-short = omega arith

  sender_line-short : length (str "INSTRUCTION_SENDER=" ++ v) + 1 < max_scan_token_size
  unfolding str
  sender_line-short = omega arith

module _ (id sender : Bytes) (gi : All IsGraphic id) (gs : All IsGraphic sender)
    (li : length id < 100) (ls : length sender < 100) where
  -- The lines of the file.
  scan_lines-config_text :
      scan_lines (config_text id sender)
      ≡ comment ∷ (str "EXTENSION_ID=" ++ id) ∷ (str "INSTRUCTION_SENDER=" ++ sender) ∷ []
  unfolding config_text
  scan_lines-config_text =
      scan_lines-comment _
      ∙ ap (λ rest. comment ∷ rest)
          (scan_lines-line (str "EXTENSION_ID=" ++ id) _ (id_line-IsGraphic id gi)
              (id_line-short id li)
            ∙ ap (λ rest. (str "EXTENSION_ID=" ++ id) ∷ rest)
                (scan_lines-line (str "INSTRUCTION_SENDER=" ++ sender) []
                    (sender_line-IsGraphic sender gs) (sender_line-short sender ls)
                  ∙ ap (λ rest. (str "INSTRUCTION_SENDER=" ++ sender) ∷ rest) scan_lines-nil))

  parse_extension_env-config_text :
      parse_extension_env (some (config_text id sender))
      ≡ record { extension_id = id; instruction_sender = sender }
  unfolding parse_extension_env ids_from
  parse_extension_env-config_text =
      ap (ids_from (record { extension_id = []; instruction_sender = [] })) scan_lines-config_text
      ∙ entries
    where
      entries :
          ids_from
            (record { extension_id = []; instruction_sender = [] })
            (comment ∷ (str "EXTENSION_ID=" ++ id) ∷ (str "INSTRUCTION_SENDER=" ++ sender) ∷ [])
          ≡ record { extension_id = id; instruction_sender = sender }
      entries =
          rw (comment_entry, entry_of-id_line id gi, entry_of-sender_line sender gs)
            (set_both id sender)

  read_vars-config_text :
      (read_vars (config_text id sender) (str "EXTENSION_ID") ≡ some id)
      × (read_vars (config_text id sender) (str "INSTRUCTION_SENDER") ≡ some sender)
  unfolding read_vars vars_from str beq
  read_vars-config_text =
      rw scan_lines-config_text
        (rw (comment_entry, entry_of-id_line id gi, entry_of-sender_line sender gs) (refl, refl))

-- The text that the script writes has the values that it had before, in the eyes of both readers.
pub written_config-values :
    (sender id file : Bytes)
    → written_config sender id ≡ some file
    → (is_address sender ≡ true)
      × (is_extension_id id ≡ true)
      × (parse_extension_env (some file)
          ≡ record { extension_id = id; instruction_sender = sender })
      × (read_vars file (str "EXTENSION_ID") ≡ some id)
      × (read_vars file (str "INSTRUCTION_SENDER") ≡ some sender)
unfolding written_config
written_config-values sender id file h = elim (Bool-cases (is_address sender)) [
  | inr no_address ↦ ground arith
  | inl address ↦ elim (Bool-cases (is_extension_id id)) [
    | inr no_id ↦ ground arith
    | inl valid ↦
        let (gs, ls) = is_address-IsGraphic sender address in
        let (gi, li) = is_extension_id-IsGraphic id valid in
        let text : config_text id sender ≡ file = ground arith in
        let (by_id, by_sender) =
          read_vars-config_text id sender gi gs (omega arith) (omega arith) in
        (
          address,
          valid,
          ap (λ t. parse_extension_env (some t)) (sym text)
              ∙ parse_extension_env-config_text id sender gi gs (omega arith) (omega arith),
          ap (λ t. read_vars t (str "EXTENSION_ID")) (sym text) ∙ by_id,
          ap (λ t. read_vars t (str "INSTRUCTION_SENDER")) (sym text) ∙ by_sender,
        )
  ]
]
