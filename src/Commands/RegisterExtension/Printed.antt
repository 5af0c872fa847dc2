-- ===== src/Commands/RegisterExtension/Printed.antt =====
-- The printed id is what verify-deploy reads: `extensionIDRegex` takes it, and its number is the id.
use fce_extension_scaffold.Base.{
  ℕ, zero, suc, ◌+◌, ◌/◌, ◌%◌, ◌^◌, ◌<◌, Bytes, str, true, [], ◌∷◌, ◌≡◌, refl, sym, ap, ◌∙◌, arith,
}
use native.Mathlib.Nat.{pow-suc}
use fce_extension_scaffold.Base.Hex.{hex_char}
use fce_extension_scaffold.Base.Hex.Print.{fixed_hex, show_hex-fixed_hex}
use fce_extension_scaffold.Validate.EnvFile.{is_hex_digit, is_hex, is_prefixed_hex, is_extension_id}
use fce_extension_scaffold.Validate.Checks.Register.{hex_digit, hex_from, extension_number}
use fce_extension_scaffold.Commands.RegisterExtension.{extension_id_text}

hex_char-is_hex_digit : (d : ℕ) → d < 16 → is_hex_digit (hex_char d) ≡ true
unfolding hex_char
hex_char-is_hex_digit d h = ground arith

hex_digit-hex_char : (d : ℕ) → d < 16 → hex_digit (hex_char d) ≡ d
unfolding hex_char hex_digit
hex_digit-hex_char d h = ground arith

is_hex-digit :
    (k d : ℕ) (acc : Bytes)
    → d < 16
    → is_hex k acc ≡ true
    → is_hex (suc k) (hex_char d ∷ acc) ≡ true
unfolding is_hex
is_hex-digit k d acc l h = rw (hex_char-is_hex_digit d l) h

fixed_hex-is_hex :
    (w k m n : ℕ) (acc : Bytes)
    → w + k ≡ m
    → is_hex k acc ≡ true
    → is_hex m (fixed_hex w n acc) ≡ true
unfolding fixed_hex
fixed_hex-is_hex zero k m n acc e h =
    let same : k ≡ m = omega arith in ap (λ j. is_hex j acc) (sym same) ∙ h
fixed_hex-is_hex (suc w) k m n acc e h =
    fixed_hex-is_hex w (suc k) m (n / 16) (hex_char (n % 16) ∷ acc) (omega arith)
      (is_hex-digit k (n % 16) acc (omega arith) h)

fixed_hex-hex_from :
    (w n : ℕ) (acc : Bytes) → n < 16 ^ w → hex_from 0 (fixed_hex w n acc) ≡ hex_from n acc
unfolding fixed_hex hex_from
fixed_hex-hex_from zero n acc h = ap (λ j. hex_from j acc) (omega arith)
fixed_hex-hex_from (suc w) n acc h =
    fixed_hex-hex_from w (n / 16) (hex_char (n % 16) ∷ acc) (omega (arith, pow-suc 16 w))
    ∙ ap (λ j. hex_from j acc) (omega (arith, hex_digit-hex_char (n % 16)))

-- The id of an extension, a uint256, is printed as a text that the format of EXTENSION_ID accepts, and
-- verify-deploy reads the same id back from it.
pub extension_number-extension_id_text :
    (id : ℕ)
    → id < 2 ^ 256
    → (is_extension_id (extension_id_text id) ≡ true)
      × (extension_number (extension_id_text id) ≡ id)
unfolding extension_id_text is_extension_id is_prefixed_hex extension_number str
extension_number-extension_id_text id h =
    let printed = show_hex-fixed_hex 63 id h in
    (
      ap (is_hex 64) printed ∙ fixed_hex-is_hex 64 0 64 id [] refl refl,
      ap (hex_from 0) printed ∙ fixed_hex-hex_from 64 id [] h,
    )
