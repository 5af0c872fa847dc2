-- ===== src/Base/Hex.antt =====
-- What the program uses of Go's package encoding/hex, and strings.TrimPrefix at "0x".
pub mod Print
use Prim.Native.Nat.{ℕ, ◌+◌, ◌-◌, ◌*◌, ◌/◌, ◌%◌, ◌<◌}
use mathlib.Core.Path.{◌≡◌, refl}
use mathlib.Core.Bool.{◌&&◌}
use mathlib.Core.Option.{Option, none, some}
use mathlib.Core.List.{[], ◌∷◌}
use native.Mathlib.Omega.{arith}
use fce_extension_scaffold.Base.Tests.{leb, ltb, ◌==◌, if◌then◌else◌}
use fce_extension_scaffold.Base.Lists.{All}
use fce_extension_scaffold.Base.Text.{Bytes}

unfoldable pub hex_char : ℕ → ℕ
hex_char d = if ltb d 10 then 48 + d else 87 + d

unfoldable pub hex_value : ℕ → Option ℕ
hex_value b =
    if leb b'0' b && leb b b'9'
    then some (b - 48)
    else if leb b'a' b && leb b b'f'
    then some (b - 87)
    else if leb b'A' b && leb b b'F'
    then some (b - 55)
    else none

-- `hex.EncodeToString`.
unfoldable pub hex_encode : Bytes → Bytes
unfolding hex_char
hex_encode [] = []
hex_encode (b ∷ bs) = hex_char (b / 16) ∷ hex_char (b % 16) ∷ hex_encode bs

abbrev pub join_digits : Option ℕ → Option ℕ → Option Bytes → Option Bytes
join_digits (some h) (some l) (some bs) = some ((h * 16 + l) ∷ bs)
join_digits _ _ _ = none

-- `hex.DecodeString`: `none` for a text of odd length or with another character.
unfoldable pub hex_decode : Bytes → Option Bytes
unfolding hex_value
hex_decode [] = some []
hex_decode (h ∷ []) = none
hex_decode (h ∷ l ∷ rest) = join_digits (hex_value h) (hex_value l) (hex_decode rest)

hex_value-hex_char : (d : ℕ) → d < 16 → hex_value (hex_char d) ≡ some d
unfolding hex_value hex_char
hex_value-hex_char d h = ground arith

abbrev pub IsByte : ℕ → Type 0
IsByte b = b < 256

pub hex_decode-hex_encode : (bs : Bytes) → All IsByte bs → hex_decode (hex_encode bs) ≡ some bs
unfolding hex_decode hex_encode
hex_decode-hex_encode [] h = refl
hex_decode-hex_encode (b ∷ bs) (p, h) =
    ground
      (arith, hex_value-hex_char (b / 16), hex_value-hex_char (b % 16), hex_decode-hex_encode bs h)

-- `strings.TrimPrefix(s, "0x")`.
unfoldable pub trim_0x : Bytes → Bytes
trim_0x [] = []
trim_0x (z ∷ []) = z ∷ []
trim_0x (z ∷ x ∷ rest) = if (z == b'0') && (x == b'x') then rest else z ∷ x ∷ rest

-- An encoded text begins with no "0x".
pub trim_0x-hex_encode : (bs : Bytes) → All IsByte bs → trim_0x (hex_encode bs) ≡ hex_encode bs
unfolding trim_0x hex_encode
trim_0x-hex_encode [] h = refl
trim_0x-hex_encode (b ∷ bs) (p, h) = ground arith
