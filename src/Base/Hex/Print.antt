-- ===== src/Base/Hex/Print.antt =====
-- The verb `%x` with a width and leading zeros, of a number that is not negative.
use Prim.Native.Nat.{ℕ, zero, suc, ◌+◌, ◌-◌, ◌/◌, ◌%◌, ◌^◌, ◌≤◌, ◌<◌}
use mathlib.Core.Path.{◌≡◌, refl, sym, ap, ◌∙◌}
use mathlib.Core.List.{[], ◌∷◌, ◌++◌}
use mathlib.Core.Logic.{inl, inr}
use native.Mathlib.Omega.{arith}
use native.Mathlib.Nat.{pow-suc}
use fce_extension_scaffold.Base.Tests.{ltb, Bool-cases, if◌then◌else◌}
use fce_extension_scaffold.Base.Lists.{length, replicate}
use fce_extension_scaffold.Base.Text.{Bytes, str}
use fce_extension_scaffold.Base.Hex.{hex_char}

-- Each round takes one digit, so the number is fuel enough.
unfoldable pub hex_digits_from : ℕ → ℕ → Bytes → Bytes
unfolding hex_char
hex_digits_from zero n acc = acc
hex_digits_from (suc f) n acc =
    let rest = hex_digits_from f (n / 16) (hex_char (n % 16) ∷ acc) in
    if ltb n 16 then hex_char n ∷ acc else rest

unfoldable pub pad_zeros : ℕ → Bytes → Bytes
pad_zeros width s = replicate (width - length s) b'0' ++ s

-- `%0wx`.
unfoldable pub show_hex : (width : ℕ) → ℕ → Bytes
unfolding hex_digits_from pad_zeros
show_hex width n = pad_zeros width (hex_digits_from (suc n) n [])

-- Exactly so many digits.
unfoldable pub fixed_hex : ℕ → ℕ → Bytes → Bytes
unfolding hex_char
fixed_hex zero n acc = acc
fixed_hex (suc w) n acc = fixed_hex w (n / 16) (hex_char (n % 16) ∷ acc)

replicate_snoc : (w c : ℕ) (s : Bytes) → replicate w c ++ c ∷ s ≡ c ∷ replicate w c ++ s
replicate_snoc zero c s = refl
replicate_snoc (suc w) c s = ap (λ t. c ∷ t) (replicate_snoc w c s)

fixed_hex_zero : (w : ℕ) (acc : Bytes) → fixed_hex w 0 acc ≡ replicate w b'0' ++ acc
unfolding fixed_hex
fixed_hex_zero zero acc = refl
fixed_hex_zero (suc w) acc = fixed_hex_zero w (b'0' ∷ acc) ∙ replicate_snoc w b'0' acc

pad_exact : (m w : ℕ) (s : Bytes) → m ≡ w + length s → pad_zeros m s ≡ replicate w b'0' ++ s
unfolding pad_zeros
pad_exact m w s e =
    let fewer : m - length s ≡ w = omega arith in ap (λ k. replicate k b'0' ++ s) fewer

-- A number of two digits or more.
wider :
    (w f n : ℕ) (acc : Bytes)
    → n < 16 ^ suc w
    → 16 ≤ n
    → ((w' : ℕ)
        → n / 16 < 16 ^ suc w'
        → pad_zeros
            (suc w' + length (hex_char (n % 16) ∷ acc))
            (hex_digits_from f (n / 16) (hex_char (n % 16) ∷ acc))
          ≡ fixed_hex (suc w') (n / 16) (hex_char (n % 16) ∷ acc))
    → pad_zeros (suc w + length acc) (hex_digits_from f (n / 16) (hex_char (n % 16) ∷ acc))
      ≡ fixed_hex w (n / 16) (hex_char (n % 16) ∷ acc)
wider zero f n acc k large ih = absurd (omega arith)
wider (suc w) f n acc k large ih =
    let same : suc (suc w) + length acc ≡ suc w + length (hex_char (n % 16) ∷ acc) = omega arith in
    ap (λ m. pad_zeros m (hex_digits_from f (n / 16) (hex_char (n % 16) ∷ acc))) same
    ∙ ih w (omega (arith, pow-suc 16 (suc w)))

pad_digits :
    (w f n : ℕ) (acc : Bytes)
    → n < f
    → n < 16 ^ suc w
    → pad_zeros (suc w + length acc) (hex_digits_from f n acc) ≡ fixed_hex (suc w) n acc
unfolding hex_digits_from fixed_hex
pad_digits w zero n acc h k = absurd (omega arith)
pad_digits w (suc f) n acc h k = elim (Bool-cases (ltb n 16)) [
  | inl small ↦
      let top : n / 16 ≡ 0 = ground arith in
      let low : n % 16 ≡ n = ground arith in
      rw (small, top, low)
        (pad_exact (suc w + length acc) w (hex_char n ∷ acc) (omega arith)
          ∙ sym (fixed_hex_zero w (hex_char n ∷ acc)))
  | inr large ↦ rw large (
      wider w f n acc k (ground arith)
        (λ w' l. pad_digits w' f (n / 16) (hex_char (n % 16) ∷ acc) (ground arith) l))
]

-- A number of at most so many digits is printed with exactly so many.
pub show_hex-fixed_hex : (w n : ℕ) → n < 16 ^ suc w → show_hex (suc w) n ≡ fixed_hex (suc w) n []
unfolding show_hex
show_hex-fixed_hex w n h =
    let same : suc w ≡ suc w + length {A = ℕ} [] = omega arith in
    ap (λ m. pad_zeros m (hex_digits_from (suc n) n [])) same
    ∙ pad_digits w (suc n) n [] (omega arith) h

show_hex_test : show_hex 4 0xbeef0 ≡ str "beef0"
unfolding show_hex str
show_hex_test = refl

show_hex_pads : show_hex 6 0xa0 ≡ str "0000a0"
unfolding show_hex str
show_hex_pads = refl
