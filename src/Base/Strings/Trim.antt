-- ===== src/Base/Strings/Trim.antt =====
-- Texts that TrimSpace leaves alone.
use Prim.Native.Nat.{ℕ, ◌≤◌, ◌<◌}
use mathlib.Core.Path.{◌≡◌, refl, ap, ◌∙◌}
use mathlib.Core.List.{[], ◌∷◌, reverse, reverse-append, reverse-reverse}
use native.Mathlib.Omega.{arith}
use fce_extension_scaffold.Base.Lists.{All, All-append}
use fce_extension_scaffold.Base.Text.{Bytes}
use fce_extension_scaffold.Base.Strings.{space_size, space_size_back, trim_from, trim_space}

-- A printable ASCII character that is no blank.
abbrev pub IsGraphic : ℕ → Type 0
IsGraphic b = (33 ≤ b) × (b < 127)

space_size_graphic : (b : ℕ) (bs : Bytes) → IsGraphic b → space_size (b ∷ bs) ≡ 0
unfolding space_size
space_size_graphic b [] h = ground arith
space_size_graphic b (c ∷ []) h = ground arith
space_size_graphic b (c ∷ d ∷ bs) h = ground arith

space_size_back_graphic : (b : ℕ) (bs : Bytes) → IsGraphic b → space_size_back (b ∷ bs) ≡ 0
unfolding space_size_back
space_size_back_graphic b [] h = ground arith
space_size_back_graphic b (c ∷ []) h = ground arith
space_size_back_graphic b (c ∷ d ∷ bs) h = ground arith

trim_from_graphic :
    (size : Bytes → ℕ) (s : Bytes)
    → ((b : ℕ) (bs : Bytes) → IsGraphic b → size (b ∷ bs) ≡ 0)
    → All IsGraphic s
    → trim_from size 0 s ≡ s
unfolding trim_from
trim_from_graphic size [] none h = refl
trim_from_graphic size (b ∷ bs) none h = rw (none b bs h.0, trim_from)

pub All-reverse : (s : Bytes) → All IsGraphic s → All IsGraphic (reverse s)
All-reverse [] h = tt
All-reverse (b ∷ bs) (p, h) =
    rw (reverse-append (b ∷ []) bs)
      (All-append IsGraphic (reverse bs) (b ∷ []) (All-reverse bs h) (p, tt))

pub trim_space-graphic : (s : Bytes) → All IsGraphic s → trim_space s ≡ s
unfolding trim_space
trim_space-graphic s h =
    ap (λ t. reverse (trim_from space_size_back 0 (reverse t)))
      (trim_from_graphic space_size s space_size_graphic h)
    ∙ ap reverse
        (trim_from_graphic space_size_back (reverse s) space_size_back_graphic (All-reverse s h))
    ∙ reverse-reverse s
