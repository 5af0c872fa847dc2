-- ===== src/Base/Strings/Scan.antt =====
-- bufio.Scanner reads a line of printable characters that ends with a newline.
use Prim.Native.Nat.{ℕ, ◌+◌, ◌<◌}
use mathlib.Core.Path.{◌≡◌, refl, ap, ◌∙◌}
use mathlib.Core.List.{[], ◌∷◌, ◌++◌, reverse, reverse_aux, reverse-reverse}
use native.Mathlib.Omega.{arith}
use fce_extension_scaffold.Base.Lists.{length, All}
use fce_extension_scaffold.Base.Text.{Bytes}
use fce_extension_scaffold.Base.Strings.{drop_return, scan_from, scan_lines, max_scan_token_size}
use fce_extension_scaffold.Base.Strings.Trim.{IsGraphic, All-reverse}

drop_return-graphic : (s : Bytes) → All IsGraphic s → drop_return s ≡ reverse s
unfolding drop_return
drop_return-graphic [] h = refl
drop_return-graphic (b ∷ bs) (g, h) = ground arith

scan_from-line :
    (buffer : ℕ) (cur line rest : Bytes)
    → All IsGraphic line
    → length cur + length line + 1 < buffer
    → scan_from buffer cur (line ++ 10 ∷ rest)
      ≡ drop_return (reverse_aux line cur) ∷ scan_from buffer [] rest
unfolding scan_from
scan_from-line buffer [] [] rest h l = refl
scan_from-line buffer (c ∷ cur) [] rest h l = refl
scan_from-line buffer [] (b ∷ bs) rest (g, h) l =
    ground (arith, scan_from-line buffer (b ∷ []) bs rest h (omega arith))
scan_from-line buffer (c ∷ cur) (b ∷ bs) rest (g, h) l =
    ground (arith, scan_from-line buffer (b ∷ c ∷ cur) bs rest h (omega arith))

-- Such a line is the first that is read; the rest is read after it.
pub scan_lines-line :
    (line rest : Bytes)
    → All IsGraphic line
    → length line + 1 < max_scan_token_size
    → scan_lines (line ++ 10 ∷ rest) ≡ line ∷ scan_lines rest
unfolding scan_lines
scan_lines-line line rest h l =
    scan_from-line max_scan_token_size [] line rest h (omega arith)
    ∙ ap (λ first. first ∷ scan_from max_scan_token_size [] rest)
        (drop_return-graphic (reverse line) (All-reverse line h) ∙ reverse-reverse line)
