-- ===== src/Tests/Names.antt =====
-- Display names.
use Prim.Native.String.{String}
use Prim.Native.Char.{code}
use androix_xcb_libxcb.Base.{ℕ, ◌≡◌, refl, true, List, [], ◌∷◌, none, some, arith}
use androix_xcb_libxcb.Util.Popcount.{xcb_popcount}
use androix_xcb_libxcb.Util.Popcount.Laws.{xcb_popcount-ones}
use androix_xcb_libxcb.Util.Display.{parse_display}
use androix_xcb_libxcb.Util.Display.Laws.{Number, parse_display-display_name}

abbrev codes : String → List ℕ
codes String.[] = []
codes (String.◌∷◌ c s) = code c ∷ codes s

abbrev twelve : Number
twelve = record { first = b'1'; more = b'2' ∷ []; digits = (refl, (refl, tt)); fits = omega arith }

abbrev three : Number
three = record { first = b'3'; more = []; digits = (refl, tt); fits = omega arith }

parse_display-display_name_example :
    parse_display (some (codes "tcp/box::12.3")) none true true
    ≡ some (record { protocol = some (codes "tcp"); host = codes "box:"; display = 12; screen = 3 })
parse_display-display_name_example =
    parse_display-display_name (some (codes "tcp")) (codes "box:") twelve (some three) none
      (refl, (refl, (refl, (refl, tt))))

xcb_popcount-ones_example : xcb_popcount 0x80000107 ≡ 5
xcb_popcount-ones_example = xcb_popcount-ones 0x80000107 (omega arith)
