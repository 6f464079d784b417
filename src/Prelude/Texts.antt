-- ===== src/Prelude/Texts.antt =====
-- The tests that the program makes of texts: `strings.TrimSpace(s) == ""` and `unicode.IsControl`.
use Prim.Native.Nat.{ℕ}
use Prim.Native.Char.{code}
use Prim.Native.String.{String}
use mathlib.Core.Path.{◌≡◌, refl, ap}
use mathlib.Core.Bool.{Bool, true, false, ◌&&◌, ◌||◌}
use mathlib.Core.Logic.{inl, inr}
use mathlib.Core.List.{List, [], ◌∷◌}
use text.Mathlib.Text.{◌==◌ as str_eq}
use text.Mathlib.TextEquality.{eq_iff}
use tumblr_dms.Prelude.Tests.{leb, ◌==◌, Bool-cases}
use tumblr_dms.Prelude.Lists.{all}

-- The code points of a text.
abbrev pub codes : String → List ℕ
codes String.[] = []
codes (String.◌∷◌ c s) = code c ∷ codes s

-- `unicode.IsSpace`
unfoldable pub is_space : ℕ → Bool
is_space c =
    (leb 0x09 c && leb c 0x0d)
    || c == 0x20
    || c == 0x85
    || c == 0xa0
    || c == 0x1680
    || (leb 0x2000 c && leb c 0x200a)
    || c == 0x2028
    || c == 0x2029
    || c == 0x202f
    || c == 0x205f
    || c == 0x3000

-- `unicode.IsControl`
unfoldable pub is_control : ℕ → Bool
is_control c = leb c 0x1f || (leb 0x7f c && leb c 0x9f)

-- `strings.TrimSpace(s) == ""`
unfoldable pub is_blank : String → Bool
unfolding is_space
is_blank s = all is_space (codes s)

is_blank-empty : is_blank "" ≡ true
unfolding is_blank
is_blank-empty = refl

-- A text that is not blank is not empty.
pub eq-empty_of_not_blank : (s : String) → is_blank s ≡ false → str_eq s "" ≡ false
eq-empty_of_not_blank s h = elim (Bool-cases (str_eq s "")) [
  | inl e ↦ cc (h, ap is_blank ((eq_iff s "").0 e), is_blank-empty)
  | inr e ↦ e
]
