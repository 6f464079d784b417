-- ===== src/Prelude/Maps.antt =====
-- Maps with texts as keys, as association lists.
use Prim.Native.String.{String}
use mathlib.Core.Bool.{Bool}
use mathlib.Core.Option.{Option, none, some}
use mathlib.Core.List.{List, [], ◌∷◌}
use text.Mathlib.Text.{◌==◌ as str_eq}
use tumblr_dms.Prelude.Tests.{if◌then◌else◌}
use tumblr_dms.Prelude.Lists.{any}

-- `m[key]` of a map, with its second result.
abbrev pub lookup {ℓ} : {A : Type ℓ} → String → List (String × A) → Option A
lookup k [] = none
lookup k ((j, a) ∷ rest) = if str_eq j k then some a else lookup k rest

-- `m[key] = a`
abbrev pub insert {ℓ} : {A : Type ℓ} → String → A → List (String × A) → List (String × A)
insert k a [] = (k, a) ∷ []
insert k a ((j, b) ∷ rest) = if str_eq j k then (k, a) ∷ rest else (j, b) ∷ insert k a rest

-- A set of texts, map[string]struct{}.
abbrev pub has : String → List String → Bool
has k xs = any (str_eq k) xs
