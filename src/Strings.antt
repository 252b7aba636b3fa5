-- ===== src/Strings.antt =====
-- The functions of Go's packages strings and unicode that the program calls, over code points.
use mathlib.Core.List.{reverse}
use xtemplate.Prelude.{
  ◌≡◌, refl, ℕ, suc, Bool, true, false, ◌||◌, ◌&&◌, Option, none, some, List, [], ◌∷◌, Text, codes,
  ◌==◌, leb, if◌then◌else◌,
}

-- `unicode.IsSpace`: the code points with the property White_Space
unfoldable pub is_space : ℕ → Bool
is_space c =
    (leb 9 c && leb c 13)
    || c == 32
    || c == 0x85
    || c == 0xa0
    || c == 0x1680
    || (leb 0x2000 c && leb c 0x200a)
    || c == 0x2028
    || c == 0x2029
    || c == 0x202f
    || c == 0x205f
    || c == 0x3000

unfoldable pub trim_left : Text → Text
unfolding is_space
trim_left [] = []
trim_left (c ∷ s) = let rest = trim_left s in if is_space c then rest else c ∷ s

unfoldable pub trim_space : Text → Text
unfolding trim_left
trim_space s = reverse (trim_left (reverse (trim_left s)))

-- `strings.CutPrefix(s, p)`, with the prefix first
unfoldable pub strip_prefix : Text → Text → Option Text
strip_prefix [] s = some s
strip_prefix (p ∷ ps) [] = none
strip_prefix (p ∷ ps) (c ∷ s) = if p == c then strip_prefix ps s else none

unfoldable pub has_prefix : Text → Text → Bool
unfolding strip_prefix
has_prefix s p = elim (strip_prefix p s) [ none ↦ false | some _ ↦ true ]

abbrev or_whole : Text → Option Text → Text
or_whole s none = s
or_whole s (some r) = r

unfoldable pub trim_prefix : Text → Text → Text
unfolding strip_prefix
trim_prefix s p = or_whole s (strip_prefix p s)

unfoldable pub has_suffix : Text → Text → Bool
unfolding has_prefix
has_suffix s p = has_prefix (reverse s) (reverse p)

unfoldable pub trim_suffix : Text → Text → Text
unfolding strip_prefix
trim_suffix s p =
    or_whole s
      (elim (strip_prefix (reverse p) (reverse s)) [ none ↦ none | some r ↦ some (reverse r) ])

abbrev pub cons_head : ℕ → List Text → List Text
cons_head c [] = (c ∷ []) ∷ []
cons_head c (w ∷ ws) = (c ∷ w) ∷ ws

-- `strings.Split(s, sep)` at a separator of one code point
unfoldable pub split : ℕ → Text → List Text
split sep [] = [] ∷ []
split sep (c ∷ s) = let rest = split sep s in if c == sep then [] ∷ rest else cons_head c rest

-- `strings.Index(s, sub)`
unfoldable pub index : Text → Text → Option ℕ
unfolding has_prefix
index [] sub = if has_prefix [] sub then some 0 else none
index (c ∷ s) sub =
    let rest = index s sub in
    if has_prefix (c ∷ s) sub then some 0 else elim rest [ none ↦ none | some i ↦ some (suc i) ]

strings_run :
    (trim_space (codes " a b  ") ≡ codes "a b")
    × (split b',' (codes "a,,b") ≡ codes "a" ∷ [] ∷ codes "b" ∷ [])
    × (index (codes "chicken") (codes "ken") ≡ some 4)
    × (trim_suffix (codes "a.html") (codes ".html") ≡ codes "a")
unfolding trim_space split index trim_suffix
strings_run = (refl, refl, refl, refl)
