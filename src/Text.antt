-- ===== src/Text.antt =====
-- Texts: equality, and the blank test that the handlers make on every field.
use Prim.Native.Char.{code}
use Prim.Native.String.{String}
unfoldable pub use text.Mathlib.Text.{◌==◌ as str_eq}
pub use text.Mathlib.TextEquality.{eq_iff as str_eq_iff}
use gizway.Prelude.{
  ℕ, Bool, ◌||◌, List, [], ◌∷◌, all, leb, ◌&&◌, ◌==◌ as nat_eq, true, false, if◌then◌else◌,
}

-- The code points of a text.
abbrev pub codes : String → List ℕ
codes String.[] = []
codes (String.◌∷◌ c s) = code c ∷ codes s

-- unicode.IsSpace
unfoldable pub is_space : ℕ → Bool
is_space c =
    leb 9 c && leb c 13
    || nat_eq c 0x20
    || nat_eq c 0x85
    || nat_eq c 0xa0
    || nat_eq c 0x1680
    || leb 0x2000 c && leb c 0x200a
    || nat_eq c 0x2028
    || nat_eq c 0x2029
    || nat_eq c 0x202f
    || nat_eq c 0x205f
    || nat_eq c 0x3000

-- `strings.TrimSpace(value) == ""`: nothing but white space.
unfoldable pub is_blank : String → Bool
unfolding is_space
is_blank value = all is_space (codes value)

-- strings.Split, on code points.
abbrev pub push_char : ℕ → List (List ℕ) → List (List ℕ)
push_char c [] = (c ∷ []) ∷ []
push_char c (p ∷ ps) = (c ∷ p) ∷ ps

unfoldable pub split : ℕ → List ℕ → List (List ℕ)
split sep [] = [] ∷ []
split sep (c ∷ cs) = let rest = split sep cs in if nat_eq c sep then [] ∷ rest else push_char c rest

-- Equality of two sequences of code points or bytes.
unfoldable pub codes_eq : List ℕ → List ℕ → Bool
codes_eq [] [] = true
codes_eq [] (c ∷ cs) = false
codes_eq (b ∷ bs) [] = false
codes_eq (b ∷ bs) (c ∷ cs) = let rest = codes_eq bs cs in nat_eq b c && rest

-- strings.TrimSpace, of code points and of a text.
unfoldable pub trim_left : List ℕ → List ℕ
unfolding is_space
trim_left [] = []
trim_left (c ∷ s) = let rest = trim_left s in if is_space c then rest else c ∷ s

unfoldable pub trim_right : List ℕ → List ℕ
unfolding is_space
trim_right [] = []
trim_right (c ∷ s) =
    let rest = trim_right s in
    elim rest [ [] ↦ (if is_space c then [] else c ∷ []) | d ∷ r ↦ c ∷ d ∷ r ]

unfoldable pub trim_left_text : String → String
unfolding is_space
trim_left_text String.[] = String.[]
trim_left_text (String.◌∷◌ c s) =
    let rest = trim_left_text s in if is_space (code c) then rest else String.◌∷◌ c s

unfoldable pub trim_right_text : String → String
unfolding is_space
trim_right_text String.[] = String.[]
trim_right_text (String.◌∷◌ c s) =
    let rest = trim_right_text s in
    if is_space (code c) && str_eq rest "" then String.[] else String.◌∷◌ c rest

abbrev pub trim_space : String → String
trim_space value = trim_right_text (trim_left_text value)
