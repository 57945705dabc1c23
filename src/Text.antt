-- ===== src/Text.antt =====
-- JavaScript strings: sequences of UTF-16 code units, their equality and order, `trim`, `split`,
-- `join`, and what the code takes from the locale data of the runtime.
pub mod Laws
pub mod Trim
pub mod Russian
pub mod Sorting
use Prim.Native.Char.{code}
use Prim.Native.String
use Prim.Native.String.{String}
use foodler.Common.{
  ℕ, zero, suc, ◌≡◌, Bool, true, false, ◌&&◌, ◌||◌, List, [], ◌∷◌, ◌++◌, reverse, ltb, leb, ◌==◌,
  if◌then◌else◌, ◌≤◌, ◌+◌, map, All,
}

abbrev pub Text : Type 0
Text = List ℕ

-- A literal of the source. Its characters lie in the basic plane, where a code point is one unit.
abbrev pub codes : String → Text
codes String.[] = []
codes (String.◌∷◌ c s) = code c ∷ codes s

-- `a === b`
unfoldable pub text_eq : Text → Text → Bool
text_eq [] [] = true
text_eq (c ∷ s) (d ∷ t) = c == d && text_eq s t
text_eq _ _ = false

-- `a <= b`: the order of code units, which `sort()` uses by default.
unfoldable pub text_le : Text → Text → Bool
text_le [] t = true
text_le (c ∷ s) [] = false
text_le (c ∷ s) (d ∷ t) = ltb c d || (c == d && text_le s t)

-- A string is falsy exactly when it is empty.
abbrev pub is_empty : Text → Bool
is_empty [] = true
is_empty (c ∷ s) = false

-- WhiteSpace and LineTerminator of ECMAScript, which `trim` removes and `\s` matches.
unfoldable pub is_space : ℕ → Bool
is_space c =
    (leb 9 c && leb c 13)
    || c == 32
    || c == 0xa0
    || c == 0x1680
    || (leb 0x2000 c && leb c 0x200a)
    || c == 0x2028
    || c == 0x2029
    || c == 0x202f
    || c == 0x205f
    || c == 0x3000
    || c == 0xfeff

unfoldable pub drop_spaces : Text → Text
drop_spaces [] = []
drop_spaces (c ∷ t) = if is_space c then drop_spaces t else c ∷ t

unfoldable pub trim : Text → Text
unfolding drop_spaces
trim t = reverse (drop_spaces (reverse (drop_spaces t)))

unfoldable pub starts_with : Text → Text → Bool
starts_with [] t = true
starts_with (c ∷ s) [] = false
starts_with (c ∷ s) (d ∷ t) = c == d && starts_with s t

-- `text.split(separator)` at a separator of one unit: the pieces are never none.
abbrev push_front : ℕ → List Text → List Text
push_front c [] = (c ∷ []) ∷ []
push_front c (piece ∷ pieces) = (c ∷ piece) ∷ pieces

unfoldable pub split : ℕ → Text → List Text
split sep [] = [] ∷ []
split sep (c ∷ t) = let rest = split sep t in if c == sep then [] ∷ rest else push_front c rest

unfoldable pub join : ℕ → List Text → Text
join sep [] = []
join sep (t ∷ []) = t
join sep (t ∷ u ∷ us) = t ++ sep ∷ join sep (u ∷ us)

-- `pieces.sort()`
unfoldable pub insert_text : Text → List Text → List Text
insert_text t [] = t ∷ []
insert_text t (u ∷ us) = let rest = insert_text t us in if text_le t u then t ∷ u ∷ us else u ∷ rest

unfoldable pub sort_texts : List Text → List Text
unfolding insert_text
sort_texts [] = []
sort_texts (t ∷ ts) = insert_text t (sort_texts ts)

-- Lowercasing one unit of ASCII or of the Cyrillic block; the others stay.
unfoldable pub lower_unit : ℕ → ℕ
lower_unit c =
    if leb 65 c && leb c 90
    then c + 32
    else if leb 0x410 c && leb c 0x42f
    then c + 32
    else if leb 0x400 c && leb c 0x40f
    then c + 80
    else c

-- A unit of ASCII or of the Cyrillic block, where lowercasing is known unit by unit.
abbrev pub IsPlain : ℕ → Type 0
IsPlain c = (leb c 0x7f || (leb 0x400 c && leb c 0x45f)) ≡ true

-- The locale data of the runtime: `toLocaleLowerCase`, and the case folding of `/…/i`. The laws are
-- those of the Unicode tables: lowercasing is stable, adds and removes no white space, and acts on
-- ASCII and Cyrillic unit by unit.
pub record Locale : Type 0 where
  pub lower : Text → Text
  pub fold : ℕ → ℕ
  pub lower_idem : (t : Text) → lower (lower t) ≡ lower t
  pub lower_trim : (t : Text) → trim (lower (trim t)) ≡ lower (trim t)
  pub lower_plain : (t : Text) → All IsPlain t → lower t ≡ map lower_unit t
