-- ===== src/Text/Russian.antt =====
-- A locale that knows ASCII and Cyrillic letters, for runs on concrete texts.
use mathlib.Core.List.{reverse-cons, map-append}
use foodler.Common.{
  ℕ, ◌-◌, ◌≡◌, refl, ap, ◌∙◌, [], ◌∷◌, map, reverse, arith, leb, ◌&&◌, if◌then◌else◌,
}
use foodler.Text.{Text, is_space, drop_spaces, trim, lower_unit, Locale}
use foodler.Text.Trim.{trim_idem}

lower_unit_idem : (c : ℕ) → lower_unit (lower_unit c) ≡ lower_unit c
unfolding lower_unit
lower_unit_idem c = ground arith

is_space-lower_unit : (c : ℕ) → is_space (lower_unit c) ≡ is_space c
unfolding lower_unit is_space
is_space-lower_unit c = ground arith

drop_spaces-lower : (t : Text) → drop_spaces (map lower_unit t) ≡ map lower_unit (drop_spaces t)
unfolding drop_spaces
drop_spaces-lower [] = refl
drop_spaces-lower (c ∷ t) = ground (arith, is_space-lower_unit c, drop_spaces-lower t)

reverse-lower : (t : Text) → reverse (map lower_unit t) ≡ map lower_unit (reverse t)
reverse-lower [] = refl
reverse-lower (c ∷ t) =
    reverse-cons (lower_unit c) (map lower_unit t) ∙ rw (reverse-lower t, reverse-cons, map-append)

trim-lower : (t : Text) → trim (map lower_unit t) ≡ map lower_unit (trim t)
unfolding trim
trim-lower t = simp (drop_spaces-lower, reverse-lower)

pub lower_units_idem : (t : Text) → map lower_unit (map lower_unit t) ≡ map lower_unit t
lower_units_idem [] = refl
lower_units_idem (c ∷ t) = rw (lower_unit_idem c, lower_units_idem t)

pub lower_units_trim : (t : Text) → trim (map lower_unit (trim t)) ≡ map lower_unit (trim t)
lower_units_trim t = trim-lower (trim t) ∙ ap (map lower_unit) (trim_idem t)

-- The canonical form of a unit under the flag `i`: the capital letter.
abbrev pub fold_unit : ℕ → ℕ
fold_unit c =
    if leb b'a' c && leb c b'z'
    then c - 32
    else if leb 0x430 c && leb c 0x44f
    then c - 32
    else if leb 0x450 c && leb c 0x45f
    then c - 80
    else c

abbrev pub russian : Locale
russian = record {
  lower = map lower_unit;
  fold = fold_unit;
  lower_idem = lower_units_idem;
  lower_trim = lower_units_trim;
  lower_plain = λ t h. refl;
}
