-- ===== src/Text/Trim.antt =====
-- `trim` removes the white space at both ends, once and for all.
use mathlib.Core.List.{reverse-append, reverse-reverse, reverse-cons}
use foodler.Common.{ℕ, ◌≡◌, refl, ◌⊎◌, inl, inr, false, [], ◌∷◌, ◌++◌, reverse, arith, Bool-cases}
use foodler.Text.{Text, is_space, drop_spaces, trim}

drop_spaces_idem : (t : Text) → drop_spaces (drop_spaces t) ≡ drop_spaces t
unfolding drop_spaces
drop_spaces_idem [] = refl
drop_spaces_idem (c ∷ t) = ground (arith, drop_spaces_idem t)

-- What is left is empty or begins with a visible unit.
drop_spaces-cases :
    (t : Text)
    → (drop_spaces t ≡ []) ⊎ ((c : ℕ) × (s : Text) × (drop_spaces t ≡ c ∷ s) × (is_space c ≡ false))
unfolding drop_spaces
drop_spaces-cases [] = inl refl
drop_spaces-cases (c ∷ t) = elim (Bool-cases (is_space c)) [
  | inl e ↦ rw e (drop_spaces-cases t)
  | inr e ↦ inr (c, t, ground arith, e)
]

drop_spaces-concat :
    (t : Text) (c : ℕ) → is_space c ≡ false → drop_spaces (t ++ c ∷ []) ≡ drop_spaces t ++ c ∷ []
unfolding drop_spaces
drop_spaces-concat [] c h = ground arith
drop_spaces-concat (d ∷ t) c h = ground (arith, drop_spaces-concat t c)

drop_spaces-visible : (c : ℕ) (t : Text) → is_space c ≡ false → drop_spaces (c ∷ t) ≡ c ∷ t
unfolding drop_spaces
drop_spaces-visible c t h = rw h

-- Trimming at the right keeps a visible unit at the left.
drop_spaces-right :
    (c : ℕ) (t : Text)
    → is_space c ≡ false
    → reverse (drop_spaces (reverse (c ∷ t))) ≡ c ∷ reverse (drop_spaces (reverse t))
drop_spaces-right c t h = rw (reverse-cons, drop_spaces-concat (reverse t) c h, reverse-append)

pub drop_spaces-trim : (t : Text) → drop_spaces (trim t) ≡ trim t
unfolding trim
drop_spaces-trim t = elim (drop_spaces-cases t) [
  | inl e ↦ rw e
  | inr (c, s, e, h) ↦ rw (e, drop_spaces-right c s h) (drop_spaces-visible c _ h)
]

-- Trimming a trimmed text changes nothing.
pub trim_idem : (t : Text) → trim (trim t) ≡ trim t
unfolding trim
trim_idem t = rw (drop_spaces-trim t, reverse-reverse, drop_spaces_idem)
