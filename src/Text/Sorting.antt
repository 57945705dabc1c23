-- ===== src/Text/Sorting.antt =====
-- The order of code units is total, so sorting forgets the order of the texts.
use mathlib.Core.List.{Perm, is_set, foldr}
use mathlib.Core.List.Perm
use native.Mathlib.Nat.{ℕ_set}
use foodler.Common.{
  sym, ◌≡◌, refl, ap, ap₂, ◌∙◌, ◌∙◌, true, false, List, [], ◌∷◌, arith, Bool-cases, inl, inr,
}
use foodler.Text.{Text, text_le, insert_text, sort_texts}

text_le_total : (s t : Text) → text_le s t ≡ false → text_le t s ≡ true
unfolding text_le
text_le_total [] t h = absurd cc
text_le_total (c ∷ s) [] h = refl
text_le_total (c ∷ s) (d ∷ t) h = ground (arith, h, text_le_total s t)

text_le_antisym : (s t : Text) → text_le s t ≡ true → text_le t s ≡ true → s ≡ t
unfolding text_le
text_le_antisym [] [] h k = refl
text_le_antisym [] (d ∷ t) h k = absurd cc
text_le_antisym (c ∷ s) [] h k = absurd cc
text_le_antisym (c ∷ s) (d ∷ t) h k = ground (arith, h, k, text_le_antisym s t)

text_le_trans : (s t u : Text) → text_le s t ≡ true → text_le t u ≡ true → text_le s u ≡ true
unfolding text_le
text_le_trans [] t u h k = refl
text_le_trans (c ∷ s) [] u h k = absurd cc
text_le_trans (c ∷ s) (d ∷ t) [] h k = absurd cc
text_le_trans (c ∷ s) (d ∷ t) (e ∷ u) h k = ground (arith, h, k, text_le_trans s t u)

insert-insert :
    (a b : Text) (ts : List Text)
    → text_le a b ≡ true
    → insert_text a (insert_text b ts) ≡ insert_text b (insert_text a ts)
unfolding insert_text
insert-insert a b [] h = elim (Bool-cases (text_le b a)) [
  | inl k ↦ rw (h, k) (ap₂ (λ x y. x ∷ y ∷ []) (text_le_antisym a b h k) (text_le_antisym b a k h))
  | inr k ↦ rw (h, k) refl
]
insert-insert a b (u ∷ us) h = ground (
  arith,
  h,
  insert-insert a b us h,
  text_le_antisym a b h,
  text_le_trans a b u h,
  text_le_trans b a u,
  text_le_total a u,
  text_le_total b u,
)

insert_comm :
    (a b : Text) (ts : List Text)
    → insert_text a (insert_text b ts) ≡ insert_text b (insert_text a ts)
insert_comm a b ts = elim (Bool-cases (text_le a b)) [
  | inl h ↦ insert-insert a b ts h
  | inr h ↦ sym (insert-insert b a ts (text_le_total a b h))
]

sort_texts-foldr : (ts : List Text) → sort_texts ts ≡ foldr insert_text [] ts
unfolding sort_texts
sort_texts-foldr [] = refl
sort_texts-foldr (t ∷ ts) = ap (insert_text t) (sort_texts-foldr ts)

-- Lists with the same texts in any order are sorted alike.
pub sort_texts-Perm : {s t : List Text} → Perm s t → sort_texts s ≡ sort_texts t
sort_texts-Perm {s} {t} p =
    sort_texts-foldr s
    ∙ Perm.foldr-eq (is_set (is_set ℕ_set)) insert_text insert_comm p []
    ∙ sym (sort_texts-foldr t)
