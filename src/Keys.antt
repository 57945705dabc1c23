-- ===== src/Keys.antt =====
-- Lists of rows with a key: when keys differ, and what selection and appending do to that.
use foodler.Common.{
  ◌≤◌, length, sym, Bool-cases, inl, inr, ◌≡◌, refl, ap, ◌∙◌, Bool, true, false, ◌||◌, List, [],
  ◌∷◌, ◌++◌, arith, any, select, map, All,
}
use foodler.Text.{Text, text_eq}
use foodler.Text.Laws.{text_eq_iff}

pub text_eq_comm : (s t : Text) → text_eq s t ≡ text_eq t s
text_eq_comm s t = ground (arith, text_eq_iff s t, text_eq_iff t s)

module _ {ℓ} {A : Type ℓ} where
  pub any-append :
      (test : A → Bool) (xs ys : List A) → any test (xs ++ ys) ≡ (any test xs || any test ys)
  any-append test [] ys = refl
  any-append test (x ∷ xs) ys = ground (arith, any-append test xs ys)

  pub any-select-false :
      (test keep : A → Bool) (xs : List A) → any test xs ≡ false → any test (select keep xs) ≡ false
  any-select-false test keep [] h = refl
  any-select-false test keep (x ∷ xs) h = ground (arith, any-select-false test keep xs)

  -- A selection that drops nothing of what is asked for.
  pub any-select_kept :
      (test keep : A → Bool) (xs : List A)
      → ((x : A) → test x ≡ true → keep x ≡ true)
      → any test (select keep xs) ≡ any test xs
  any-select_kept test keep [] h = refl
  any-select_kept test keep (x ∷ xs) h = ground (arith, any-select_kept test keep xs h, h x)

  pub any-map {κ} :
      {B : Type κ} (test : B → Bool) (f : A → B) (xs : List A)
      → any test (map f xs) ≡ any (λ x. test (f x)) xs
  any-map test f [] = refl
  any-map test f (x ∷ xs) = ap (λ b. test (f x) || b) (any-map test f xs)

  pub select-All :
      (keep : A → Bool) (xs : List A) → All (λ x. keep x ≡ true) xs → select keep xs ≡ xs
  select-All keep [] h = refl
  select-All keep (x ∷ xs) (p, h) = rw (p, select-All keep xs h)

  pub select-none :
      (keep : A → Bool) (xs : List A) → All (λ x. keep x ≡ false) xs → select keep xs ≡ []
  select-none keep [] h = refl
  select-none keep (x ∷ xs) (p, h) = rw p (select-none keep xs h)

  pub select-select_none :
      (keep drop : A → Bool) (xs : List A)
      → ((x : A) → keep x ≡ true → drop x ≡ false)
      → select keep (select drop xs) ≡ []
  select-select_none keep drop [] h = refl
  select-select_none keep drop (x ∷ xs) h = ground (arith, select-select_none keep drop xs h, h x)

  pub select-select_same :
      (keep drop : A → Bool) (xs : List A)
      → ((x : A) → keep x ≡ true → drop x ≡ true)
      → select keep (select drop xs) ≡ select keep xs
  select-select_same keep drop [] h = refl
  select-select_same keep drop (x ∷ xs) h = ground (arith, select-select_same keep drop xs h, h x)

  pub All-map_to {κ μ} :
      {P : A → Type κ} {Q : A → Type μ} (xs : List A) → ((x : A) → P x → Q x) → All P xs → All Q xs
  All-map_to [] f h = tt
  All-map_to (x ∷ xs) f (p, h) = (f x p, All-map_to xs f h)

module _ {ℓ} {A : Type ℓ} (key : A → Text) where
  abbrev pub has_key : Text → A → Bool
  has_key k x = text_eq (key x) k

  -- No two rows have one key.
  abbrev pub HasDistinctKeys : List A → Type 0
  HasDistinctKeys [] = Unit
  HasDistinctKeys (x ∷ xs) = (any (has_key (key x)) xs ≡ false) × HasDistinctKeys xs

  pub HasDistinctKeys-select :
      (keep : A → Bool) (xs : List A) → HasDistinctKeys xs → HasDistinctKeys (select keep xs)
  HasDistinctKeys-select keep [] h = tt
  HasDistinctKeys-select keep (x ∷ xs) (p, h) =
      let ih = HasDistinctKeys-select keep xs h in
      ground (arith, any-select-false (has_key (key x)) keep xs p)

  pub HasDistinctKeys-concat :
      (xs : List A) (x : A)
      → HasDistinctKeys xs
      → any (has_key (key x)) xs ≡ false
      → HasDistinctKeys (xs ++ x ∷ [])
  HasDistinctKeys-concat [] x h n = (refl, tt)
  HasDistinctKeys-concat (y ∷ xs) x (p, h) n = (
    any-append (has_key (key y)) xs (x ∷ []) ∙ ground (arith, text_eq_comm (key x) (key y)),
    HasDistinctKeys-concat xs x h (ground arith),
  )

  -- At most one row has a given key.
  pub length-select_key :
      (k : Text) (xs : List A) → HasDistinctKeys xs → length (select (has_key k) xs) ≤ 1
  length-select_key k [] h = omega arith
  length-select_key k (x ∷ xs) (p, h) = elim (Bool-cases (text_eq (key x) k)) [
    | inl e ↦
        let nothing =
          ap (λ ys. length ys) (select-none (has_key k) xs (no_other xs (same e ∙ p))) in
        rw e (omega (arith, nothing))
    | inr n ↦ rw n (length-select_key k xs h)
  ]
    where
      same : text_eq (key x) k ≡ true → any (has_key k) xs ≡ any (has_key (key x)) xs
      same e = ap (λ j. any (has_key j) xs) (sym ((text_eq_iff (key x) k).0 e))

      no_other : (ys : List A) → any (has_key k) ys ≡ false → All (λ y. has_key k y ≡ false) ys
      no_other [] h = tt
      no_other (y ∷ ys) h = (ground arith, no_other ys (ground arith))

  pub HasDistinctKeys-map :
      (f : A → A) (xs : List A)
      → ((x : A) → key (f x) ≡ key x)
      → HasDistinctKeys xs
      → HasDistinctKeys (map f xs)
  HasDistinctKeys-map f [] same h = tt
  HasDistinctKeys-map f (x ∷ xs) same (p, h) = (
    any-map (has_key (key (f x))) f xs ∙ rw (same x) (same_keys xs p),
    HasDistinctKeys-map f xs same h,
  )
    where
      same_keys :
          (ys : List A)
          → any (has_key (key x)) ys ≡ false
          → any (λ y. has_key (key x) (f y)) ys ≡ false
      same_keys [] h = refl
      same_keys (y ∷ ys) h = ground (arith, same_keys ys, same y)
