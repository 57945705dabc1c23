-- ===== src/Grouping/Collected.antt =====
-- What a loop over a map keeps for each key, and that sorting changes none of it.
use foodler.Common.{
  ◌≡◌, refl, sym, ap, ap₂, ◌∙◌, Bool, true, false, ◌&&◌, ◌||◌, ◌⊎◌, Option, none, some, List, [],
  ◌∷◌, any, select, arith, Bool-cases, inl, inr, if◌then◌else◌,
}
use foodler.Text.{Text, text_eq}
use foodler.Text.Laws.{text_eq_iff}
use foodler.Keys.{has_key, HasDistinctKeys, text_eq_comm}
use foodler.Storage.Database.{insert_ordered, order_by}
use foodler.Grouping.{upsert_with, collect}

abbrev pub lookup : {V : Type 0} → Text → List (Text × V) → Option V
lookup k [] = none
lookup k ((j, v) ∷ entries) = let rest = lookup k entries in if text_eq j k then some v else rest

-- The entries of a map with one key.
abbrev pub entry : {V : Type 0} → Text → Option V → List (Text × V)
entry k none = []
entry k (some v) = (k, v) ∷ []

abbrev pub key_of : {V : Type 0} → Text × V → Text
key_of e = e.0

module _ {A V : Type 0} (key : A → Text) (join : Option V → A → V) where
  -- The items joined in their order.
  abbrev pub join_all : Option V → List A → Option V
  join_all value [] = value
  join_all value (x ∷ xs) = join_all (some (join value x)) xs

  lookup-upsert :
      (k : Text) (x : A) (entries : List (Text × V))
      → lookup k (upsert_with key join x entries)
        ≡ (if text_eq (key x) k then some (join (lookup k entries) x) else lookup k entries)
  unfolding upsert_with
  lookup-upsert k x [] = ground arith
  lookup-upsert k x ((j, v) ∷ entries) = elim (Bool-cases (text_eq j (key x))) [
    | inl e ↦ rw (e, (text_eq_iff j (key x)).0 e) (ground arith)
    | inr n ↦
        let ih = lookup-upsert k x entries in
        ground (arith, text_eq_iff j k, text_eq_iff (key x) k, text_eq_iff j (key x))
  ]

  pub lookup-collect :
      (k : Text) (xs : List A) (entries : List (Text × V))
      → lookup k (collect key join xs entries)
        ≡ join_all (lookup k entries) (select (has_key key k) xs)
  lookup-collect k [] entries = refl
  lookup-collect k (x ∷ xs) entries = elim (Bool-cases (text_eq (key x) k)) [
    | inl e ↦
        lookup-collect k xs (upsert_with key join x entries)
        ∙ rw (lookup-upsert k x entries, e) refl
    | inr n ↦
        lookup-collect k xs (upsert_with key join x entries)
        ∙ rw (lookup-upsert k x entries, n) refl
  ]

  any-upsert :
      (k : Text) (x : A) (entries : List (Text × V))
      → any (has_key key_of k) (upsert_with key join x entries)
        ≡ (any (has_key key_of k) entries || text_eq (key x) k)
  unfolding upsert_with
  any-upsert k x [] = ground arith
  any-upsert k x ((j, v) ∷ entries) =
      ground (
        arith,
        any-upsert k x entries,
        text_eq_iff j (key x),
        text_eq_iff j k,
        text_eq_iff (key x) k,
      )

  upsert-HasDistinctKeys :
      (x : A) (entries : List (Text × V))
      → HasDistinctKeys key_of entries
      → HasDistinctKeys key_of (upsert_with key join x entries)
  unfolding upsert_with
  upsert-HasDistinctKeys x [] h = (refl, tt)
  upsert-HasDistinctKeys x ((j, v) ∷ entries) (p, h) = elim (Bool-cases (text_eq j (key x))) [
    | inl e ↦ rw e (p, h)
    | inr n ↦ rw n (
      any-upsert j x entries ∙ ground (arith, text_eq_comm j (key x)),
      upsert-HasDistinctKeys x entries h,
    )
  ]

  pub collect-HasDistinctKeys :
      (xs : List A) (entries : List (Text × V))
      → HasDistinctKeys key_of entries
      → HasDistinctKeys key_of (collect key join xs entries)
  collect-HasDistinctKeys [] entries h = h
  collect-HasDistinctKeys (x ∷ xs) entries h =
      collect-HasDistinctKeys xs (upsert_with key join x entries)
        (upsert-HasDistinctKeys x entries h)

pub select-lookup :
    {V : Type 0} (k : Text) (entries : List (Text × V))
    → HasDistinctKeys key_of entries
    → select (has_key key_of k) entries ≡ entry k (lookup k entries)
select-lookup {V} k [] h = refl
select-lookup {V} k ((j, v) ∷ entries) (p, h) = elim (Bool-cases (text_eq j k)) [
  | inl e ↦
      let same = (text_eq_iff j k).0 e in
      rw e (
        ap₂ (λ i rest. (i, v) ∷ rest) same
          (no_more entries (ap (λ i. any (has_key key_of i) entries) (sym same) ∙ p)))
  | inr n ↦ rw n (select-lookup k entries h)
]
  where
    no_more :
        (rest : List (Text × V))
        → any (has_key (key_of {V = V}) k) rest ≡ false
        → select (has_key (key_of {V = V}) k) rest ≡ []
    no_more [] h = refl
    no_more (e ∷ rest) h = let ih = no_more rest in ground arith

module _ {A : Type 0} (before : A → A → Bool) where
  select-insert_ordered :
      (test : A → Bool) (x : A) (ys : List A)
      → (test x && any test ys) ≡ false
      → select test (insert_ordered before x ys) ≡ select test (x ∷ ys)
  unfolding insert_ordered
  select-insert_ordered test x [] h = refl
  select-insert_ordered test x (y ∷ ys) h = let ih = select-insert_ordered test x ys in ground arith

  any-insert_ordered :
      (test : A → Bool) (x : A) (ys : List A)
      → any test (insert_ordered before x ys) ≡ any test (x ∷ ys)
  unfolding insert_ordered
  any-insert_ordered test x [] = refl
  any-insert_ordered test x (y ∷ ys) = ground (arith, any-insert_ordered test x ys)

  any-order_by : (test : A → Bool) (xs : List A) → any test (order_by before xs) ≡ any test xs
  unfolding order_by
  any-order_by test [] = refl
  any-order_by test (x ∷ xs) =
      any-insert_ordered test x (order_by before xs) ∙ ap (λ b. test x || b) (any-order_by test xs)

  -- Sorting keeps the one row that a key has.
  pub select-order_by :
      (key : A → Text) (k : Text) (xs : List A)
      → HasDistinctKeys key xs
      → select (has_key key k) (order_by before xs) ≡ select (has_key key k) xs
  unfolding order_by
  select-order_by key k [] h = refl
  select-order_by key k (x ∷ xs) (p, h) =
      select-insert_ordered (has_key key k) x (order_by before xs)
        (apart (Bool-cases (text_eq (key x) k)))
      ∙ ap (λ rest. if text_eq (key x) k then x ∷ rest else rest) (select-order_by key k xs h)
    where
      apart :
          (text_eq (key x) k ≡ true) ⊎ (text_eq (key x) k ≡ false)
          → (text_eq (key x) k && any (has_key key k) (order_by before xs)) ≡ false
      apart (inl e) = rw e (
          any-order_by (has_key key k) xs
          ∙ ap (λ j. any (has_key key j) xs) (sym ((text_eq_iff (key x) k).0 e))
          ∙ p)
      apart (inr n) = rw n refl
