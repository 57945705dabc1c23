-- ===== src/Storage/Overrides/Normalized.antt =====
-- After `normalizePersistedCategories` every stored category is in normal form.
use foodler.Common.{
  ◌≡◌, refl, sym, ap, ◌∙◌, true, false, ◌||◌, some, List, [], ◌∷◌, arith, any, map, All, Bool-cases,
  ◌⊎◌, inl, inr,
}
use foodler.Text.{Text, text_eq, Locale}
use foodler.Text.Laws.{text_eq_iff, text_eq_refl}
use foodler.Category.{normalize_category}
use foodler.Category.Normal.{normalize_category_idem}
use foodler.Storage.Database.{
  Database, ItemRow, distinct, update_where, update_receipt_item_category,
  select_receipt_item_categories,
}
use foodler.Keys.{All-map_to}
use foodler.Storage.Operations.{normalize_each, normalize_persisted_categories}

any-distinct : (t : Text) (ts : List Text) → any (text_eq t) (distinct ts) ≡ any (text_eq t) ts
unfolding distinct
any-distinct t [] = refl
any-distinct t (u ∷ us) = elim (Bool-cases (any (text_eq u) (distinct us))) [
  | inl e ↦ rw e (any-distinct t us ∙ known t u us (sym (any-distinct u us) ∙ e))
  | inr e ↦ rw e (ap (λ b. text_eq t u || b) (any-distinct t us))
]
  where
    known :
        (t u : Text) (us : List Text)
        → any (text_eq u) us ≡ true
        → any (text_eq t) us ≡ (text_eq t u || any (text_eq t) us)
    known t u us h = elim (Bool-cases (text_eq t u)) [
      | inl e ↦ rw e (rw ((text_eq_iff t u).0 e) h)
      | inr e ↦ rw e
    ]

module _ {N : Type 0} (locale : Locale) where
  abbrev pub IsNormal : ItemRow N → Type 0
  IsNormal row = normalize_category locale (some row.item.category) ≡ row.item.category

  -- Normal, or still to come in the loop.
  abbrev IsDue : List Text → ItemRow N → Type 0
  IsDue cs row = IsNormal row ⊎ (any (text_eq row.item.category) cs ≡ true)

  IsDue-later :
      (c : Text) (cs : List Text) (row : ItemRow N)
      → text_eq row.item.category c ≡ false
      → IsDue (c ∷ cs) row
      → IsDue cs row
  IsDue-later c cs row e (inl n) = inl n
  IsDue-later c cs row e (inr d) = inr (rw e at d)

  IsDue-after_update :
      (c : Text) (cs : List Text) (row : ItemRow N)
      → IsDue (c ∷ cs) row
      → IsDue cs (
          update_where
            (λ i. text_eq i.category c)
            (λ i. record i { category = normalize_category locale (some c) })
            row)
  IsDue-after_update c cs row d = elim (Bool-cases (text_eq row.item.category c)) [
    | inl e ↦ rw e (inl (normalize_category_idem locale (some c)))
    | inr e ↦ rw e (IsDue-later c cs row e d)
  ]

  IsDue-unchanged :
      (c : Text) (cs : List Text) (row : ItemRow N)
      → text_eq (normalize_category locale (some c)) c ≡ true
      → IsDue (c ∷ cs) row
      → IsDue cs row
  IsDue-unchanged c cs row same (inl n) = inl n
  IsDue-unchanged c cs row same (inr d) = elim (Bool-cases (text_eq row.item.category c)) [
    | inl e ↦ inl (rw ((text_eq_iff _ c).0 e) ((text_eq_iff _ c).0 same))
    | inr e ↦ IsDue-later c cs row e (inr d)
  ]

  All-due :
      {P : ItemRow N → Type 0} (Q : ItemRow N → Type 0) (f : ItemRow N → ItemRow N)
      (rows : List (ItemRow N))
      → ((row : ItemRow N) → P row → Q (f row))
      → All P rows
      → All Q (map f rows)
  All-due Q f [] g h = tt
  All-due Q f (row ∷ rows) g (p, h) = (g row p, All-due Q f rows g h)

  normalize_each-IsNormal :
      (cs : List Text) (db : Database N)
      → All (IsDue cs) db.items
      → All IsNormal (normalize_each locale cs db).items
  unfolding normalize_each update_receipt_item_category
  normalize_each-IsNormal [] db h = All-map_to db.items (λ row d. settled row d) h
    where
      settled : (row : ItemRow N) → IsDue [] row → IsNormal row
      settled row (inl n) = n
      settled row (inr d) = absurd (cc d)
  normalize_each-IsNormal (c ∷ cs) db h =
      elim (Bool-cases (text_eq (normalize_category locale (some c)) c)) [
        | inl same ↦
            rw (same, normalize_each)
              (normalize_each-IsNormal cs db
                (All-map_to db.items (λ row d. IsDue-unchanged c cs row same d) h))
        | inr other ↦
            rw (other, normalize_each)
              (normalize_each-IsNormal cs _
                (All-due (IsDue cs) _ db.items (λ row d. IsDue-after_update c cs row d) h))
      ]

  All-IsDue :
      (rows : List (ItemRow N)) (cs : List Text)
      → ((row : ItemRow N)
          → any (text_eq row.item.category) (map (λ (r : ItemRow N). r.item.category) rows) ≡ true
          → any (text_eq row.item.category) cs ≡ true)
      → All (IsDue cs) rows
  All-IsDue [] cs h = tt
  All-IsDue (row ∷ rows) cs h = (
    inr (h row (rw (text_eq_refl row.item.category))),
    All-IsDue rows cs (λ r e. h r (ground (arith, e))),
  )

  -- Whatever the tables held, after the categories were normalised at the opening of the database
  -- every stored item's category is its own normal form.
  pub normalize_persisted_categories-IsNormal :
      (db : Database N) → All IsNormal (normalize_persisted_categories locale db).items
  unfolding normalize_persisted_categories select_receipt_item_categories
  normalize_persisted_categories-IsNormal db =
      normalize_each-IsNormal (distinct (map (λ (r : ItemRow N). r.item.category) db.items)) db (
        All-IsDue db.items _ (λ row e.
          any-distinct row.item.category (map (λ (r : ItemRow N). r.item.category) db.items) ∙ e))
