-- ===== src/Storage/Overrides.antt =====
-- The user's own categories: what a saved override does to the items that are loaded, that removing
-- it undoes it, and that neither the server's categories nor a normalisation can displace it.
pub mod Normalized
use foodler.Common.{
  ℕ, ◌≡◌, ◌↔◌, ◌⊎◌, refl, sym, ap, ap₂, ◌∙◌, Bool, true, false, ◌||◌, not, Option, some, none, List,
  [], ◌∷◌, ◌++◌, arith, any, select, map, All, Bool-cases, Option-cases, inl, inr, if◌then◌else◌,
  is_some,
}
use foodler.Text.{Text, text_eq, trim, is_empty, Locale}
use foodler.Text.Laws.{text_eq_iff, text_eq_refl}
use foodler.Receipts.{Numbers, ReceiptItem}
use foodler.Category.{lookup_text}
use foodler.Storage.Database.{
  Database, upsert, upsert_receipt_category_override, delete_receipt_category_override,
  select_receipt_category_override, select_receipt_items, update_receipt_item_server_category,
}
use foodler.Storage.Identity.{normalize_product_name}
use foodler.Storage.Operations.{
  Local, apply_override, apply_local_category_overrides, save_local_category_override,
  has_local_category_override, remove_local_category_override, load_receipt_items,
  apply_server_item_categories, apply_each, write,
}

pub lookup-upsert :
    (k key category : Text) (os : List (Text × Text))
    → lookup_text k (upsert key category os)
      ≡ (if text_eq key k then some category else lookup_text k os)
unfolding lookup_text upsert
lookup-upsert k key category [] = refl
lookup-upsert k key category ((j, c) ∷ os) =
    ground (
      arith,
      lookup-upsert k key category os,
      text_eq_iff j key,
      text_eq_iff j k,
      text_eq_iff key k,
    )

pub upsert-absent :
    (key category : Text) (os : List (Text × Text))
    → lookup_text key os ≡ none
    → upsert key category os ≡ os ++ (key, category) ∷ []
unfolding lookup_text upsert
upsert-absent key category [] h = refl
upsert-absent key category ((j, c) ∷ os) h = ground (arith, upsert-absent key category os)

select-absent :
    (key : Text) (category : Text) (os : List (Text × Text))
    → lookup_text key os ≡ none
    → select (λ (o : Text × Text). not (text_eq o.0 key)) (os ++ (key, category) ∷ []) ≡ os
unfolding lookup_text
select-absent key category [] h = rw (text_eq_refl key)
select-absent key category ((j, c) ∷ os) h = ground (arith, select-absent key category os)

module _ {N : Type 0} (locale : Locale) where
  -- The item with the category, if its product has the name's key.
  abbrev pub recategorize : Text → Text → ReceiptItem N → ReceiptItem N
  recategorize name category item =
      if text_eq (normalize_product_name locale name) (normalize_product_name locale item.name)
      then record item { category = category }
      else item

  save_override-result :
      (name category : Text) (s s' : Local N)
      → save_local_category_override locale name category s ≡ some s'
      → s'
        ≡ write
            (upsert_receipt_category_override
              (normalize_product_name locale name)
              (trim category)
              s.database)
            s
  unfolding save_local_category_override
  save_override-result name category s s' h = ground arith

  -- An override is refused exactly when the normalised name or the trimmed category is empty.
  pub save_override-refused_iff :
      (name category : Text) (s : Local N)
      → (save_local_category_override locale name category s ≡ none)
        ↔ ((normalize_product_name locale name ≡ []) ⊎ (trim category ≡ []))
  unfolding save_local_category_override
  save_override-refused_iff name category s = ground arith

  recategorize_one :
      (name category : Text) (db : Database N) (item : ReceiptItem N)
      → apply_override locale
          (upsert_receipt_category_override (normalize_product_name locale name) category db)
          item
        ≡ recategorize name category (apply_override locale db item)
  unfolding upsert_receipt_category_override
  recategorize_one name category db item = ground (
    arith,
    lookup-upsert (normalize_product_name locale item.name) (normalize_product_name locale name)
        category db.overrides,
  )

  recategorize_all :
      (name category : Text) (db : Database N) (items : List (ReceiptItem N))
      → map
          (apply_override locale
            (upsert_receipt_category_override (normalize_product_name locale name) category db))
          items
        ≡ map (recategorize name category) (map (apply_override locale db) items)
  recategorize_all name category db [] = refl
  recategorize_all name category db (item ∷ items) =
      ap₂ ◌∷◌ (recategorize_one name category db item) (recategorize_all name category db items)

  restored :
      (key category : Text) (db : Database N)
      → is_some (select_receipt_category_override key db) ≡ false
      → (is_some (
            select_receipt_category_override key (upsert_receipt_category_override key category db))
          ≡ true)
        × (delete_receipt_category_override key (upsert_receipt_category_override key category db)
            ≡ db)
  unfolding upsert_receipt_category_override delete_receipt_category_override
      select_receipt_category_override
  restored key category db h = (
    rw (lookup-upsert key key category db.overrides, text_eq_refl key),
    rw (upsert-absent key category db.overrides (ground arith))
        (rw (select-absent key category db.overrides (ground arith))),
  )

  -- Saving an override on a product that has none and removing it brings back the tables.
  pub remove-save_override :
      (name category : Text) (s s' : Local N)
      → has_local_category_override locale name s ≡ false
      → save_local_category_override locale name category s ≡ some s'
      → (has_local_category_override locale name s' ≡ true)
        × ((remove_local_category_override locale name s').database ≡ s.database)
  unfolding has_local_category_override remove_local_category_override
  remove-save_override name category s s' absent h =
      rw (save_override-result name category s s' h)
        (restored (normalize_product_name locale name) (trim category) s.database absent)

  module _ (num : Numbers N) where
    same_rows :
        (key category id : Text) (db : Database N)
        → select_receipt_items num id (upsert_receipt_category_override key category db)
          ≡ select_receipt_items num id db
    unfolding select_receipt_items upsert_receipt_category_override
    same_rows key category id db = refl

    -- After an override is saved the items of every receipt load as before, in the same order, but
    -- for those whose product has the same normalised name: they load with the trimmed category.
    pub load_receipt_items-save_override :
        (name category id : Text) (s s' : Local N)
        → save_local_category_override locale name category s ≡ some s'
        → load_receipt_items locale num id s'
          ≡ map (recategorize name (trim category)) (load_receipt_items locale num id s)
    unfolding save_local_category_override load_receipt_items apply_local_category_overrides
    load_receipt_items-save_override name category id s s' h =
        rw
          (
            save_override-result name category s s' h,
            same_rows (normalize_product_name locale name) (trim category) id s.database,
          )
          (recategorize_all name (trim category) s.database
            (select_receipt_items num id s.database))

    overrides-apply_each :
        (id : Text) (items : List (ReceiptItem N)) (db : Database N)
        → (apply_each locale num id items db).overrides ≡ db.overrides
    unfolding apply_each update_receipt_item_server_category
    overrides-apply_each id [] db = refl
    overrides-apply_each id (item ∷ items) db = overrides-apply_each id items _

    abbrev pub Respects : Text → Text → ReceiptItem N → Type 0
    Respects name category item =
        (text_eq (normalize_product_name locale name) (normalize_product_name locale item.name)
          ≡ false)
        ⊎ (item.category ≡ category)

    apply_override-Respects :
        (name category : Text) (db : Database N) (item : ReceiptItem N)
        → lookup_text (normalize_product_name locale name) db.overrides ≡ some category
        → Respects name category (apply_override locale db item)
    apply_override-Respects name category db item h =
        elim (Bool-cases (
          text_eq (normalize_product_name locale name) (normalize_product_name locale item.name))) [
            | inl same ↦ let e = (text_eq_iff _ _).0 same in inr (ground (arith, rw e at h))
            | inr other ↦ inl (ground arith)
          ]

    All-Respect :
        (name category : Text) (db : Database N) (items : List (ReceiptItem N))
        → lookup_text (normalize_product_name locale name) db.overrides ≡ some category
        → All (Respects name category) (map (apply_override locale db) items)
    All-Respect name category db [] h = tt
    All-Respect name category db (item ∷ items) h =
        (apply_override-Respects name category db item h, All-Respect name category db items h)

    -- Categories from the server never displace the user's own: whatever the server sent for
    -- whatever receipt, items of a product with an override load with the override's category.
    pub override-survives_server :
        (name category id from : Text) (items : List (ReceiptItem N)) (s : Local N)
        → select_receipt_category_override (normalize_product_name locale name) s.database
          ≡ some category
        → All (Respects name category) (
            load_receipt_items locale num id (apply_server_item_categories locale num from items s))
    unfolding load_receipt_items apply_local_category_overrides apply_server_item_categories
        select_receipt_category_override
    override-survives_server name category id from items s h =
        All-Respect name category (apply_each locale num from items s.database) _
          (rw (overrides-apply_each from items s.database) h)
