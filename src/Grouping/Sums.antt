-- ===== src/Grouping/Sums.antt =====
-- What the functions of mobile/src/utils.ts and mobile/src/stats.ts give for each key.
use foodler.Common.{refl, some, ◌∷◌, map, ◌≡◌, ap, ◌∙◌, Bool, Option, none, List, [], select}
use foodler.Text.{Text, text_eq, Locale}
use foodler.Category.{normalize_category}
use foodler.Receipts.{Numbers, ReceiptItem}
use foodler.Keys.{has_key}
use foodler.Storage.Database.{order_by}
use foodler.Grouping.{
  collect, sum_from, Locales, add_value, value_before, sum_by, category_of, total_before,
  build_receipt_category_totals,
}
use foodler.Grouping.Collected.{
  entry, key_of, join_all, lookup-collect, collect-HasDistinctKeys, select-lookup, select-order_by,
}

-- The sorted entries of a loop have, for each key, the items of that key joined in their order.
sorted-own :
    {A V : Type 0} (before : Text × V → Text × V → Bool) (key : A → Text) (join : Option V → A → V)
    (k : Text) (xs : List A)
    → select (has_key key_of k) (order_by before (collect key join xs []))
      ≡ entry k (join_all key join none (select (has_key key k) xs))
sorted-own before key join k xs =
    let distinct = collect-HasDistinctKeys key join xs [] tt in
    select-order_by before key_of k (collect key join xs []) distinct
    ∙ select-lookup k (collect key join xs []) distinct
    ∙ ap (entry k) (lookup-collect key join k xs [])

module _ {N : Type 0} (locale : Locale) (num : Numbers N) (run : Locales N) where
  -- The sum of the values under the label, no entry where there is nothing to sum.
  abbrev pub total_entry : Text → List N → List (Text × N)
  total_entry k [] = []
  total_entry k (v ∷ values) = (k, sum_from locale num run (num.of_nat 0) (v ∷ values)) ∷ []

  add-some :
      {A : Type 0} (key : A → Text) (value : A → N) (total : N) (xs : List A)
      → join_all key (add_value locale num run value) (some total) xs
        ≡ some (sum_from locale num run total (map value xs))
  add-some key value total [] = refl
  add-some key value total (x ∷ xs) = add-some key value (num.add total (value x)) xs

  add-entry :
      {A : Type 0} (key : A → Text) (value : A → N) (k : Text) (xs : List A)
      → entry k (join_all key (add_value locale num run value) none xs)
        ≡ total_entry k (map value xs)
  add-entry key value k [] = refl
  add-entry key value k (x ∷ xs) =
      ap (entry k) (add-some key value (num.add (num.of_nat 0) (value x)) xs)

  -- For each label, `sumBy` gives one entry with 0 plus the values of the items with that key, added
  -- in their order, and none where no item has it; `buildReceiptCategoryTotals` does so for the
  -- normalised categories and the sums of the items.
  pub sum_by-own :
      {A : Type 0} (key : A → Text) (value : A → N) (xs : List A) (items : List (ReceiptItem N))
      (k : Text)
      → (select (has_key key_of k) (sum_by locale num run key value xs)
          ≡ total_entry k (map value (select (λ x. text_eq (key x) k) xs)))
        × (select (has_key key_of k) (build_receipt_category_totals locale num run items)
            ≡ total_entry k (
                map
                  (λ i. i.sum_rub)
                  (select (λ i. text_eq (normalize_category locale (some i.category)) k) items)))
  unfolding sum_by build_receipt_category_totals
  sum_by-own key value xs items k =
      let category = category_of locale num run in
      (
        sorted-own (value_before locale num run) key (add_value locale num run value) k xs
            ∙ add-entry key value k (select (has_key key k) xs),
        sorted-own (total_before locale num run) category
              (add_value locale num run (λ i. i.sum_rub)) k items
            ∙ add-entry category (λ i. i.sum_rub) k (select (has_key category k) items),
      )
