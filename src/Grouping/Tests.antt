-- ===== src/Grouping/Tests.antt =====
-- Runs of mobile/src/utils.ts: three items, two of which have one name and price.
use foodler.Common.{refl, ◌+◌, map, arith, ℕ, ◌≡◌, some, List, [], ◌∷◌, select}
use foodler.Text.{Text, codes, text_le, text_eq, trim, drop_spaces, is_space, lower_unit}
use foodler.Text.Russian.{russian}
use foodler.Category.{normalize_category}
use foodler.Receipts.{Numbers, ReceiptItem}
use foodler.Receipts.Samples.{roubles, bread}
use foodler.Keys.{has_key}
use foodler.Grouping.{
  upsert_with, Locales, item_key, group_receipt_items, sum_by, build_receipt_category_totals,
}
use foodler.Grouping.Collected.{key_of}
use foodler.Grouping.Sums.{total_entry, sum_by-own}
use foodler.Grouping.Items.{IsPlain, same_product, combined, group_receipt_items-own}

abbrev locales : Locales ℕ
locales = record {
  round = λ n. n;
  collates = text_le;
  upper = λ t. t;
  hundredth = 0;
  time = λ t. some 0;
}

abbrev roll : ReceiptItem ℕ
roll = record bread { name = codes "Рогалик" }

abbrev basket : List (ReceiptItem ℕ)
basket = bread ∷ roll ∷ record bread { name = codes " батон " } ∷ []

-- The unit 1 and more, never 0.
abbrev plain : Numbers ℕ
plain = record roubles { show = λ a. (a + 1) ∷ [] }

plain-IsPlain : IsPlain plain
plain-IsPlain a = ground arith

group_receipt_items-own_example :
    select
      (same_product russian plain locales bread)
      (group_receipt_items russian plain locales basket)
    ≡ combined russian plain locales (select (same_product russian plain locales bread) basket)
group_receipt_items-own_example =
    group_receipt_items-own russian plain locales basket bread plain-IsPlain

-- Two loaves of one name and price are one item, with both quantities.
grouped_quantities :
    map (λ i. i.quantity) (group_receipt_items russian plain locales basket) ≡ 6 ∷ 3 ∷ []
unfolding group_receipt_items upsert_with item_key trim drop_spaces text_eq is_space lower_unit
grouped_quantities = refl

abbrev name_of : ReceiptItem ℕ → Text
name_of item = item.name

abbrev quantity_of : ReceiptItem ℕ → ℕ
quantity_of item = item.quantity

sum_by-own_example :
    (select (has_key key_of bread.name) (sum_by russian roubles locales name_of quantity_of basket)
      ≡ total_entry russian roubles locales bread.name
          (map quantity_of (select (λ x. text_eq (name_of x) bread.name) basket)))
    × (select
          (has_key key_of bread.name)
          (build_receipt_category_totals russian roubles locales basket)
        ≡ total_entry russian roubles locales bread.name (
            map
              (λ i. i.sum_rub)
              (select
                (λ i. text_eq (normalize_category russian (some i.category)) bread.name)
                basket)))
sum_by-own_example = sum_by-own russian roubles locales name_of quantity_of basket basket bread.name
