-- ===== src/Grouping.antt =====
-- The sums by key of mobile/src/utils.ts and mobile/src/stats.ts. A JavaScript `Map` is the list of
-- its entries in the order of insertion. The runtime gives `Math.round`, `localeCompare` and the time
-- of a date, `none` where it is no date.
pub mod Collected
pub mod Sums
pub mod Items
mod Tests
use foodler.Common.{
  ℕ, ◌+◌, ◌≡◌, refl, Bool, true, false, not, ◌&&◌, ◌||◌, Option, none, some, List, [], ◌∷◌, ◌++◌,
  map, any, select, or_else, if◌then◌else◌, leb,
}
use foodler.Text.{Text, codes, text_eq, trim, Locale}
use foodler.Category.{fallback_category, normalize_category}
use foodler.Receipts.{Numbers, Receipt, ReceiptItem}
use foodler.Storage.Database.{order_by}

-- `map.set(key(x), join(map.get(key(x)), x))`
module _ {A V : Type 0} (key : A → Text) (join : Option V → A → V) where
  unfoldable pub upsert_with : A → List (Text × V) → List (Text × V)
  upsert_with x [] = (key x, join none x) ∷ []
  upsert_with x ((k, v) ∷ entries) =
      let rest = upsert_with x entries in
      if text_eq k (key x) then (k, join (some v) x) ∷ entries else (k, v) ∷ rest

  -- The loop over the items.
  abbrev pub collect : List A → List (Text × V) → List (Text × V)
  collect [] entries = entries
  collect (x ∷ xs) entries = collect xs (upsert_with x entries)

-- The runtime's functions.
pub record Locales (N : Type 0) : Type 0 where
  pub round : N → N
  -- `a.localeCompare(b, "ru-RU") <= 0`
  pub collates : Text → Text → Bool
  -- `toLocaleUpperCase("ru-RU")`
  pub upper : Text → Text
  -- 0.01
  pub hundredth : N
  -- `new Date(text).getTime()`
  pub time : Text → Option ℕ

pub record CategoryExpense (N : Type 0) : Type 0 where
  pub label : Text
  pub value : N
  pub percentage : N

module _ {N : Type 0} (locale : Locale) (num : Numbers N) (run : Locales N) where
  -- `${normalizedName}\u0000${priceKopeks}`
  unfoldable pub item_key : ReceiptItem N → Text
  unfolding trim
  item_key item =
      locale.lower (trim item.name)
      ++ 0 ∷ num.show (run.round (num.multiply item.price_rub (num.of_nat 100)))

  abbrev pub merge_item : Option (ReceiptItem N) → ReceiptItem N → ReceiptItem N
  merge_item none item = item
  merge_item (some existing) item = record existing {
    quantity = num.add existing.quantity item.quantity;
    sum_rub = num.add existing.sum_rub item.sum_rub;
  }

  unfoldable pub group_receipt_items : List (ReceiptItem N) → List (ReceiptItem N)
  unfolding item_key upsert_with
  group_receipt_items items = map (λ e. e.1) (collect item_key merge_item items [])

  -- `(map.get(key) ?? 0) + value`
  abbrev pub add_value : {A : Type 0} → (A → N) → Option N → A → N
  add_value value total x = num.add (or_else total (num.of_nat 0)) (value x)

  -- `b.value - a.value` is at most 0.
  abbrev pub value_before : Text × N → Text × N → Bool
  value_before a b = not (num.less a.1 b.1)

  unfoldable pub sum_by : {A : Type 0} → (A → Text) → (A → N) → List A → List (Text × N)
  unfolding upsert_with order_by
  sum_by key value items = order_by value_before (collect key (add_value value) items [])

  abbrev pub category_of : ReceiptItem N → Text
  category_of item = normalize_category locale (some item.category)

  -- By the sum, the greatest first, and then by the label.
  abbrev pub total_before : Text × N → Text × N → Bool
  total_before a b = num.less b.1 a.1 || (not (num.less a.1 b.1) && run.collates a.0 b.0)

  unfoldable pub build_receipt_category_totals : List (ReceiptItem N) → List (Text × N)
  unfolding upsert_with order_by
  build_receipt_category_totals items =
      order_by total_before (collect category_of (add_value (λ item. item.sum_rub)) items [])

  -- From the start to the end of the period, both included.
  abbrev in_period : ℕ → ℕ → Option ℕ → Bool
  in_period start end none = false
  in_period start end (some t) = leb start t && leb t end

  unfoldable pub filter_receipts_by_selection : ℕ → ℕ → List (Receipt N) → List (Receipt N)
  filter_receipts_by_selection start end receipts =
      select (λ r. in_period start end (run.time r.ticket_date)) receipts

  abbrev pub sum_from : N → List N → N
  sum_from total [] = total
  sum_from total (x ∷ xs) = sum_from (num.add total x) xs

  unfoldable pub total_for_selection : ℕ → ℕ → List (Receipt N) → N
  unfolding filter_receipts_by_selection
  total_for_selection start end receipts =
      sum_from (num.of_nat 0)
        (map (λ r. num.absolute r.total_sum_rub) (filter_receipts_by_selection start end receipts))

  abbrev upper_first : Text → Text
  upper_first [] = []
  upper_first (c ∷ t) = run.upper (c ∷ []) ++ t

  abbrev other_label : Text
  other_label = codes "Другое"

  unfoldable pub expense_label : ReceiptItem N → Text
  expense_label item =
      let normalized = category_of item in
      if text_eq normalized fallback_category then other_label else upper_first normalized

  -- The items of the receipts in the period.
  unfoldable pub items_of_selection :
      ℕ → ℕ → List (Receipt N) → List (ReceiptItem N) → List (ReceiptItem N)
  unfolding filter_receipts_by_selection
  items_of_selection start end receipts items =
      select
        (λ i.
          any (λ r. text_eq r.id i.receipt_id) (filter_receipts_by_selection start end receipts))
        items

  abbrev pub expense_totals : ℕ → ℕ → List (Receipt N) → List (ReceiptItem N) → List (Text × N)
  unfolding expense_label items_of_selection upsert_with
  expense_totals start end receipts items =
      collect expense_label (add_value (λ item. num.absolute item.sum_rub))
        (items_of_selection start end receipts items) []

  abbrev pub sum_values : List (Text × N) → N
  sum_values totals = sum_from (num.of_nat 0) (map (λ e. e.1) totals)

  -- What the receipts cost beyond their items goes to the other label.
  unfoldable pub with_remainder : N → List (Text × N) → List (Text × N)
  unfolding upsert_with
  with_remainder total totals =
      if num.less (num.add (sum_values totals) run.hundredth) total
      then upsert_with (λ (amount : N). other_label)
          (λ old amount.
            num.add (num.add (or_else old (num.of_nat 0)) amount) (num.negate (sum_values totals)))
          total totals
      else totals

  abbrev pub expense_of : N → Text × N → CategoryExpense N
  expense_of total (label, value) = record {
    label = label;
    value = value;
    percentage = run.round (num.multiply (num.divide value total) (num.of_nat 100));
  }

  abbrev pub expense_before : CategoryExpense N → CategoryExpense N → Bool
  expense_before a b = not (num.less a.value b.value)

  abbrev pub expenses_of : List (Text × N) → List (CategoryExpense N)
  unfolding order_by
  expenses_of totals =
      let total = sum_values totals in
      if num.less total (num.of_nat 0) || num.equal total (num.of_nat 0)
      then []
      else order_by expense_before (map (expense_of total) totals)

  unfoldable pub build_category_expenses :
      ℕ → ℕ → List (Receipt N) → List (ReceiptItem N) → List (CategoryExpense N)
  unfolding expense_totals total_for_selection with_remainder expenses_of
  build_category_expenses start end receipts items = expenses_of (
      with_remainder (total_for_selection start end receipts)
        (expense_totals start end receipts items))
