-- ===== src/ManualReceipt.antt =====
-- mobile/src/features/receipts/manualReceipt.ts: receipts that the user types in. The runtime gives
-- `Number` on a string (`none` unless finite), `Math.round`, the fields of the local date that
-- `new Date(year, month - 1, day, 12)` makes, its months from 1 on, and `toISOString` of that date.
pub mod Built
mod Tests
use foodler.Common.{
  ℕ, ◌+◌, ◌-◌, ◌*◌, ◌≡◌, refl, Bool, true, false, not, ◌&&◌, ◌||◌, Option, none, some, List, [],
  ◌∷◌, ◌++◌, map, any, or_else, if◌then◌else◌, leb, ◌==◌,
}
use foodler.Text.{Text, codes, text_eq, is_empty, trim, Locale}
use foodler.Category.Detect.{detect_category}
use foodler.Receipts.{Numbers, Receipt, ReceiptItem}

pub record ReceiptDraftItem : Type 0 where
  pub id : Text
  pub name : Text
  pub price_rub : Text
  pub quantity : Text

pub record ManualReceiptDraft : Type 0 where
  pub organization : Text
  pub date : Text
  pub items : List ReceiptDraftItem

pub record ManualReceiptResult (N : Type 0) : Type 0 where
  pub receipt : Receipt N
  pub items : List (ReceiptItem N)

-- What the runtime computes.
pub record Runtime (N : Type 0) : Type 0 where
  pub number : Text → Option N
  pub round : N → N
  pub epsilon : N
  pub local_date : ℕ → ℕ → ℕ → ℕ × ℕ × ℕ
  pub iso : ℕ → ℕ → ℕ → Text

abbrev is_digit : ℕ → Bool
is_digit c = leb 48 c && leb c 57

abbrev all_digits : List ℕ → Bool
all_digits [] = true
all_digits (c ∷ cs) = is_digit c && all_digits cs

abbrev digits_value : ℕ → List ℕ → ℕ
digits_value n [] = n
digits_value n (c ∷ cs) = digits_value (n * 10 + (c - 48)) cs

-- `DATE_PATTERN`: four digits, two and two, with `-` between them.
unfoldable pub match_date : Text → Option (ℕ × ℕ × ℕ)
match_date (a ∷ b ∷ c ∷ d ∷ dash ∷ e ∷ f ∷ hyphen ∷ g ∷ h ∷ []) =
    if all_digits (a ∷ b ∷ c ∷ d ∷ e ∷ f ∷ g ∷ h ∷ []) && dash == 45 && hyphen == 45
    then some (
      digits_value 0 (a ∷ b ∷ c ∷ d ∷ []),
      digits_value 0 (e ∷ f ∷ []),
      digits_value 0 (g ∷ h ∷ []),
    )
    else none
match_date _ = none

-- `value.replace(",", ".")`: the first comma only.
unfoldable pub replace_comma : Text → Text
replace_comma [] = []
replace_comma (c ∷ t) = let rest = replace_comma t in if c == 44 then 46 ∷ t else c ∷ rest

-- `errors[key] = true`
abbrev pub set_error : Text → List Text → List Text
set_error key errors = if any (λ k. text_eq k key) errors then errors else errors ++ key ∷ []

abbrev pub set_error_if : Bool → Text → List Text → List Text
set_error_if true key errors = set_error key errors
set_error_if false key errors = errors

abbrev pub is_missing : {A : Type 0} → Option A → Bool
is_missing none = true
is_missing (some x) = false

abbrev pub no_items : List ReceiptDraftItem → Bool
no_items [] = true
no_items (i ∷ is) = false

module _ {N : Type 0} (locale : Locale) (num : Numbers N) (run : Runtime N) where
  abbrev if_positive : Option N → Option N
  if_positive none = none
  if_positive (some parsed) = if num.less (num.of_nat 0) parsed then some parsed else none

  unfoldable pub parse_positive_decimal : Text → Option N
  unfolding replace_comma trim
  parse_positive_decimal value = if_positive (run.number (replace_comma (trim value)))

  abbrev same_date : ℕ × ℕ × ℕ → ℕ × ℕ × ℕ → Bool
  same_date (y, m, d) (year, month, day) = y == year && m == month && d == day

  abbrev if_real : Option (ℕ × ℕ × ℕ) → Option (ℕ × ℕ × ℕ)
  if_real none = none
  if_real (some (year, month, day)) =
      if same_date (run.local_date year month day) (year, month, day)
      then some (year, month, day)
      else none

  unfoldable pub parse_local_date : Text → Option (ℕ × ℕ × ℕ)
  unfolding match_date
  parse_local_date value = if_real (match_date value)

  abbrev pub validate_item : ReceiptDraftItem → List Text → List Text
  validate_item item errors =
      set_error_if (is_missing (parse_positive_decimal item.quantity))
        (item.id ++ codes "_quantity")
        (set_error_if (is_missing (parse_positive_decimal item.price_rub))
          (item.id ++ codes "_price") (set_error_if (is_empty (trim item.name)) item.id errors))

  abbrev pub validate_items : List ReceiptDraftItem → List Text → List Text
  validate_items [] errors = errors
  validate_items (item ∷ items) errors = validate_items items (validate_item item errors)

  -- The keys of the record of errors.
  unfoldable pub validate_manual_receipt : ManualReceiptDraft → List Text
  unfolding parse_positive_decimal parse_local_date
  validate_manual_receipt draft = validate_items draft.items (
      set_error_if (no_items draft.items) (codes "items") (
        set_error_if (is_missing (parse_local_date draft.date)) (codes "date")
          (set_error_if (is_empty (trim draft.organization)) (codes "organization") [])))

  unfoldable pub round_money : N → N
  round_money value =
      num.divide (run.round (num.multiply (num.add value run.epsilon) (num.of_nat 100)))
        (num.of_nat 100)

  -- What an item adds to the total.
  unfoldable pub item_total : ReceiptDraftItem → N
  unfolding round_money parse_positive_decimal
  item_total item = round_money (
      num.multiply (or_else (parse_positive_decimal item.price_rub) (num.of_nat 0))
        (or_else (parse_positive_decimal item.quantity) (num.of_nat 0)))

  abbrev pub sum_from : N → List N → N
  sum_from total [] = total
  sum_from total (x ∷ xs) = sum_from (num.add total x) xs

  unfoldable pub calculate_manual_receipt_total : List ReceiptDraftItem → N
  unfolding item_total round_money
  calculate_manual_receipt_total items =
      round_money (sum_from (num.of_nat 0) (map item_total items))

  abbrev pub built_item : Text → ReceiptDraftItem → N → N → ReceiptItem N
  unfolding round_money detect_category trim
  built_item id item price quantity = record {
    id = none;
    receipt_id = id;
    name = trim item.name;
    category = detect_category locale item.name;
    price_rub = price;
    quantity = quantity;
    sum_rub = round_money (num.multiply price quantity);
    category_source = none;
    category_confidence = none;
    category_taxonomy_version = none;
    category_model_version = none;
  }

  -- `none` where the function throws.
  abbrev pub item_if : Text → ReceiptDraftItem → Option N → Option N → Option (ReceiptItem N)
  item_if id item (some price) (some quantity) = some (built_item id item price quantity)
  item_if id item _ _ = none

  unfoldable pub build_item : Text → ReceiptDraftItem → Option (ReceiptItem N)
  unfolding parse_positive_decimal built_item
  build_item id item =
      item_if id item (parse_positive_decimal item.price_rub) (parse_positive_decimal item.quantity)

  abbrev pub and_item :
      Option (ReceiptItem N) → Option (List (ReceiptItem N)) → Option (List (ReceiptItem N))
  and_item (some item) (some items) = some (item ∷ items)
  and_item _ _ = none

  unfoldable pub build_items : Text → List ReceiptDraftItem → Option (List (ReceiptItem N))
  unfolding build_item
  build_items id [] = some []
  build_items id (item ∷ items) = and_item (build_item id item) (build_items id items)

  abbrev pub built_receipt : Text → ManualReceiptDraft → ℕ × ℕ × ℕ → Receipt N
  unfolding calculate_manual_receipt_total trim
  built_receipt id draft (year, month, day) = record {
    id = id;
    qrraw = id;
    organization = trim draft.organization;
    ticket_date = run.iso year month day;
    operation_type = num.of_nat 3;
    total_sum_rub = calculate_manual_receipt_total draft.items;
    source_code = num.of_nat 1;
    status = none;
  }

  abbrev pub result_if :
      Text
      → ManualReceiptDraft
      → Option (ℕ × ℕ × ℕ)
      → Option (List (ReceiptItem N))
      → Option (ManualReceiptResult N)
  unfolding built_receipt
  result_if id draft (some date) (some items) =
      some (record { receipt = built_receipt id draft date; items = items })
  result_if id draft _ _ = none

  abbrev pub unless_errors : {A : Type 0} → List Text → Option A → Option A
  unless_errors [] result = result
  unless_errors (key ∷ errors) result = none

  -- `now` is the literal of `now.getTime()`; `none` where the function throws.
  unfoldable pub build_manual_receipt :
      ManualReceiptDraft → Text → Text → Option (ManualReceiptResult N)
  unfolding validate_manual_receipt build_items result_if parse_local_date
  build_manual_receipt draft now suffix =
      let id = codes "manual:" ++ now ++ codes ":" ++ suffix in
      unless_errors (validate_manual_receipt draft)
        (result_if id draft (parse_local_date draft.date) (build_items id draft.items))
