-- ===== src/Storage/Response.antt =====
-- `normalizeReceiptResponse` of mobile/src/storage.ts: a provider's answer becomes a receipt. An
-- absent field, or one that is no number where a number is asked for, is `none`. `iso` is
-- `new Date(value).toISOString()`, where the date is valid, and `now` is `new Date().toISOString()`.
pub mod Items
use foodler.Common.{
  ℕ, ◌+◌, Bool, true, false, ◌&&◌, ◌||◌, not, Option, none, some, List, [], ◌∷◌, ◌++◌, map, select,
  take, leb, ◌==◌, or_else, or_option, if◌then◌else◌,
}
use foodler.Text.{Text, codes, is_empty, trim, join, Locale}
use foodler.Receipts.{Numbers, Receipt, ReceiptItem}
use foodler.Category.{normalize_server_category}
use foodler.Category.Detect.{detect_category}
use foodler.Storage.Identity.{normalize_qrraw, stable_receipt_id}

pub record ProviderItem (N : Type 0) : Type 0 where
  pub name : Option Text
  pub price : Option N
  pub sum : Option N
  pub quantity : Option N
  pub category : Option Text
  pub category_source : Option Text
  pub category_confidence : Option N
  pub category_taxonomy_version : Option Text
  pub category_model_version : Option Text

-- `data.json`; the fiscal numbers are kept as they print.
pub record ProviderData (N : Type 0) : Type 0 where
  pub ticket_date : Option Text
  pub operation_type : Option N
  pub total_sum : Option N
  pub user : Option Text
  pub date_time : Option Text
  pub fiscal_drive_number : Option Text
  pub fiscal_document_number : Option Text
  pub fiscal_sign : Option Text
  pub items : Option (List (ProviderItem N))

pub record ApiReceiptResponse (N : Type 0) : Type 0 where
  pub code : N
  pub receipt_id : Option Text
  pub json : Option (ProviderData N)
  pub request_qrraw : Option Text

-- `a || b`
abbrev pub text_or : Option Text → Text → Text
text_or none b = b
text_or (some a) b = if is_empty a then b else a

-- A string that is not falsy.
abbrev pub truthy : Option Text → Option Text
truthy none = none
truthy (some a) = if is_empty a then none else some a

abbrev trim_option : Option Text → Option Text
trim_option none = none
trim_option (some t) = some (trim t)

abbrev is_digit : ℕ → Bool
is_digit c = leb b'0' c && leb c b'9'

-- /^\d{4}-\d{2}-\d{2}$/
abbrev is_dashed : Text → Text → Bool
is_dashed [] [] = true
is_dashed (p ∷ ps) (c ∷ cs) = (if p == b'-' then c == b'-' else is_digit c) && is_dashed ps cs
is_dashed _ _ = false

abbrev pub is_calendar_date : Text → Bool
is_calendar_date t = is_dashed (codes "dddd-dd-dd") t

unfoldable pub to_iso_date : (Text → Option Text) → Text → Option Text → Text
to_iso_date iso now none = now
to_iso_date iso now (some value) =
    if is_calendar_date value
    then value
    else if is_empty value
    then now
    else or_else (iso value) now

module _ {N : Type 0} (num : Numbers N) where
  unfoldable pub rubles_from_kopeks : Option N → N
  rubles_from_kopeks none = num.of_nat 0
  rubles_from_kopeks (some value) = num.divide value (num.of_nat 100)

  abbrev printed : Option Text → Text
  printed value = or_else value (codes "undefined")

  -- The fiscal code of a total and of a date that are there. The literal 0.01 is 1 / 100.
  abbrev qrraw_of : ProviderData N → Text → N → Text
  qrraw_of details date total = join b'&' (
      (codes "t=" ++ take 13 (select (λ c. not (c == b'-' || c == b':')) date))
      ∷ (codes "s=" ++ num.show (num.multiply total (num.divide (num.of_nat 1) (num.of_nat 100))))
      ∷ (codes "fn=" ++ printed details.fiscal_drive_number)
      ∷ (codes "i=" ++ printed details.fiscal_document_number)
      ∷ (codes "fp=" ++ printed details.fiscal_sign)
      ∷ codes "n=1"
      ∷ [])

  abbrev qrraw_if : ProviderData N → Option Text → Option N → Option Text
  qrraw_if details (some date) (some total) = some (qrraw_of details date total)
  qrraw_if details _ _ = none

  unfoldable pub create_qrraw : ProviderData N → Option Text
  create_qrraw details = qrraw_if details (truthy details.date_time) details.total_sum

module _ {N : Type 0} (locale : Locale) (num : Numbers N) (iso : Text → Option Text)
    (now : Text) where
  -- A return of income or of expense.
  abbrev pub sign_of : N → N
  sign_of operation_type =
      if num.equal operation_type (num.of_nat 2) || num.equal operation_type (num.of_nat 4)
      then num.negate (num.of_nat 1)
      else num.of_nat 1

  unfoldable pub response_item : Text → N → ProviderItem N → ReceiptItem N
  unfolding rubles_from_kopeks
  response_item id sign item =
      let quantity = or_else item.quantity (num.of_nat 1) in
      record {
        id = none;
        receipt_id = id;
        name = text_or (trim_option item.name) (codes "Без названия");
        category =
            or_else (normalize_server_category locale item.category)
              (detect_category locale (or_else item.name []));
        price_rub = num.multiply sign (rubles_from_kopeks num item.price);
        quantity = quantity;
        sum_rub = num.multiply sign (
            rubles_from_kopeks num (
              some (or_else item.sum (num.multiply (or_else item.price (num.of_nat 0)) quantity))));
        category_source = item.category_source;
        category_confidence = item.category_confidence;
        category_taxonomy_version = item.category_taxonomy_version;
        category_model_version = item.category_model_version;
      }

  unfoldable pub response_receipt : ApiReceiptResponse N → ProviderData N → Text → N → N → Receipt N
  unfolding to_iso_date rubles_from_kopeks
  response_receipt response details qrraw operation_type sign = record {
    id = text_or response.receipt_id (stable_receipt_id (normalize_qrraw locale qrraw));
    qrraw = qrraw;
    organization = trim (text_or (trim_option details.user) (codes "Неизвестно"));
    ticket_date = to_iso_date iso now (or_option details.ticket_date details.date_time);
    operation_type = operation_type;
    total_sum_rub = num.multiply sign (rubles_from_kopeks num details.total_sum);
    source_code = response.code;
    status = none;
  }

  -- The answer of the code 1, once its fiscal code is known.
  abbrev pub response_of :
      ApiReceiptResponse N → ProviderData N → Text → Receipt N × List (ReceiptItem N)
  response_of response details qrraw =
      let operation_type = or_else details.operation_type (num.of_nat 3) in
      let receipt =
        response_receipt response details qrraw operation_type (sign_of operation_type) in
      (receipt, map (response_item receipt.id (sign_of operation_type)) (or_else details.items []))

  abbrev response_if :
      ApiReceiptResponse N
      → ProviderData N
      → Option Text
      → Option (Receipt N × List (ReceiptItem N))
  response_if response details none = none
  response_if response details (some qrraw) = some (response_of response details qrraw)

  unfoldable pub normalize_receipt_response :
      ApiReceiptResponse N → Option (Receipt N × List (ReceiptItem N))
  unfolding create_qrraw
  normalize_receipt_response response = elim response.json [
    | none ↦ none
    | some details ↦
        if num.equal response.code (num.of_nat 1)
        then response_if response details
            (or_option (truthy response.request_qrraw) (create_qrraw num details))
        else none
  ]
