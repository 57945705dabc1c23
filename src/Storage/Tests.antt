-- ===== src/Storage/Tests.antt =====
-- Runs of the local storage, and its theorems at concrete inputs.
use foodler.Common.{
  select, Option, or_else, List, length, ℕ, ◌≡◌, refl, false, none, some, [], ◌∷◌, map, All,
}
use foodler.Text.{
  Text, codes, text_eq, trim, is_space, lower_unit, split, join, sort_texts, text_le,
}
use foodler.Text.Russian.{russian}
use foodler.Receipts.{Receipt, ReceiptItem}
use foodler.Receipts.Samples.{roubles, shop_receipt, bread}
use foodler.ReceiptChanges.{start, notify_receipt_change}
use foodler.Category.{normalize_category, label_of, lookup_text}
use foodler.Storage.Database.{
  utf8_le, empty_database, insert_receipt, insert_receipt_item, delete_receipt_items,
  select_receipt_items, upsert, upsert_receipt_category_override, select_receipt_category_override,
}
use foodler.Storage.Identity.{normalize_product_name, normalize_qrraw, stable_receipt_id}
use foodler.Storage.Operations.{
  Local, stored_item, insert_items, save_receipt, delete_receipt, save_local_category_override,
  has_local_category_override, load_receipt_items, apply_server_item_categories,
  normalize_persisted_categories, apply_local_category_overrides,
}
use foodler.Storage.Validity.{
  IsValid, empty-IsValid, save, delete, perform_all, perform_all-IsValid,
}
use foodler.Storage.Saving.{normal_receipt}
use foodler.Storage.Saving.Theorems.{items_of, save_receipt-stores, delete-save_receipt}
use mathlib.Core.List.{Perm}
use mathlib.Core.List.Perm
use foodler.Storage.Saving.Codes.{code_parts, save_receipt_reordered}
use foodler.Storage.Overrides.{
  recategorize, Respects, load_receipt_items-save_override, override-survives_server,
}
use foodler.Storage.Overrides.Normalized.{IsNormal, normalize_persisted_categories-IsNormal}
use foodler.Storage.Joined.{load_joined_items, load_joined_items-load_receipt_items}
use foodler.Storage.Response.{
  ApiReceiptResponse, ProviderItem, ProviderData, response_of, normalize_receipt_response,
}
use foodler.Storage.Response.Items.{IsNamed, response-IsNamed}

storage : Unit {0}
unfolding save_receipt insert_items insert_receipt insert_receipt_item delete_receipt_items
    delete_receipt select_receipt_items save_local_category_override load_receipt_items
    apply_local_category_overrides upsert_receipt_category_override upsert lookup_text
    select_receipt_category_override normalize_product_name normalize_qrraw normalize_category
    label_of split join sort_texts trim is_space lower_unit text_eq text_le utf8_le
    notify_receipt_change has_local_category_override
storage = tt

abbrev empty : Local ℕ
empty = record { database = empty_database; changes = start }

abbrev one_receipt : Local ℕ
one_receipt = save_receipt russian shop_receipt (bread ∷ []) empty

-- The same fiscal code with its parts in another order and case, under another key.
abbrev reordered : Receipt ℕ
reordered = record shop_receipt { id = codes "qr:2"; qrraw = codes " s=2 & T=1" }

qrraw_tests :
    (normalize_qrraw russian (codes " s=2 & T=1") ≡ codes "s=2&t=1")
    × (normalize_qrraw russian (codes "t=1&S=2&") ≡ codes "s=2&t=1")
unfolding storage
qrraw_tests = (refl, refl)

-- FNV-1a of "a" is 0xe40c292c.
receipt_id_test : stable_receipt_id (codes "a") ≡ codes "qr:e40c292c"
unfolding stable_receipt_id
receipt_id_test = refl

load_test :
    map
      (λ (i : ReceiptItem ℕ). i.category)
      (load_receipt_items russian roubles (codes "qr:1") one_receipt)
    ≡ codes "Хлеб и выпечка" ∷ []
unfolding storage
load_test = refl

perform_all-IsValid_example :
    IsValid
      (perform_all russian roubles
        (save shop_receipt (bread ∷ []) ∷ delete (codes "qr:1") ∷ [])
        empty).database
perform_all-IsValid_example =
    perform_all-IsValid russian roubles
      (save shop_receipt (bread ∷ []) ∷ delete (codes "qr:1") ∷ []) empty empty-IsValid

same_code : (text_eq (codes "qr:1") (codes "qr:2") ≡ false)
unfolding text_eq
same_code = refl

reordered-Perm : Perm (code_parts russian reordered.qrraw) (code_parts russian shop_receipt.qrraw)
unfolding storage
reordered-Perm = Perm.swap (codes "t=1") (codes "s=2") []

save_receipt_reordered_example :
    (save_receipt russian reordered [] one_receipt).database ≡ one_receipt.database
save_receipt_reordered_example =
    save_receipt_reordered russian shop_receipt reordered (bread ∷ []) [] empty refl reordered-Perm

save_receipt-stores_example :
    (one_receipt.database.receipts
      ≡ record (normal_receipt russian shop_receipt) { status = none } ∷ [])
    × (items_of russian (codes "qr:1") one_receipt
        ≡ map (stored_item russian (codes "qr:1")) (bread ∷ []))
    × (items_of russian (codes "qr:2") one_receipt ≡ [])
save_receipt-stores_example =
    save_receipt-stores russian shop_receipt (bread ∷ []) empty (codes "qr:2") refl same_code

delete-save_receipt_example :
    ((delete_receipt (codes "qr:1") one_receipt).database.receipts ≡ [])
    × ((delete_receipt (codes "qr:1") one_receipt).database.items ≡ [])
    × ((delete_receipt (codes "qr:1") one_receipt).database.overrides ≡ [])
delete-save_receipt_example =
    delete-save_receipt russian shop_receipt (bread ∷ []) empty empty-IsValid refl

abbrev with_override : Local ℕ
with_override = record one_receipt {
  database = upsert_receipt_category_override (codes "батон") (codes "Тосты") one_receipt.database;
  changes = notify_receipt_change one_receipt.changes;
}

override_saved :
    save_local_category_override russian (codes " БАТОН") (codes "Тосты ") one_receipt
    ≡ some with_override
unfolding storage
override_saved = refl

no_override : has_local_category_override russian (codes " БАТОН") one_receipt ≡ false
unfolding storage
no_override = refl

load_receipt_items-save_override_example :
    load_receipt_items russian roubles (codes "qr:1") with_override
    ≡ map
        (recategorize russian (codes " БАТОН") (trim (codes "Тосты ")))
        (load_receipt_items russian roubles (codes "qr:1") one_receipt)
load_receipt_items-save_override_example =
    load_receipt_items-save_override russian roubles (codes " БАТОН") (codes "Тосты ")
      (codes "qr:1") one_receipt with_override override_saved

override_found :
    select_receipt_category_override
      (normalize_product_name russian (codes "Батон"))
      with_override.database
    ≡ some (codes "Тосты")
unfolding storage
override_found = refl

override-survives_server_example : All (Respects russian roubles (codes "Батон") (codes "Тосты")) (
    load_receipt_items russian roubles
      (codes "qr:1")
      (apply_server_item_categories russian roubles (codes "qr:1") (bread ∷ []) with_override))
override-survives_server_example =
    override-survives_server russian roubles (codes "Батон") (codes "Тосты") (codes "qr:1")
      (codes "qr:1") (bread ∷ []) with_override override_found

normalize_persisted_categories-IsNormal_example :
    All (IsNormal russian) (normalize_persisted_categories russian one_receipt.database).items
normalize_persisted_categories-IsNormal_example =
    normalize_persisted_categories-IsNormal russian one_receipt.database

abbrev described_milk : ProviderItem ℕ
described_milk = record {
  name = some (codes " Молоко ");
  price = some 9000;
  sum = none;
  quantity = none;
  category = none;
  category_source = none;
  category_confidence = none;
  category_taxonomy_version = none;
  category_model_version = none;
}

abbrev answer : ApiReceiptResponse ℕ
answer = record {
  code = 1;
  receipt_id = none;
  json = some (record {
    ticket_date = some (codes "2026-07-23");
    operation_type = none;
    total_sum = some 9000;
    user = some (codes " Магазин ");
    date_time = none;
    fiscal_drive_number = none;
    fiscal_document_number = none;
    fiscal_sign = none;
    items = some (described_milk ∷ []);
  });
  request_qrraw = some (codes "t=1&s=2");
}

-- An answer whose request gave no fiscal code, and whose total is missing.
abbrev incomplete : ProviderData ℕ
incomplete = record {
  ticket_date = none;
  operation_type = none;
  total_sum = none;
  user = none;
  date_time = some (codes "2026-07-23T17:07:00");
  fiscal_drive_number = none;
  fiscal_document_number = none;
  fiscal_sign = none;
  items = none;
}

abbrev no_iso : Text → Option Text
no_iso date = none

abbrev taken : Receipt ℕ × List (ReceiptItem ℕ)
taken =
    response_of russian roubles no_iso (codes "now") answer (or_else answer.json incomplete)
      (codes "t=1&s=2")

answer-taken :
    normalize_receipt_response russian roubles no_iso (codes "now") answer ≡ some (taken.0, taken.1)
unfolding normalize_receipt_response
answer-taken = refl

response-IsNamed_example :
    (length taken.1 ≡ 1) × All (IsNamed russian roubles no_iso (codes "now") taken.0.id) taken.1
response-IsNamed_example =
    response-IsNamed russian roubles no_iso (codes "now") answer taken.0 taken.1 answer-taken

abbrev saved : Local ℕ
saved = perform_all russian roubles (save shop_receipt (bread ∷ []) ∷ []) empty

load_joined_items-load_receipt_items_example :
    length (
      select
        (λ j. text_eq j.item.receipt_id (codes "qr:1"))
        (load_joined_items russian roubles (λ date. some date) saved))
    ≡ length (load_receipt_items russian roubles (codes "qr:1") saved)
load_joined_items-load_receipt_items_example =
    load_joined_items-load_receipt_items russian roubles (λ date. some date) saved (codes "qr:1")
      (perform_all-IsValid russian roubles (save shop_receipt (bread ∷ []) ∷ []) empty
        empty-IsValid)
