-- ===== src/Sync/Pull.antt =====
-- `pullServerReceipts` of mobile/src/api/sync.ts. `page offset` is the outcome of the request for at
-- most 100 receipts from that offset on, and `now` is `new Date().toISOString()`. The loop over the
-- pages ends by the server's answers, so it runs on fuel.
pub mod Pages
pub mod Merged
use foodler.Common.{
  ℕ, zero, suc, ◌+◌, Bool, true, false, ◌||◌, not, Option, none, some, List, [], ◌∷◌, ◌++◌, map,
  length, or_else, or_option, if◌then◌else◌, ltb,
}
use foodler.Text.{Text, codes, is_empty, Locale}
use foodler.Receipts.{Numbers, Receipt, ReceiptItem}
use foodler.Category.{fallback_category, normalize_category}
use foodler.Storage.Operations.{Local, load_receipts, apply_server_item_categories}
use foodler.Sync.Ids.{
  Answer, answered, thrown, SyncState, has, add, is_authenticated, get_pending_deleted_ids,
  get_synced_ids, save_synced_ids,
}

abbrev pub receipt_page_size : ℕ
receipt_page_size = 100

-- The item of a receipt as the server describes it; null and undefined are both `none`.
pub record ServerItem (N : Type 0) : Type 0 where
  pub name : Option Text
  pub category : Option Text
  pub price : Option N
  pub quantity : Option N
  pub sum : Option N
  pub category_source : Option Text
  pub category_confidence : Option N
  pub category_taxonomy_version : Option Text
  pub category_model_version : Option Text

pub record ServerReceipt (N : Type 0) : Type 0 where
  pub id : Text
  pub store : Option Text
  pub date : Option Text
  pub total : Option N
  pub items : Option (List (ServerItem N))

-- `a || b` on strings
abbrev pub or_text : Option Text → Text → Text
or_text none b = b
or_text (some a) b = if is_empty a then b else a

-- The outcome of the loop over the pages; `unfinished` where the fuel is spent.
pub data Listing (A : Type 0) : Type 0 where
  listed : List A → Listing A
  failed : Listing A
  unfinished : Listing A

module _ {A : Type 0} where
  abbrev pub listed_after : List A → Listing A → Listing A
  listed_after xs (listed ys) = listed (xs ++ ys)
  listed_after xs failed = failed
  listed_after xs unfinished = unfinished

  abbrev next_pages : List A → Listing A → Listing A
  next_pages xs rest = if ltb (length xs) receipt_page_size then listed xs else listed_after xs rest

  unfoldable pub list_pages : (ℕ → Answer (List A)) → ℕ → ℕ → Listing A
  list_pages page zero offset = unfinished
  list_pages page (suc fuel) offset =
      let rest = list_pages page fuel (offset + receipt_page_size) in
      elim (page offset) [ thrown error ↦ failed | answered xs ↦ next_pages xs rest ]

module _ {N : Type 0} (locale : Locale) (num : Numbers N) where
  abbrev zero_number : N
  zero_number = num.of_nat 0

  abbrev one_number : N
  one_number = num.of_nat 1

  unfoldable pub pulled_item : Text → ℕ → ServerItem N → ReceiptItem N
  pulled_item id i item = record {
    id = none;
    receipt_id = id;
    name = or_text item.name (codes "Товар " ++ num.show (num.of_nat (i + 1)));
    category = normalize_category locale (some (or_else item.category fallback_category));
    price_rub = num.absolute (or_else item.price zero_number);
    quantity = or_else item.quantity one_number;
    sum_rub = num.absolute (
        or_else item.sum
          (num.multiply (or_else item.price zero_number) (or_else item.quantity one_number)));
    category_source = item.category_source;
    category_confidence = item.category_confidence;
    category_taxonomy_version = item.category_taxonomy_version;
    category_model_version = item.category_model_version;
  }

  unfoldable pub pulled_items : Text → ℕ → List (ServerItem N) → List (ReceiptItem N)
  unfolding pulled_item
  pulled_items id i [] = []
  pulled_items id i (item ∷ items) = pulled_item id i item ∷ pulled_items id (i + 1) items

  unfoldable pub pulled_receipt : Text → ServerReceipt N → Receipt N
  pulled_receipt now sr = record {
    id = sr.id;
    qrraw = codes "synced:" ++ sr.id;
    organization = or_text sr.store (codes "Синхронизировано");
    ticket_date = or_text sr.date now;
    operation_type = num.of_nat 3;
    total_sum_rub = or_else sr.total zero_number;
    source_code = num.of_nat 1;
    status = none;
  }

  -- What the loop over the server's receipts changes.
  pub record Merge : Type 0 where
    pub receipts : List (Receipt N)
    pub items : List (ReceiptItem N)
    pub local : Local N
    pub synced : List Text

  -- One turn of the loop: a receipt that waits for its deletion is only marked, one that is stored
  -- takes the server's categories, another goes to the result.
  unfoldable pub merge_receipt : Text → List Text → List Text → ServerReceipt N → Merge → Merge
  unfolding add
  merge_receipt now local_ids pending sr m =
      let items = pulled_items sr.id 0 (or_else sr.items []) in
      let marked : Merge = record m { synced = add sr.id m.synced } in
      if has sr.id pending
      then marked
      else if has sr.id local_ids
      then record marked { local = apply_server_item_categories locale num sr.id items m.local }
      else record marked {
        receipts = m.receipts ++ pulled_receipt now sr ∷ [];
        items = m.items ++ items;
      }

  unfoldable pub merge_receipts :
      Text → List Text → List Text → List (ServerReceipt N) → Merge → Merge
  merge_receipts now local_ids pending [] m = m
  merge_receipts now local_ids pending (sr ∷ srs) m =
      merge_receipts now local_ids pending srs (merge_receipt now local_ids pending sr m)

  -- The result, the tables and the device's keys after it.
  pub record Pulled : Type 0 where
    pub receipts : List (Receipt N)
    pub items : List (ReceiptItem N)
    pub local : Local N
    pub state : SyncState

  abbrev pub pulled_nothing : Local N → SyncState → Pulled
  pulled_nothing local state = record { receipts = []; items = []; local = local; state = state }

  abbrev pub pulled_merge : SyncState → Merge → Pulled
  pulled_merge state m = record {
    receipts = m.receipts;
    items = m.items;
    local = m.local;
    state = save_synced_ids m.synced state;
  }

  module _ (datetime : Text → Option Text) where
    abbrev pub local_ids : Local N → List Text
    local_ids local = map (λ r. r.id) (load_receipts datetime local)

    -- `none` where the fuel is spent.
    unfoldable pub pull_server_receipts :
        Option Text
        → (ℕ → Answer (List (ServerReceipt N)))
        → ℕ
        → Text
        → Local N
        → SyncState
        → Option Pulled
    pull_server_receipts token page fuel now local state =
        if not (is_authenticated token)
        then some (pulled_nothing local state)
        else elim (list_pages page fuel 0) [
          | unfinished ↦ none
          | failed ↦ some (pulled_nothing local state)
          | listed srs ↦ some (
              pulled_merge state (
                merge_receipts now (local_ids local) (get_pending_deleted_ids state) srs (record {
                  receipts = [];
                  items = [];
                  local = local;
                  synced = get_synced_ids state;
                })))
        ]
