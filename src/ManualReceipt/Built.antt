-- ===== src/ManualReceipt/Built.antt =====
-- Which drafts become receipts, and what these receipts have.
use foodler.Common.{
  ◌≡◌, refl, sym, ap, ap₂, ◌↔◌, Bool, true, false, Option, none, some, List, [], ◌∷◌, ◌++◌, map,
  any, or_else, All, Bool-cases, inl, inr,
}
use foodler.Text.{Text, codes, text_eq, is_empty, trim, starts_with, Locale}
use foodler.Receipts.{Numbers, ReceiptItem}
use foodler.Sync.Upload.{to_server_receipt}
use foodler.ManualReceipt.{
  ReceiptDraftItem, ManualReceiptDraft, ManualReceiptResult, Runtime, set_error, set_error_if,
  is_missing, no_items, parse_positive_decimal, parse_local_date, validate_item, validate_items,
  validate_manual_receipt, round_money, item_total, sum_from, calculate_manual_receipt_total,
  built_item, built_receipt, item_if, build_item, and_item, build_items, result_if, unless_errors,
  build_manual_receipt,
}

append-nonempty : (key : Text) (errors : List Text) → errors ++ key ∷ [] ≡ [] → ⊥
append-nonempty key [] h = cc
append-nonempty key (e ∷ errors) h = cc

set_error-nonempty : (key : Text) (errors : List Text) → set_error key errors ≡ [] → ⊥
set_error-nonempty key [] h = cc
set_error-nonempty key (e ∷ errors) h = elim (Bool-cases (any (λ k. text_eq k key) (e ∷ errors))) [
  | inl old ↦ cc (rw old at h)
  | inr new ↦ append-nonempty key (e ∷ errors) (rw new at h)
]

set_error_if-empty :
    (b : Bool) (key : Text) (errors : List Text)
    → set_error_if b key errors ≡ []
    → (b ≡ false) × (errors ≡ [])
set_error_if-empty true key errors h = absurd (set_error-nonempty key errors h)
set_error_if-empty false key errors h = (refl, h)

present-some : {A : Type 0} (o : Option A) → is_missing o ≡ false → (x : A) × (o ≡ some x)
present-some none h = absurd cc
present-some (some x) h = (x, refl)

module _ {N : Type 0} (locale : Locale) (num : Numbers N) (run : Runtime N) where
  -- The item has a name, a price and a quantity, both positive numbers.
  abbrev pub IsItem : ReceiptDraftItem → Type 0
  IsItem item =
      (is_empty (trim item.name) ≡ false)
      × (is_missing (parse_positive_decimal locale num run item.price_rub) ≡ false)
      × (is_missing (parse_positive_decimal locale num run item.quantity) ≡ false)

  -- The draft has a shop, a real date, and items, all complete.
  abbrev pub IsEntered : ManualReceiptDraft → Type 0
  IsEntered draft =
      (is_empty (trim draft.organization) ≡ false)
      × (is_missing (parse_local_date locale num run draft.date) ≡ false)
      × (no_items draft.items ≡ false)
      × All IsItem draft.items

  validate_items-empty :
      (items : List ReceiptDraftItem) (errors : List Text)
      → validate_items locale num run items errors ≡ []
      → All IsItem items × (errors ≡ [])
  validate_items-empty [] errors h = (tt, h)
  validate_items-empty (item ∷ items) errors h =
      let (rest, e) = validate_items-empty items (validate_item locale num run item errors) h in
      let (q, e) = set_error_if-empty _ _ _ e in
      let (p, e) = set_error_if-empty _ _ _ e in
      let (n, e) = set_error_if-empty _ _ _ e in (((n, p, q), rest), e)

  validate-IsEntered :
      (draft : ManualReceiptDraft)
      → validate_manual_receipt locale num run draft ≡ []
      → IsEntered draft
  unfolding validate_manual_receipt
  validate-IsEntered draft h =
      let (items, e) = validate_items-empty draft.items _ h in
      let (some_items, e) = set_error_if-empty _ _ _ e in
      let (date, e) = set_error_if-empty _ _ _ e in
      let (shop, e) = set_error_if-empty _ _ _ e in (shop, date, some_items, items)

  validate_items-IsItem :
      (items : List ReceiptDraftItem)
      → All IsItem items
      → validate_items locale num run items [] ≡ []
  validate_items-IsItem [] h = refl
  validate_items-IsItem (item ∷ items) ((n, p, q), h) = rw (n, p, q) (validate_items-IsItem items h)

  IsEntered-validates :
      (draft : ManualReceiptDraft)
      → IsEntered draft
      → validate_manual_receipt locale num run draft ≡ []
  unfolding validate_manual_receipt
  IsEntered-validates draft (shop, date, some_items, items) =
      rw (shop, date, some_items) (validate_items-IsItem draft.items items)

  -- What the receipt has: one item for each of the draft, in its order, with its trimmed name and the
  -- receipt's identifier; a total that is the rounded sum of theirs; no key of a scanned receipt when
  -- it is uploaded.
  abbrev pub IsBuilt : ManualReceiptDraft → ManualReceiptResult N → Type 0
  IsBuilt draft result =
      (map (λ i. i.name) result.items ≡ map (λ (i : ReceiptDraftItem). trim i.name) draft.items)
      × All (λ i. i.receipt_id ≡ result.receipt.id) result.items
      × (result.receipt.total_sum_rub
          ≡ round_money locale num run
              (sum_from locale num run (num.of_nat 0) (map (λ i. i.sum_rub) result.items)))
      × ((to_server_receipt num result.receipt result.items).source_key ≡ none)

  -- The items of a draft of complete ones.
  AreBuilt : Text → List ReceiptDraftItem → List (ReceiptItem N) → Type 0
  AreBuilt id drafts items =
      (map (λ i. i.name) items ≡ map (λ (i : ReceiptDraftItem). trim i.name) drafts)
      × All (λ i. i.receipt_id ≡ id) items
      × (map (λ i. i.sum_rub) items ≡ map (item_total locale num run) drafts)

  build_items-built :
      (id : Text) (drafts : List ReceiptDraftItem)
      → All IsItem drafts
      → (items : List (ReceiptItem N)) × ((build_items locale num run id drafts ≡ some items)
          × AreBuilt id drafts items)
  unfolding build_items AreBuilt build_item item_total
  build_items-built id [] h = ([], (refl, (refl, tt, refl)))
  build_items-built id (item ∷ drafts) ((n, p, q), h) =
      let (items, (e, (names, ids, sums))) = build_items-built id drafts h in
      let (price, pe) = present-some _ p in
      let (quantity, qe) = present-some _ q in
      let built = ap₂ (item_if locale num run id item) pe qe in
      (
        built_item locale num run id item price quantity ∷ items,
        (
          ap₂ (and_item locale num run) built e,
          (
            ap (λ (ns : List Text). trim item.name ∷ ns) names,
            (refl, ids),
            ap₂ (λ (x : N) (xs : List N). x ∷ xs)
                (ap₂
                  (λ a b.
                    round_money locale num run
                      (num.multiply (or_else a (num.of_nat 0)) (or_else b (num.of_nat 0))))
                  (sym pe) (sym qe))
                sums,
          ),
        ),
      )

  build-IsBuilt :
      (draft : ManualReceiptDraft) (now suffix : Text)
      → IsEntered draft
      → (result : ManualReceiptResult N) × ((build_manual_receipt locale num run draft now suffix
            ≡ some result)
          × IsBuilt draft result)
  unfolding build_manual_receipt AreBuilt calculate_manual_receipt_total to_server_receipt
      starts_with
  build-IsBuilt draft now suffix entered =
      let id = codes "manual:" ++ now ++ codes ":" ++ suffix in
      let (date, de) = present-some _ entered.1 in
      let (items, (e, (names, ids, sums))) = build_items-built id draft.items entered.3 in
      (
        record { receipt = built_receipt locale num run id draft date; items = items },
        (
          ap₂ (unless_errors locale num run) (IsEntered-validates draft entered)
              (ap₂ (result_if locale num run id draft) de e),
          (
            names,
            ids,
            ap (λ xs. round_money locale num run (sum_from locale num run (num.of_nat 0) xs))
                (sym sums),
            refl,
          ),
        ),
      )

  built-IsEntered :
      (draft : ManualReceiptDraft) (now suffix : Text) (result : ManualReceiptResult N)
      (errors : List Text)
      → validate_manual_receipt locale num run draft ≡ errors
      → build_manual_receipt locale num run draft now suffix ≡ some result
      → IsEntered draft
  unfolding build_manual_receipt
  built-IsEntered draft now suffix result [] v h = validate-IsEntered draft v
  built-IsEntered draft now suffix result (key ∷ errors) v h = absurd (cc (rw v at h))

  -- `buildManualReceipt` returns a receipt exactly for the drafts that have a shop, a date of the
  -- calendar and at least one item, all with a name and a positive price and quantity; the checks after
  -- the validation never throw. The receipt has one item for each of the draft, with its trimmed name
  -- and the receipt's identifier, its total is the rounded sum of theirs, and an upload gives it no key of a scanned
  -- receipt.
  pub build_manual_receipt_iff :
      (draft : ManualReceiptDraft) (now suffix : Text)
      → IsEntered draft ↔ (
          (result : ManualReceiptResult N) × ((build_manual_receipt locale num run draft now suffix
              ≡ some result)
            × IsBuilt draft result))
  build_manual_receipt_iff draft now suffix = (
    build-IsBuilt draft now suffix,
    λ (result, (h, built)). built-IsEntered draft now suffix result _ refl h,
  )
