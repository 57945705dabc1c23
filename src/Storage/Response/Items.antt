-- ===== src/Storage/Response/Items.antt =====
-- What a provider's answer is turned into can be stored and shown.
use foodler.Common.{
  ◌≡◌, ◌↔◌, refl, subst, ◌⊎◌, inl, inr, false, Option, none, some, List, [], ◌∷◌, map, All, arith,
  length, or_else, Bool-cases, Option-cases,
}
use foodler.Text.{Text, codes, is_empty, Locale}
use foodler.Receipts.{Numbers, Receipt, ReceiptItem}
use foodler.Storage.Response.{
  ApiReceiptResponse, ProviderItem, ProviderData, text_or, truthy, trim_option, response_if,
  create_qrraw, response_item, response_receipt, normalize_receipt_response,
}

module _ {N : Type 0} (locale : Locale) (num : Numbers N) (iso : Text → Option Text)
    (now : Text) where
  -- Every item stands under the receipt's key and has a name.
  abbrev pub IsNamed : Text → ReceiptItem N → Type 0
  IsNamed id item = (item.receipt_id ≡ id) × (is_empty item.name ≡ false)

  text_or-not_empty :
      (a : Option Text) (b : Text) → is_empty b ≡ false → is_empty (text_or a b) ≡ false
  text_or-not_empty none b h = h
  text_or-not_empty (some []) b h = h
  text_or-not_empty (some (c ∷ t)) b h = refl

  items-IsNamed :
      (id : Text) (sign : N) (items : List (ProviderItem N))
      → All (IsNamed id) (map (response_item locale num iso now id sign) items)
  unfolding response_item
  items-IsNamed id sign [] = tt
  items-IsNamed id sign (item ∷ items) = (
    (refl, text_or-not_empty (trim_option item.name) (codes "Без названия") refl),
    items-IsNamed id sign items,
  )

  length-map : {A B : Type 0} (f : A → B) (xs : List A) → length (map f xs) ≡ length xs
  length-map f [] = refl
  length-map f (x ∷ xs) = omega (arith, length-map f xs)

  -- The items that an answer describes.
  abbrev described : Option (ProviderData N) → List (ProviderItem N)
  described none = []
  described (some details) = or_else details.items []

  abbrev IsFine : List (ProviderItem N) → Option (Receipt N × List (ReceiptItem N)) → Type 0
  IsFine given none = Unit
  IsFine given (some (receipt, items)) =
      (length items ≡ length given) × All (IsNamed receipt.id) items

  response_if-IsFine :
      (response : ApiReceiptResponse N) (details : ProviderData N) (qrraw : Option Text)
      → IsFine (or_else details.items []) (response_if locale num iso now response details qrraw)
  response_if-IsFine response details none = tt
  response_if-IsFine response details (some qrraw) =
      (length-map _ (or_else details.items []), items-IsNamed _ _ (or_else details.items []))

  normalize-IsFine :
      (response : ApiReceiptResponse N)
      → IsFine (described response.json) (normalize_receipt_response locale num iso now response)
  unfolding normalize_receipt_response response_receipt
  normalize-IsFine response = elim (Option-cases response.json) [
    | inl e ↦ rw e tt
    | inr (details, e) ↦ elim (Bool-cases (num.equal response.code (num.of_nat 1))) [
      | inl one ↦ rw (e, one) (response_if-IsFine response details _)
      | inr other ↦ rw (e, other) tt
    ]
  ]

  -- An answer that is taken gives a receipt with as many items as it describes, all of them under
  -- the receipt's key and with a name that is not empty.
  pub response-IsNamed :
      (response : ApiReceiptResponse N) (receipt : Receipt N) (items : List (ReceiptItem N))
      → normalize_receipt_response locale num iso now response ≡ some (receipt, items)
      → (length items ≡ length (described response.json)) × All (IsNamed receipt.id) items
  unfolding normalize_receipt_response
  response-IsNamed response receipt items h =
      subst (IsFine (described response.json)) h (normalize-IsFine response)

  -- An answer with data is refused exactly when its code is not 1, or when no fiscal code is given
  -- and none can be computed from its data.
  pub response-refused_iff :
      (response : ApiReceiptResponse N) (details : ProviderData N)
      → response.json ≡ some details
      → (normalize_receipt_response locale num iso now response ≡ none) ↔ (
          (num.equal response.code (num.of_nat 1) ≡ false)
          ⊎ ((truthy response.request_qrraw ≡ none) × (create_qrraw num details ≡ none)))
  unfolding normalize_receipt_response
  response-refused_iff response details h = ground arith
