-- ===== src/ManualReceipt/Tests.antt =====
-- A run of mobile/src/features/receipts/manualReceipt.ts: a draft of two items.
use foodler.Common.{ℕ, ◌≡◌, ◌↔◌, refl, none, some, [], ◌∷◌, ◌==◌, if◌then◌else◌}
use foodler.Text.{codes, text_eq, trim, is_space, drop_spaces}
use foodler.Text.Russian.{russian}
use foodler.Receipts.Samples.{roubles}
use foodler.ManualReceipt.{
  ReceiptDraftItem, ManualReceiptDraft, ManualReceiptResult, Runtime, match_date, replace_comma,
  parse_positive_decimal, parse_local_date, build_manual_receipt,
}
use foodler.ManualReceipt.Built.{IsEntered, IsBuilt, build_manual_receipt_iff}

abbrev runtime : Runtime ℕ
runtime = record {
  number =
      λ t. if text_eq t (codes "3") then some 3 else if text_eq t (codes "2") then some 2 else none;
  round = λ n. n;
  epsilon = 0;
  local_date = λ y m d. if d == 31 then (y, m, 1) else (y, m, d);
  iso = λ y m d. codes "2026-07-23T12:00:00.000Z";
}

abbrev item : ReceiptDraftItem
item = record {
  id = codes "draft-1";
  name = codes " Батон ";
  price_rub = codes "3";
  quantity = codes " 2";
}

abbrev draft : ManualReceiptDraft
draft = record {
  organization = codes "Магазин";
  date = codes "2026-07-23";
  items = item ∷ item ∷ [];
}

build_manual_receipt_iff_example : IsEntered russian roubles runtime draft ↔ (
    (result : ManualReceiptResult ℕ) × ((build_manual_receipt russian roubles runtime draft
          (codes "1")
          (codes "x")
        ≡ some result)
      × IsBuilt russian roubles runtime draft result))
build_manual_receipt_iff_example =
    build_manual_receipt_iff russian roubles runtime draft (codes "1") (codes "x")

draft-IsEntered : IsEntered russian roubles runtime draft
unfolding trim is_space drop_spaces text_eq match_date replace_comma parse_positive_decimal
    parse_local_date
draft-IsEntered = (refl, refl, refl, ((refl, refl, refl), ((refl, refl, refl), tt)))
