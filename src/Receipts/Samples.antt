-- ===== src/Receipts/Samples.antt =====
-- Concrete numbers and receipts, for runs of the components.
use foodler.Common.{ℕ, ◌+◌, ◌*◌, ◌/◌, none, [], ◌∷◌, ltb, ◌==◌}
use foodler.Text.{codes}
use foodler.Receipts.{Numbers, Receipt, ReceiptItem}

-- Whole roubles; no number is negative.
abbrev pub roubles : Numbers ℕ
roubles = record {
  of_nat = λ n. n;
  equal = λ a b. a == b;
  less = ltb;
  add = λ a b. a + b;
  multiply = λ a b. a * b;
  divide = λ a b. a / b;
  negate = λ a. a;
  absolute = λ a. a;
  show = λ a. a ∷ [];
}

abbrev pub shop_receipt : Receipt ℕ
shop_receipt = record {
  id = codes "qr:1";
  qrraw = codes "t=1&S=2";
  organization = codes "Магазин";
  ticket_date = codes "2026-07-23";
  operation_type = 1;
  total_sum_rub = 90;
  source_code = 1;
  status = none;
}

abbrev pub bread : ReceiptItem ℕ
bread = record {
  id = none;
  receipt_id = codes "qr:1";
  name = codes "Батон";
  category = codes "хлеб";
  price_rub = 30;
  quantity = 3;
  sum_rub = 90;
  category_source = none;
  category_confidence = none;
  category_taxonomy_version = none;
  category_model_version = none;
}
