-- ===== src/Receipts.antt =====
-- The receipts of mobile/src/types.ts, and the numbers that they hold.
pub mod Samples
use foodler.Common.{ℕ, Bool, Option, List}
use foodler.Text.{Text}

-- JavaScript's numbers, as far as the code computes with them. No law is assumed of them.
pub record Numbers (N : Type 0) : Type 0 where
  pub of_nat : ℕ → N
  pub equal : N → N → Bool
  pub less : N → N → Bool
  pub add : N → N → N
  pub multiply : N → N → N
  pub divide : N → N → N
  pub negate : N → N
  pub absolute : N → N
  -- `${number}`
  pub show : N → Text

pub record Receipt (N : Type 0) : Type 0 where
  pub id : Text
  pub qrraw : Text
  pub organization : Text
  pub ticket_date : Text
  pub operation_type : N
  pub total_sum_rub : N
  pub source_code : N
  pub status : Option N

pub record ReceiptItem (N : Type 0) : Type 0 where
  pub id : Option ℕ
  pub receipt_id : Text
  pub name : Text
  pub category : Text
  pub price_rub : N
  pub quantity : N
  pub sum_rub : N
  pub category_source : Option Text
  pub category_confidence : Option N
  pub category_taxonomy_version : Option Text
  pub category_model_version : Option Text
