-- ===== src/Storage/Saving/Codes.antt =====
-- Fiscal codes that `normalizeQrraw` of mobile/src/storage.ts takes as one.
use mathlib.Core.List.{Perm}
use foodler.Common.{◌≡◌, ap, not, List, map, select, arith}
use foodler.Text.{Text, is_empty, trim, split, join, Locale}
use foodler.Text.Laws.{text_eq_refl}
use foodler.Text.Sorting.{sort_texts-Perm}
use foodler.Receipts.{Receipt, ReceiptItem}
use foodler.Storage.Identity.{normalize_qrraw}
use foodler.Storage.Operations.{Local, save_receipt}
use foodler.Storage.Saving.{SameReceipt}
use foodler.Storage.Saving.Theorems.{IsNew, save_receipt-duplicate}

module _ (locale : Locale) where
  -- The parts of a code between `&`: trimmed, in lower case, without the empty ones.
  abbrev pub code_parts : Text → List Text
  code_parts code =
      select (λ part. not (is_empty part))
        (map (λ part. locale.lower (trim part)) (split b'&' (trim code)))

  normalize_qrraw-Perm :
      (s t : Text)
      → Perm (code_parts s) (code_parts t)
      → normalize_qrraw locale s ≡ normalize_qrraw locale t
  unfolding normalize_qrraw
  normalize_qrraw-Perm s t p = ap (join b'&') (sort_texts-Perm p)

  SameReceipt-Perm :
      {N : Type 0} (r' r : Receipt N)
      → Perm (code_parts r'.qrraw) (code_parts r.qrraw)
      → SameReceipt locale r' r
  SameReceipt-Perm r' r p =
      rw (normalize_qrraw-Perm r'.qrraw r.qrraw p)
        (ground (arith, text_eq_refl (normalize_qrraw locale r.qrraw)))

  -- After a receipt was saved of which neither the key nor the normalised fiscal code was stored,
  -- saving any receipt whose fiscal code has the same parts changes no table: the parts, trimmed, in
  -- lower case and without the empty ones, may come in another order, and the key, the items and all
  -- else may be different.
  pub save_receipt_reordered :
      {N : Type 0} (r r' : Receipt N) (items items' : List (ReceiptItem N)) (s : Local N)
      → IsNew locale r s
      → Perm (code_parts r'.qrraw) (code_parts r.qrraw)
      → (save_receipt locale r' items' (save_receipt locale r items s)).database
        ≡ (save_receipt locale r items s).database
  save_receipt_reordered r r' items items' s new p =
      save_receipt-duplicate locale r r' items items' s new (SameReceipt-Perm r' r p)
