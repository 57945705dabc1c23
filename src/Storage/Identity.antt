-- ===== src/Storage/Identity.antt =====
-- The keys that mobile/src/storage.ts computes: `normalizeProductName`, `normalizeQrraw` and
-- `stableReceiptId`.
use Prim.Native.Nat.{bit_xor}
use mathlib.Core.Bool.{not}
use foodler.Common.{
  ℕ, zero, suc, ◌+◌, ◌-◌, ◌*◌, ◌/◌, ◌%◌, ◌^◌, [], ◌∷◌, ◌++◌, map, select, ltb, ◌==◌, if◌then◌else◌,
}
use foodler.Text.{Text, codes, is_empty, trim, split, join, sort_texts, Locale}

module _ (locale : Locale) where
  unfoldable pub normalize_product_name : Text → Text
  normalize_product_name name = locale.lower (trim name)

  unfoldable pub normalize_qrraw : Text → Text
  normalize_qrraw qrraw = join b'&' (
      sort_texts (
        select (λ part. not (is_empty part))
          (map (λ part. locale.lower (trim part)) (split b'&' (trim qrraw)))))

-- The loop of `stableReceiptId`. A signed 32-bit number is kept as its bit pattern.
unfoldable pub fnv_hash : ℕ → Text → ℕ
fnv_hash hash [] = hash
fnv_hash hash (c ∷ t) = fnv_hash ((bit_xor hash c * 16777619) % 2 ^ 32) t

abbrev hex_digit : ℕ → ℕ
hex_digit d = if ltb d 10 then b'0' + d else b'a' + (d - 10)

-- `number.toString(16)` below 16 to the power of the fuel.
unfoldable pub hex_digits : ℕ → ℕ → Text → Text
hex_digits zero n digits = digits
hex_digits (suc fuel) n digits =
    let more = hex_digits fuel (n / 16) (hex_digit (n % 16) ∷ digits) in
    if n == 0 then digits else more

unfoldable pub to_hex : ℕ → Text
unfolding hex_digits
to_hex n = if n == 0 then codes "0" else hex_digits 8 n []

unfoldable pub stable_receipt_id : Text → Text
unfolding fnv_hash to_hex
stable_receipt_id qrraw = codes "qr:" ++ to_hex (fnv_hash 2166136261 qrraw % 2 ^ 32)
