-- ===== src/Grouping/Items.antt =====
-- `groupReceiptItems` of mobile/src/utils.ts: one item for each name and price.
use foodler.Common.{
  sym, Bool, false, ◌&&◌, ◌==◌, ◌++◌, any, arith, ◌≡◌, refl, ap, ◌∙◌, Option, none, some, List, [],
  ◌∷◌, map, select, All, Bool-cases, inl, inr,
}
use foodler.Text.{Text, text_eq, trim, Locale}
use foodler.Receipts.{Numbers, ReceiptItem}
use foodler.Keys.{has_key, text_eq_comm}
use foodler.Grouping.{
  upsert_with, collect, Locales, sum_from, item_key, merge_item, group_receipt_items,
}
use foodler.Grouping.Collected.{
  lookup, entry, key_of, join_all, lookup-collect, collect-HasDistinctKeys, select-lookup,
}

-- Each entry of the map has the key of its value.
abbrev AreKeyed : {V : Type 0} → (V → Text) → List (Text × V) → Type 0
AreKeyed key entries = All (λ e. key e.1 ≡ e.0) entries

module _ {V : Type 0} (key : V → Text) (join : Option V → V → V) where
  upsert-AreKeyed :
      ((x : V) → key (join none x) ≡ key x)
      → ((v x : V) → key (join (some v) x) ≡ key v)
      → (x : V) (entries : List (Text × V)) → AreKeyed key entries
      → AreKeyed key (upsert_with key join x entries)
  unfolding upsert_with
  upsert-AreKeyed new old x [] h = (new x, tt)
  upsert-AreKeyed new old x ((k, v) ∷ entries) (p, h) = elim (Bool-cases (text_eq k (key x))) [
    | inl e ↦ rw e (old v x ∙ p, h)
    | inr n ↦ rw n (p, upsert-AreKeyed new old x entries h)
  ]

  collect-AreKeyed :
      ((x : V) → key (join none x) ≡ key x)
      → ((v x : V) → key (join (some v) x) ≡ key v)
      → (xs : List V) (entries : List (Text × V)) → AreKeyed key entries
      → AreKeyed key (collect key join xs entries)
  collect-AreKeyed new old [] entries h = h
  collect-AreKeyed new old (x ∷ xs) entries h =
      collect-AreKeyed new old xs (upsert_with key join x entries)
        (upsert-AreKeyed new old x entries h)

-- The values with one key are those of the entries with it.
select-values :
    {V : Type 0} (key : V → Text) (k : Text) (entries : List (Text × V))
    → AreKeyed key entries
    → select (has_key key k) (map (λ e. e.1) entries)
      ≡ map (λ e. e.1) (select (has_key key_of k) entries)
select-values key k [] h = refl
select-values key k ((j, v) ∷ entries) (p, h) = elim (Bool-cases (text_eq j k)) [
  | inl e ↦ rw (p, e) (ap (λ rest. v ∷ rest) (select-values key k entries h))
  | inr n ↦ rw (p, n) (select-values key k entries h)
]

-- A list of at most one item.
abbrev option_list : {V : Type 0} → Option V → List V
option_list none = []
option_list (some v) = v ∷ []

values-entry : {V : Type 0} (k : Text) (o : Option V) → map (λ e. e.1) (entry k o) ≡ option_list o
values-entry k none = refl
values-entry k (some v) = refl

-- No text of a number has the unit 0, which separates the name and the price of a key.
abbrev pub IsPlain : {N : Type 0} → Numbers N → Type 0
IsPlain num = (a : _) → any (λ c. c == 0) (num.show a) ≡ false

text_eq-nul_false : (s n t : Text) → any (λ c. c == 0) s ≡ false → text_eq s (n ++ 0 ∷ t) ≡ false
unfolding text_eq
text_eq-nul_false [] [] t h = refl
text_eq-nul_false [] (d ∷ n) t h = refl
text_eq-nul_false (c ∷ s) [] t h = ground (arith, h)
text_eq-nul_false (c ∷ s) (d ∷ n) t h = ground (arith, h, text_eq-nul_false s n t)

-- Keys with a separator are equal when both their parts are.
text_eq-nul :
    (n m s t : Text)
    → any (λ c. c == 0) s ≡ false
    → any (λ c. c == 0) t ≡ false
    → text_eq (n ++ 0 ∷ s) (m ++ 0 ∷ t) ≡ (text_eq n m && text_eq s t)
unfolding text_eq
text_eq-nul [] [] s t p q = refl
text_eq-nul [] (d ∷ m) s t p q = ground (arith, text_eq-nul_false s m t p)
text_eq-nul (c ∷ n) [] s t p q =
    ground (arith, text_eq-nul_false t n s q, text_eq_comm (n ++ 0 ∷ s) t)
text_eq-nul (c ∷ n) (d ∷ m) s t p q = ground (arith, text_eq-nul n m s t p q)

select-same :
    {A : Type 0} (f g : A → Bool)
    → ((x : A) → f x ≡ g x)
    → (xs : List A) → select f xs ≡ select g xs
select-same f g h [] = refl
select-same f g h (x ∷ xs) = rw (h x, select-same f g h xs) refl

module _ {N : Type 0} (locale : Locale) (num : Numbers N) (run : Locales N) where
  abbrev pub product_name : ReceiptItem N → Text
  product_name item = locale.lower (trim item.name)

  abbrev pub kopeks : ReceiptItem N → Text
  kopeks item = num.show (run.round (num.multiply item.price_rub (num.of_nat 100)))

  -- The same name (trimmed, in lower case) and the same price in kopeks.
  abbrev pub same_product : ReceiptItem N → ReceiptItem N → Bool
  same_product x y = text_eq (product_name y) (product_name x) && text_eq (kopeks y) (kopeks x)

  -- The first item, with the quantities and the sums of the others added in their order.
  abbrev pub combined : List (ReceiptItem N) → List (ReceiptItem N)
  combined [] = []
  combined (y ∷ ys) =
      record y {
        quantity = sum_from locale num run y.quantity (map (λ i. i.quantity) ys);
        sum_rub = sum_from locale num run y.sum_rub (map (λ i. i.sum_rub) ys);
      }
      ∷ []

  join_some :
      (y : ReceiptItem N) (ys : List (ReceiptItem N))
      → option_list (join_all (item_key locale num run) (merge_item locale num run) (some y) ys)
        ≡ combined (y ∷ ys)
  join_some y [] = refl
  join_some y (z ∷ ys) = join_some (merge_item locale num run (some y) z) ys

  join_combined :
      (xs : List (ReceiptItem N))
      → option_list (join_all (item_key locale num run) (merge_item locale num run) none xs)
        ≡ combined xs
  join_combined [] = refl
  join_combined (y ∷ ys) = join_some y ys

  same_key :
      (v x : ReceiptItem N)
      → item_key locale num run (merge_item locale num run (some v) x) ≡ item_key locale num run v
  unfolding item_key
  same_key v x = refl

  keyed :
      (items : List (ReceiptItem N)) (k : Text)
      → select (has_key (item_key locale num run) k) (group_receipt_items locale num run items)
        ≡ combined (select (has_key (item_key locale num run) k) items)
  unfolding group_receipt_items
  keyed items k =
      let key = item_key locale num run in
      let join = merge_item locale num run in
      let entries = collect key join items [] in
      select-values key k entries (collect-AreKeyed key join (λ x. refl) same_key items [] tt)
      ∙ ap (map (λ e. e.1)) (select-lookup k entries (collect-HasDistinctKeys key join items [] tt))
      ∙ values-entry k (lookup k entries)
      ∙ ap option_list (lookup-collect key join k items [])
      ∙ join_combined (select (has_key key k) items)

  key_decides :
      IsPlain num
      → (x y : ReceiptItem N)
      → has_key (item_key locale num run) (item_key locale num run x) y ≡ same_product x y
  unfolding item_key
  key_decides plain x y =
      text_eq-nul (product_name y) (product_name x) (kopeks y) (kopeks x) (plain _) (plain _)

  -- Where no text of a number has the unit 0: for every item, the grouped items have one item of its
  -- name (trimmed, in lower case) and price (in kopeks), the first such item of the list with the
  -- quantities and the sums of the others added in their order, and none where the list has none.
  pub group_receipt_items-own :
      (items : List (ReceiptItem N)) (x : ReceiptItem N)
      → IsPlain num
      → select (same_product x) (group_receipt_items locale num run items)
        ≡ combined (select (same_product x) items)
  group_receipt_items-own items x plain =
      let key = item_key locale num run in
      let same = key_decides plain x in
      sym (select-same (has_key key (key x)) (same_product x) same _)
      ∙ keyed items (key x)
      ∙ ap combined (select-same (has_key key (key x)) (same_product x) same items)
