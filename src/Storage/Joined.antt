-- ===== src/Storage/Joined.antt =====
-- `loadJoinedItems` of mobile/src/storage.ts, with its statement `selectJoinedItems`: every stored
-- item with the date of its receipt. Rows that the statement does not order keep their order.
use foodler.Common.{
  suc, ◌≡◌, refl, sym, ap, ◌∙◌, Bool, true, false, ◌||◌, ◌&&◌, not, Option, List, [], ◌∷◌, ◌++◌,
  map, select, any, length, All, arith, length-append, select-append, Bool-cases, inl, inr,
  if◌then◌else◌,
}
use foodler.Text.{Text, text_eq, Locale}
use foodler.Text.Laws.{text_eq_iff}
use foodler.Keys.{has_key, HasDistinctKeys}
use foodler.Receipts.{Numbers, Receipt, ReceiptItem}
use foodler.Storage.Database.{
  Database, ItemRow, read_row, item_before, date_le, insert_ordered, order_by, select_receipt_items,
}
use foodler.Storage.Operations.{
  Local, apply_override, apply_local_category_overrides, load_receipt_items,
}
use foodler.Storage.Validity.{IsValid}

pub record JoinedItem (N : Type 0) : Type 0 where
  pub item : ReceiptItem N
  pub ticket_date : Text

module _ {N : Type 0} where
  abbrev join_row : List (Receipt N) → ItemRow N → List (JoinedItem N)
  join_row receipts row =
      map (λ r. record { item = read_row row; ticket_date = r.ticket_date })
        (select (has_key (λ (r : Receipt N). r.id) row.item.receipt_id) receipts)

  abbrev join_rows : List (Receipt N) → List (ItemRow N) → List (JoinedItem N)
  join_rows receipts [] = []
  join_rows receipts (row ∷ rows) = join_row receipts row ++ join_rows receipts rows

module _ {N : Type 0} (locale : Locale) (num : Numbers N) (datetime : Text → Option Text) where
  -- ORDER BY datetime(r.ticketDate) DESC, ri.sumRub DESC
  abbrev joined_before : JoinedItem N → JoinedItem N → Bool
  joined_before i j =
      not (date_le (datetime i.ticket_date) (datetime j.ticket_date))
      || (date_le (datetime j.ticket_date) (datetime i.ticket_date)
          && not (num.less i.item.sum_rub j.item.sum_rub))

  unfoldable pub select_joined_items : Database N → List (JoinedItem N)
  unfolding order_by
  select_joined_items db = order_by joined_before (join_rows db.receipts db.items)

  abbrev overridden : Database N → JoinedItem N → JoinedItem N
  overridden db j = record j { item = apply_override locale db j.item }

  unfoldable pub load_joined_items : Local N → List (JoinedItem N)
  unfolding select_joined_items
  load_joined_items s = map (overridden s.database) (select_joined_items s.database)

module _ {A : Type 0} where
  count-insert_ordered :
      (test : A → Bool) (before : A → A → Bool) (x : A) (xs : List A)
      → length (select test (insert_ordered before x xs)) ≡ length (select test (x ∷ xs))
  unfolding insert_ordered
  count-insert_ordered test before x [] = refl
  count-insert_ordered test before x (y ∷ ys) =
      ground (arith, count-insert_ordered test before x ys)

  count-order_by :
      (test : A → Bool) (before : A → A → Bool) (xs : List A)
      → length (select test (order_by before xs)) ≡ length (select test xs)
  unfolding order_by
  count-order_by test before [] = refl
  count-order_by test before (x ∷ xs) =
      count-insert_ordered test before x (order_by before xs)
      ∙ ground (arith, count-order_by test before xs)

  length-insert_ordered :
      (before : A → A → Bool) (x : A) (xs : List A)
      → length (insert_ordered before x xs) ≡ length (x ∷ xs)
  unfolding insert_ordered
  length-insert_ordered before x [] = refl
  length-insert_ordered before x (y ∷ ys) = ground (arith, length-insert_ordered before x ys)

  length-order_by : (before : A → A → Bool) (xs : List A) → length (order_by before xs) ≡ length xs
  unfolding order_by
  length-order_by before [] = refl
  length-order_by before (x ∷ xs) =
      length-insert_ordered before x (order_by before xs) ∙ ap suc (length-order_by before xs)

  length-map : {B : Type 0} (f : A → B) (xs : List A) → length (map f xs) ≡ length xs
  length-map f [] = refl
  length-map f (x ∷ xs) = omega (arith, length-map f xs)

  -- Elements that a change of the others leaves as they are for the test.
  count-map :
      {B : Type 0} (test : B → Bool) (f : A → B) (old : A → Bool) (xs : List A)
      → ((x : A) → test (f x) ≡ old x)
      → length (select test (map f xs)) ≡ length (select old xs)
  count-map test f old [] h = refl
  count-map test f old (x ∷ xs) h = ground (arith, count-map test f old xs h, h x)

module _ {N : Type 0} where
  no_match :
      (k : Text) (rs : List (Receipt N))
      → any (has_key (λ (r : Receipt N). r.id) k) rs ≡ false
      → length (select (has_key (λ (r : Receipt N). r.id) k) rs) ≡ 0
  no_match k [] h = refl
  no_match k (r ∷ rs) h = ground (arith, no_match k rs)

  -- A key that is there is there once.
  one_match :
      (k : Text) (rs : List (Receipt N))
      → HasDistinctKeys (λ (r : Receipt N). r.id) rs
      → any (has_key (λ (r : Receipt N). r.id) k) rs ≡ true
      → length (select (has_key (λ (r : Receipt N). r.id) k) rs) ≡ 1
  one_match k [] d h = cc
  one_match k (r ∷ rs) (p, d) h = elim (Bool-cases (text_eq r.id k)) [
    | inl e ↦ rw e (
        ap suc (
          no_match k rs (
            ap (λ j. any (has_key (λ (s : Receipt N). s.id) j) rs) (sym ((text_eq_iff r.id k).0 e))
            ∙ p)))
    | inr n ↦ rw n (one_match k rs d (ground arith))
  ]

  count_row :
      (id : Text) (row : ItemRow N) (matches : List (Receipt N))
      → length (
          select
            (λ (j : JoinedItem N). text_eq j.item.receipt_id id)
            (map
              (λ (r : Receipt N). record { item = read_row row; ticket_date = r.ticket_date })
              matches))
        ≡ (if text_eq row.item.receipt_id id then length matches else 0)
  count_row id row [] = ground arith
  count_row id row (r ∷ matches) = ground (arith, count_row id row matches)

  count_rows :
      (id : Text) (rs : List (Receipt N)) (rows : List (ItemRow N))
      → HasDistinctKeys (λ (r : Receipt N). r.id) rs
      → All
          (λ (row : ItemRow N).
            any (has_key (λ (r : Receipt N). r.id) row.item.receipt_id) rs ≡ true)
          rows
      → length (select (λ (j : JoinedItem N). text_eq j.item.receipt_id id) (join_rows rs rows))
        ≡ length (select (λ (row : ItemRow N). text_eq row.item.receipt_id id) rows)
  count_rows id rs [] d h = refl
  count_rows id rs (row ∷ rows) d (p, h) =
      rw
        (
          select-append (λ (j : JoinedItem N). text_eq j.item.receipt_id id) (join_row rs row)
              (join_rows rs rows),
          length-append
              (select (λ (j : JoinedItem N). text_eq j.item.receipt_id id) (join_row rs row))
              (select (λ (j : JoinedItem N). text_eq j.item.receipt_id id) (join_rows rs rows)),
          count_row id row (select (has_key (λ (r : Receipt N). r.id) row.item.receipt_id) rs),
          one_match row.item.receipt_id rs d p,
          count_rows id rs rows d h,
        )
        (ground arith)

module _ {N : Type 0} (locale : Locale) (num : Numbers N) (datetime : Text → Option Text) where
  -- In valid tables the joined items are, for each receipt, as many as its own items that load: the
  -- join loses none and repeats none.
  pub load_joined_items-load_receipt_items :
      (s : Local N) (id : Text)
      → IsValid s.database
      → length
          (select (λ j. text_eq j.item.receipt_id id) (load_joined_items locale num datetime s))
        ≡ length (load_receipt_items locale num id s)
  unfolding load_joined_items load_receipt_items select_joined_items select_receipt_items
      apply_local_category_overrides
  load_joined_items-load_receipt_items s id v =
      count-map (λ (j : JoinedItem N). text_eq j.item.receipt_id id)
        (overridden locale num datetime s.database)
        (λ (j : JoinedItem N). text_eq j.item.receipt_id id) _ (λ j. ground arith)
      ∙ count-order_by _ (joined_before locale num datetime)
          (join_rows s.database.receipts s.database.items)
      ∙ count_rows id s.database.receipts s.database.items v.receipt_ids v.item_receipts
      ∙ sym (
          length-map (apply_override locale s.database) _
          ∙ length-map read_row _
          ∙ length-order_by (item_before num)
              (select (λ (row : ItemRow N). text_eq row.item.receipt_id id) s.database.items))
