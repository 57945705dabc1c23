-- ===== src/App/Background/Untouched.antt =====
-- What the parts of the synchronisation leave as it was: receipts with other keys, and the queue of
-- deletions.
use foodler.Common.{
  ℕ, ◌≡◌, refl, ap, ◌∙◌, Bool, false, Option, none, some, List, [], ◌∷◌, any, arith, Bool-cases,
  or_else, inl, inr,
}
use foodler.Text.{Text, codes, text_eq, Locale}
use foodler.Receipts.{Numbers, Receipt, ReceiptItem}
use foodler.Keys.{any-append}
use foodler.ReceiptChanges.{begin_batch}
use foodler.Storage.Database.{Database, conflicts, update_receipt_item_server_category}
use foodler.Storage.Operations.{
  Local, load_receipts, save_receipt, apply_server_item_categories, apply_each,
}
use foodler.Storage.Saving.{normal_receipt, save-ignored, save-fresh_receipts}
use foodler.Sync.Ids.{
  Answer, Reply, answered, thrown, SyncState, is_authenticated, get_pending_deleted_ids,
  get_synced_ids, has_status,
}
use foodler.Sync.Upload.{
  ReceiptCreate, upload_each, save_unless_thrown, upload_bulk, upload_individually,
  sync_all_local_receipts_bulk,
}
use foodler.Sync.Pull.{
  ServerReceipt, Merge, Pulled, pulled_items, Listing, list_pages, listed, failed, unfinished,
  merge_receipt, merge_receipts, local_ids, pulled_merge, pulled_nothing, pull_server_receipts,
}
use foodler.App.Background.{Runtime, save_pulled, save_batch}

-- The table has a receipt with that key.
abbrev pub has_receipt : {N : Type 0} → Text → Local N → Bool
has_receipt id local = any (λ r. text_eq r.id id) local.database.receipts

module _ {N : Type 0} (locale : Locale) (num : Numbers N) where
  apply_each-receipts :
      (id : Text) (items : List (ReceiptItem N)) (db : Database N)
      → (apply_each locale num id items db).receipts ≡ db.receipts
  unfolding apply_each update_receipt_item_server_category
  apply_each-receipts id [] db = refl
  apply_each-receipts id (item ∷ items) db = apply_each-receipts id items _

  merge_receipt-table :
      (now : Text) (ids pending : List Text) (sr : ServerReceipt N) (m : Merge locale num)
      → (merge_receipt locale num now ids pending sr m).local.database.receipts
        ≡ m.local.database.receipts
  unfolding merge_receipt apply_server_item_categories
  merge_receipt-table now ids pending sr m = ground (
    arith,
    apply_each-receipts sr.id (pulled_items locale num sr.id 0 (or_else sr.items []))
        m.local.database,
  )

  merge_receipts-table :
      (now : Text) (ids pending : List Text) (srs : List (ServerReceipt N)) (m : Merge locale num)
      → (merge_receipts locale num now ids pending srs m).local.database.receipts
        ≡ m.local.database.receipts
  unfolding merge_receipts
  merge_receipts-table now ids pending [] m = refl
  merge_receipts-table now ids pending (sr ∷ srs) m =
      merge_receipts-table now ids pending srs (merge_receipt locale num now ids pending sr m)
      ∙ merge_receipt-table now ids pending sr m

  -- Saving receipts with other keys.
  save_receipt-others :
      (id : Text) (r : Receipt N) (items : List (ReceiptItem N)) (local : Local N)
      → text_eq r.id id ≡ false
      → has_receipt id local ≡ false
      → has_receipt id (save_receipt locale r items local) ≡ false
  unfolding save_receipt
  save_receipt-others id r items local d h =
      elim (Bool-cases (any (conflicts (normal_receipt locale r)) local.database.receipts)) [
        | inl old ↦
            ap (λ (db : Database N). any (λ s. text_eq s.id id) db.receipts)
              (save-ignored locale r items local.database old)
            ∙ h
        | inr new ↦
            ap (any (λ s. text_eq s.id id)) (save-fresh_receipts locale r items local.database new)
            ∙ any-append (λ s. text_eq s.id id) local.database.receipts _
            ∙ ground arith
      ]

  save_pulled-others :
      (run : Runtime) (id : Text) (rs : List (Receipt N)) (items : List (ReceiptItem N))
      (local : Local N)
      → any (λ r. text_eq r.id id) rs ≡ false
      → has_receipt id local ≡ false
      → has_receipt id (save_pulled locale num run rs items local) ≡ false
  unfolding save_pulled
  save_pulled-others run id [] items local d h = h
  save_pulled-others run id (r ∷ rs) items local d h =
      save_pulled-others run id rs items (save_receipt locale r _ local) (ground arith)
        (save_receipt-others id r _ local (ground arith) h)

  pub save_batch-others :
      (run : Runtime) (id : Text) (rs : List (Receipt N)) (items : List (ReceiptItem N))
      (local : Local N)
      → any (λ r. text_eq r.id id) rs ≡ false
      → has_receipt id local ≡ false
      → has_receipt id (save_batch locale num run rs items local) ≡ false
  unfolding save_batch
  save_batch-others run id [] items local d h = h
  save_batch-others run id (r ∷ rs) items local d h =
      save_pulled-others run id (r ∷ rs) items
        (record local { changes = begin_batch local.changes }) d h

  module _ (datetime : Text → Option Text) (token : Option Text) (single : ReceiptCreate N → Reply)
      (local : Local N) where
    individually-pending :
        (state : SyncState)
        → (upload_individually locale num datetime token single local state).1.pending_deleted
          ≡ state.pending_deleted
    individually-pending state =
        saved
          (upload_each locale num datetime token single local (load_receipts datetime local)
            (get_synced_ids state)).1
      where
        saved :
            (ids : Option (List Text))
            → (save_unless_thrown locale num datetime token single local state ids).pending_deleted
              ≡ state.pending_deleted
        saved none = refl
        saved (some ids) = refl

    bulk-pending :
        (bulk : List (ReceiptCreate N) → Reply) (state : SyncState)
        (bodies : List (ReceiptCreate N))
        → (upload_bulk locale num datetime token single local bulk state bodies).1.pending_deleted
          ≡ state.pending_deleted
    bulk-pending bulk state [] = refl
    bulk-pending bulk state (b ∷ bodies) = answer (bulk (b ∷ bodies)) refl
      where
        answer :
            (reply : Reply)
            → bulk (b ∷ bodies) ≡ reply
            → (upload_bulk locale num datetime token single local bulk state
                (b ∷ bodies)).1.pending_deleted
              ≡ state.pending_deleted
        answer (answered done) e = rw (upload_bulk, e) refl
        answer (thrown error) e = elim (Bool-cases (has_status (codes "405") error)) [
          | inl on ↦ rw (upload_bulk, e, on) (individually-pending state)
          | inr off ↦ rw (upload_bulk, e, off) refl
        ]

    pub upload-pending :
        (bulk : List (ReceiptCreate N) → Reply) (state : SyncState)
        → (sync_all_local_receipts_bulk locale num datetime token single local bulk
            state).1.pending_deleted
          ≡ state.pending_deleted
    unfolding sync_all_local_receipts_bulk
    upload-pending bulk state = elim (Bool-cases (is_authenticated token)) [
      | inl on ↦ rw on (bulk-pending bulk state _)
      | inr off ↦ rw off refl
    ]

  -- A download that ends.
  abbrev pub IsPulled : Local N → SyncState → Option (Pulled locale num) → Type 0
  IsPulled local state none = Unit
  IsPulled local state (some p) =
      (p.local.database.receipts ≡ local.database.receipts)
      × (p.state.pending_deleted ≡ state.pending_deleted)

  pub pull-IsPulled :
      (datetime : Text → Option Text) (token : Option Text)
      (page : ℕ → Answer (List (ServerReceipt N))) (fuel : ℕ) (now : Text) (local : Local N)
      (state : SyncState)
      → IsPulled local state
          (pull_server_receipts locale num datetime token page fuel now local state)
  unfolding pull_server_receipts
  pull-IsPulled datetime token page fuel now local state =
      elim (Bool-cases (is_authenticated token)) [
        | inr off ↦ rw off (refl, refl)
        | inl on ↦ rw on (listing (list_pages page fuel 0) refl)
      ]
    where
      listing :
          (l : Listing (ServerReceipt N))
          → list_pages page fuel 0 ≡ l
          → IsPulled local state (elim (list_pages page fuel 0) [
            | unfinished ↦ none
            | failed ↦ some (pulled_nothing locale num local state)
            | listed srs ↦ some (
                pulled_merge locale num state (
                  merge_receipts locale num now
                    (local_ids locale num datetime local)
                    (get_pending_deleted_ids state)
                    srs
                    (record {
                      receipts = [];
                      items = [];
                      local = local;
                      synced = get_synced_ids state;
                    })))
          ])
      listing unfinished e = rw e tt
      listing failed e = rw e (refl, refl)
      listing (listed srs) e = rw e (merge_receipts-table now _ _ srs _, refl)
