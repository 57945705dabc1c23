-- ===== src/Sync/Pull/Merged.antt =====
-- What a download returns, and that a receipt that waits for its deletion does not come back.
use mathlib.Core.List.{append-nil, append_assoc}
use foodler.Common.{
  ℕ, ◌*◌, ◌<◌, ◌≡◌, refl, sym, ap, ◌∙◌, Bool, true, false, ◌||◌, ◌&&◌, not, Option, none, some,
  List, [], ◌∷◌, ◌++◌, map, any, select, length, arith, Bool-cases, inl, inr,
}
use foodler.Text.{Text, text_eq, Locale}
use foodler.Text.Laws.{text_eq_iff, text_eq_refl}
use foodler.Receipts.{Numbers, Receipt}
use foodler.Keys.{any-select_kept}
use foodler.Storage.Operations.{Local}
use foodler.Sync.Ids.{
  Answer, Reply, SyncState, has, add, is_authenticated, get_pending_deleted_ids, get_synced_ids,
}
use foodler.Sync.Ids.Laws.{
  IsIdSet, has-add, add-IsIdSet, parse_stored_ids-IsIdSet, parse_stored_ids-ids_json,
  read-save_pending,
}
use foodler.Sync.Deletions.{is_settled, queue_receipt_deletion, sync_pending_receipt_deletions}
use foodler.Sync.Deletions.Settled.{sync_pending-unsettled}
use foodler.Sync.Pull.{
  ServerReceipt, Merge, Pulled, Listing, list_pages, listed, failed, unfinished, receipt_page_size,
  merge_receipt, merge_receipts, local_ids, pulled_receipt, pulled_merge, pulled_nothing,
  pull_server_receipts,
}
use foodler.Sync.Pull.Pages.{slices, list_pages_complete}

module _ {N : Type 0} where
  -- Neither waits for its deletion nor is stored.
  abbrev pub is_new : List Text → List Text → ServerReceipt N → Bool
  is_new ids pending sr = not (has sr.id pending) && not (has sr.id ids)

module _ {N : Type 0} (locale : Locale) (num : Numbers N) where
  module _ (now : Text) (ids pending : List Text) where
    merge_receipt-old :
        (sr : ServerReceipt N) (m : Merge locale num)
        → is_new ids pending sr ≡ false
        → (merge_receipt locale num now ids pending sr m).receipts ≡ m.receipts
    unfolding merge_receipt
    merge_receipt-old sr m h = ground arith

    merge_receipt-new :
        (sr : ServerReceipt N) (m : Merge locale num)
        → is_new ids pending sr ≡ true
        → (merge_receipt locale num now ids pending sr m).receipts
          ≡ m.receipts ++ pulled_receipt locale num now sr ∷ []
    unfolding merge_receipt
    merge_receipt-new sr m h = ground arith

    merge_receipt-synced :
        (sr : ServerReceipt N) (m : Merge locale num)
        → (merge_receipt locale num now ids pending sr m).synced ≡ add sr.id m.synced
    unfolding merge_receipt
    merge_receipt-synced sr m = ground arith

    merge_receipts-receipts :
        (srs : List (ServerReceipt N)) (m : Merge locale num)
        → (merge_receipts locale num now ids pending srs m).receipts
          ≡ m.receipts ++ map (pulled_receipt locale num now) (select (is_new ids pending) srs)
    unfolding merge_receipts
    merge_receipts-receipts [] m = sym (append-nil m.receipts)
    merge_receipts-receipts (sr ∷ srs) m =
        let ih = merge_receipts-receipts srs (merge_receipt locale num now ids pending sr m) in
        elim (Bool-cases (is_new ids pending sr)) [
          | inl new ↦ ih ∙ rw (new, merge_receipt-new sr m new) (append_assoc m.receipts _ _)
          | inr old ↦ ih ∙ rw (old, merge_receipt-old sr m old)
        ]

    merge_receipts-synced :
        (srs : List (ServerReceipt N)) (m : Merge locale num) (id : Text)
        → has id (merge_receipts locale num now ids pending srs m).synced
          ≡ (has id m.synced || any (λ sr. text_eq sr.id id) srs)
    unfolding merge_receipts
    merge_receipts-synced [] m id = ground arith
    merge_receipts-synced (sr ∷ srs) m id =
        merge_receipts-synced srs (merge_receipt locale num now ids pending sr m) id
        ∙ rw (merge_receipt-synced sr m, has-add sr.id id m.synced) (ground arith)

    merge_receipts-IsIdSet :
        (srs : List (ServerReceipt N)) (m : Merge locale num)
        → IsIdSet m.synced
        → IsIdSet (merge_receipts locale num now ids pending srs m).synced
    unfolding merge_receipts
    merge_receipts-IsIdSet [] m h = h
    merge_receipts-IsIdSet (sr ∷ srs) m h =
        merge_receipts-IsIdSet srs _ (rw (merge_receipt-synced sr m) (add-IsIdSet sr.id m.synced h))

  module _ (datetime : Text → Option Text) where
    pull-idle :
        (token : Option Text) (page : ℕ → Answer (List (ServerReceipt N))) (fuel : ℕ) (now : Text)
        (local : Local N) (state : SyncState)
        → is_authenticated token ≡ false
        → pull_server_receipts locale num datetime token page fuel now local state
          ≡ some (pulled_nothing locale num local state)
    unfolding pull_server_receipts
    pull-idle token page fuel now local state h = rw h

    module _ (now : Text) (local : Local N) (state : SyncState) where
      -- The loop of a download, from its start.
      abbrev merged : List (ServerReceipt N) → Merge locale num
      merged srs =
          merge_receipts locale num now (local_ids locale num datetime local)
            (get_pending_deleted_ids state) srs
            (record { receipts = []; items = []; local = local; synced = get_synced_ids state })

      pub pull-listed :
          (token : Option Text) (page : ℕ → Answer (List (ServerReceipt N))) (fuel : ℕ)
          (srs : List (ServerReceipt N))
          → is_authenticated token ≡ true
          → list_pages page fuel 0 ≡ listed srs
          → pull_server_receipts locale num datetime token page fuel now local state
            ≡ some (pulled_merge locale num state (merged srs))
      unfolding pull_server_receipts
      pull-listed token page fuel srs h e = rw (h, e)

      -- With a token, a server that has a list of receipts, and fuel for one page more than the
      -- list fills, a download returns, in order, exactly the receipts that neither wait for their
      -- deletion nor are stored, and adds exactly the identifiers of the list to the synced ones.
      pub pull_complete :
          (token : Option Text) (all : List (ServerReceipt N)) (fuel : ℕ)
          → is_authenticated token ≡ true
          → length all < fuel * receipt_page_size
          → (p : Pulled locale num) × (pull_server_receipts locale num datetime token
                (slices all)
                fuel
                now
                local
                state
              ≡ some p)
            × (p.receipts
                ≡ map (pulled_receipt locale num now) (
                    select
                      (is_new (local_ids locale num datetime local) (get_pending_deleted_ids state))
                      all))
            × ((id : Text)
                → has id (get_synced_ids p.state)
                  ≡ (has id (get_synced_ids state) || any (λ sr. text_eq sr.id id) all))
      pull_complete token all fuel h enough = (
        pulled_merge locale num state (merged all),
        pull-listed token (slices all) fuel all h (list_pages_complete all fuel enough),
        merge_receipts-receipts now _ _ all _,
        λ id.
            ap (has id) (
              parse_stored_ids-ids_json (merged all).synced
                (merge_receipts-IsIdSet now _ _ all _ (parse_stored_ids-IsIdSet state.synced)))
            ∙ merge_receipts-synced now _ _ all _ id,
      )

      ids_of_new :
          (srs : List (ServerReceipt N)) (id : Text) (ids pending : List Text)
          → has id pending ≡ true
          → any
              (λ (r : Receipt N). text_eq r.id id)
              (map (pulled_receipt locale num now) (select (is_new ids pending) srs))
            ≡ false
      unfolding pulled_receipt
      ids_of_new [] id ids pending h = refl
      ids_of_new (sr ∷ srs) id ids pending h =
          ground (arith, ids_of_new srs id ids pending h, text_eq_iff sr.id id)

      abbrev result_receipts : Option (Pulled locale num) → List (Receipt N)
      result_receipts none = []
      result_receipts (some p) = p.receipts

      -- A receipt that waits for its deletion is in no download.
      result-pending :
          (token : Option Text) (page : ℕ → Answer (List (ServerReceipt N))) (fuel : ℕ) (id : Text)
          → has id (get_pending_deleted_ids state) ≡ true
          → any
              (λ (r : Receipt N). text_eq r.id id)
              (result_receipts
                (pull_server_receipts locale num datetime token page fuel now local state))
            ≡ false
      result-pending token page fuel id h = elim (Bool-cases (is_authenticated token)) [
        | inr f ↦ rw (pull-idle token page fuel now local state f)
        | inl t ↦ listing t (list_pages page fuel 0) refl
      ]
        where
          listing :
              is_authenticated token ≡ true
              → (l : Listing (ServerReceipt N)) → list_pages page fuel 0 ≡ l
              → any
                  (λ (r : Receipt N). text_eq r.id id)
                  (result_receipts
                    (pull_server_receipts locale num datetime token page fuel now local state))
                ≡ false
          listing t unfinished e = unfold pull_server_receipts in rw (t, e)
          listing t failed e = unfold pull_server_receipts in rw (t, e)
          listing t (listed srs) e = rw (pull-listed token page fuel srs t e) (
              rw
                (merge_receipts-receipts now (local_ids locale num datetime local)
                  (get_pending_deleted_ids state) srs
                  (record {
                    receipts = [];
                    items = [];
                    local = local;
                    synced = get_synced_ids state;
                  }))
                (ids_of_new srs id (local_ids locale num datetime local)
                  (get_pending_deleted_ids state) h))

      pub pull-pending :
          (token : Option Text) (page : ℕ → Answer (List (ServerReceipt N))) (fuel : ℕ) (id : Text)
          (p : Pulled locale num)
          → has id (get_pending_deleted_ids state) ≡ true
          → pull_server_receipts locale num datetime token page fuel now local state ≡ some p
          → any (λ r. text_eq r.id id) p.receipts ≡ false
      pull-pending token page fuel id p h e =
          ap (λ o. any (λ (r : Receipt N). text_eq r.id id) (result_receipts o)) (sym e)
          ∙ result-pending token page fuel id h

    queued-waits :
        (id : Text) (state : SyncState)
        → has id (get_pending_deleted_ids (queue_receipt_deletion id state)) ≡ true
    unfolding queue_receipt_deletion
    queued-waits id state =
        rw
          (
            read-save_pending (add id (get_pending_deleted_ids state)) state
                (add-IsIdSet id _ (parse_stored_ids-IsIdSet state.pending_deleted)),
            has-add id id (get_pending_deleted_ids state),
            text_eq_refl id,
          )
          (ground arith)

    pub refused-waits :
        (token : Option Text) (server : Text → Reply) (id : Text) (state : SyncState)
        → is_settled (server id) ≡ false
        → has id (get_pending_deleted_ids state) ≡ true
        → has id (get_pending_deleted_ids (sync_pending_receipt_deletions token server state))
          ≡ true
    refused-waits token server id state refused waits = elim (Bool-cases (is_authenticated token)) [
      | inl t ↦ rw (sync_pending-unsettled server token state t) (
          any-select_kept (λ x. text_eq x id) (λ x. not (is_settled (server x)))
            (get_pending_deleted_ids state)
            (λ x e. rw (ap server ((text_eq_iff x id).0 e), refused))
          ∙ waits)
      | inr f ↦ unfold sync_pending_receipt_deletions in rw f waits
    ]

    -- A deletion that was queued, and whose request does not succeed and is not answered by 404,
    -- is in force: whatever the server then lists, a download that ends does not return the receipt.
    pub deletion-not_resurrected :
        (token : Option Text) (server : Text → Reply) (page : ℕ → Answer (List (ServerReceipt N)))
        (fuel : ℕ) (now : Text) (local : Local N) (state : SyncState) (id : Text)
        (p : Pulled locale num)
        → is_settled (server id) ≡ false
        → pull_server_receipts locale num datetime token page fuel now local
            (sync_pending_receipt_deletions token server (queue_receipt_deletion id state))
          ≡ some p
        → any (λ r. text_eq r.id id) p.receipts ≡ false
    deletion-not_resurrected token server page fuel now local state id p refused e =
        pull-pending now local
          (sync_pending_receipt_deletions token server (queue_receipt_deletion id state)) token page
          fuel id p
          (refused-waits token server id (queue_receipt_deletion id state) refused
            (queued-waits id state))
          e
