-- ===== src/Sync/Upload/Settles.antt =====
-- An upload that the server accepts leaves nothing to upload.
use foodler.Common.{
  ◌≡◌, refl, sym, subst, ap, ◌∙◌, true, ◌||◌, ◌⊎◌, not, Option, some, List, [], ◌∷◌, map, any,
  select, All, arith, Bool-cases, inl, inr,
}
use foodler.Json.{Json}
use foodler.Text.{Text, text_eq, codes, Locale}
use foodler.Text.Laws.{text_eq_refl, text_eq_iff}
use foodler.Receipts.{Numbers, Receipt}
use foodler.Keys.{select-none, any-map, All-map_to}
use foodler.Storage.Operations.{Local, load_receipts}
use foodler.Sync.Ids.{
  Reply, answered, thrown, SyncState, has, add, add_all, has_status, is_authenticated,
  get_synced_ids, save_synced_ids,
}
use foodler.Sync.Ids.Laws.{
  IsIdSet, has-add, add-old, add_all-IsIdSet, parse_stored_ids-IsIdSet, parse_stored_ids-ids_json,
}
use foodler.Sync.Upload.{
  ReceiptCreate, to_server_receipt, sync_receipt_to_server, body_of, upload_each, unsynced_receipts,
  upload_individually, upload_bulk, sync_all_local_receipts_bulk,
}

has-add_all : (id : Text) (xs ids : List Text) → has id (add_all xs ids) ≡ (has id ids || has id xs)
has-add_all id [] ids = ground arith
has-add_all id (x ∷ xs) ids = has-add_all id xs (add x ids) ∙ rw (has-add x id ids) (ground arith)

module _ {N : Type 0} (locale : Locale) (num : Numbers N) (datetime : Text → Option Text)
    (token : Option Text) (local : Local N) where
  -- Every stored receipt is marked as synced.
  abbrev pub AllSynced : SyncState → Type 0
  AllSynced state =
      All (λ (r : Receipt N). has r.id (get_synced_ids state) ≡ true) (load_receipts datetime local)

  abbrev ids_of : List (Receipt N) → List Text
  ids_of rs = map (λ r. r.id) rs

  has-ids :
      (rs : List (Receipt N)) (ids : List Text)
      → ((id : Text) → any (λ (r : Receipt N). text_eq r.id id) rs ≡ true → has id ids ≡ true)
      → All (λ (r : Receipt N). has r.id ids ≡ true) rs
  has-ids [] ids h = tt
  has-ids (r ∷ rs) ids h =
      (h r.id (rw (text_eq_refl r.id)), has-ids rs ids (λ id p. h id (rw (p) (ground arith))))

  module _ (single : ReceiptCreate N → Reply) where
    unsynced_bodies-has :
        (rs : List (Receipt N)) (synced : List Text) (id : Text)
        → any (λ (r : Receipt N). text_eq r.id id) rs ≡ true
        → (has id synced
            || has id (
                map
                  (λ (b : ReceiptCreate N). b.id)
                  (map
                    (body_of locale num datetime token single local)
                    (select (λ (r : Receipt N). not (has r.id synced)) rs))))
          ≡ true
    unfolding to_server_receipt
    unsynced_bodies-has [] synced id h = cc
    unsynced_bodies-has (r ∷ rs) synced id h = elim (Bool-cases (text_eq r.id id)) [
      | inl e ↦ elim (Bool-cases (has r.id synced)) [
        | inl old ↦ rw (sym (ap (λ x. has x synced) ((text_eq_iff r.id id).0 e)), old)
        | inr new ↦ rw (new, e) (ground arith)
      ]
      | inr n ↦
          let ih = unsynced_bodies-has rs synced id (ground arith) in
          elim (Bool-cases (has r.id synced)) [ inl old ↦ rw old ih | inr new ↦ rw (new, n) ih ]
    ]

    -- Single uploads that the server accepts mark every receipt of the list.
    upload_each-accepted :
        (rs : List (Receipt N)) (synced : List Text)
        → is_authenticated token ≡ true
        → ((b : ReceiptCreate N) → single b ≡ answered tt)
        → (upload_each locale num datetime token single local rs synced).1
          ≡ some (add_all (map (λ r. r.id) rs) synced)
    unfolding upload_each sync_receipt_to_server
    upload_each-accepted [] synced t accepts = refl
    upload_each-accepted (r ∷ rs) synced t accepts = elim (Bool-cases (has r.id synced)) [
      | inl old ↦ rw old (
          upload_each-accepted rs synced t accepts
          ∙ ap (λ ids. some (add_all (ids_of rs) ids)) (sym (add-old r.id synced old)))
      | inr new ↦ rw (new, t, accepts) (upload_each-accepted rs (add r.id synced) t accepts)
    ]

    -- The receipts that are marked are not uploaded again.
    upload_each-silent :
        (rs : List (Receipt N)) (synced : List Text)
        → All (λ (r : Receipt N). has r.id synced ≡ true) rs
        → upload_each locale num datetime token single local rs synced ≡ ([], some synced)
    unfolding upload_each
    upload_each-silent [] synced h = refl
    upload_each-silent (r ∷ rs) synced (p, h) = rw p (upload_each-silent rs synced h)

    -- The single uploads, all accepted, mark every stored receipt.
    individually-AllSynced :
        (state : SyncState)
        → is_authenticated token ≡ true
        → ((b : ReceiptCreate N) → single b ≡ answered tt)
        → AllSynced (upload_individually locale num datetime token single local state).1
    individually-AllSynced state t accepts =
        rw (upload_each-accepted (load_receipts datetime local) (get_synced_ids state) t accepts) (
          marked (load_receipts datetime local) (get_synced_ids state)
            (parse_stored_ids-IsIdSet state.synced))
      where
        marked :
            (rs : List (Receipt N)) (synced : List Text)
            → IsIdSet synced
            → All
                (λ (r : Receipt N).
                  has r.id
                    (get_synced_ids (save_synced_ids (add_all (map (λ x. x.id) rs) synced) state))
                  ≡ true)
                rs
        marked rs synced h =
            rw
              (parse_stored_ids-ids_json (add_all (map (λ x. x.id) rs) synced)
                (add_all-IsIdSet (map (λ x. x.id) rs) synced h))
              (has-ids rs (add_all (map (λ x. x.id) rs) synced) (λ id p.
                has-add_all id (map (λ x. x.id) rs) synced
                ∙ rw (any-map (λ x. text_eq x id) (λ (r : Receipt N). r.id) rs, p) (ground arith)))

    -- Where every stored receipt is marked, no request is made and nothing changes.
    bulk-silent :
        (bulk : List (ReceiptCreate N) → Reply) (state : SyncState)
        → AllSynced state
        → sync_all_local_receipts_bulk locale num datetime token single local bulk state
          ≡ ([], state)
    unfolding sync_all_local_receipts_bulk
    bulk-silent bulk state h =
        rw
          (select-none (λ (r : Receipt N). not (has r.id (get_synced_ids state)))
            (load_receipts datetime local)
            (All-map_to (load_receipts datetime local) (λ r p. rw p) h))
          (ground arith)

    -- The array of receipts, accepted, marks every stored receipt.
    array-AllSynced :
        (state : SyncState)
        → AllSynced (
            save_synced_ids
              (add_all
                (map
                  (λ (b : ReceiptCreate N). b.id)
                  (map
                    (body_of locale num datetime token single local)
                    (unsynced_receipts locale num datetime token single local state)))
                (get_synced_ids state))
              state)
    array-AllSynced state = marked (load_receipts datetime local)
      where
        synced : List Text
        synced = get_synced_ids state

        ids : List (Receipt N) → List Text
        ids rs =
            map (λ (b : ReceiptCreate N). b.id)
              (map (body_of locale num datetime token single local)
                (select (λ r. not (has r.id (get_synced_ids state))) rs))

        marked :
            (rs : List (Receipt N))
            → All
                (λ (r : Receipt N).
                  has r.id (
                    get_synced_ids
                      (save_synced_ids (add_all (ids rs) (get_synced_ids state)) state))
                  ≡ true)
                rs
        marked rs =
            rw
              (parse_stored_ids-ids_json (add_all (ids rs) (get_synced_ids state)) (
                add_all-IsIdSet (ids rs) (get_synced_ids state)
                  (parse_stored_ids-IsIdSet state.synced)))
              (has-ids rs (add_all (ids rs) (get_synced_ids state)) (λ id p.
                has-add_all id (ids rs) (get_synced_ids state)
                ∙ unsynced_bodies-has rs (get_synced_ids state) id p))

    -- A server that takes the array of receipts, or that does not offer it (405) and takes the
    -- receipts one by one.
    abbrev pub AcceptsAll : (List (ReceiptCreate N) → Reply) → Type 0
    AcceptsAll bulk =
        ((bodies : List (ReceiptCreate N)) → bulk bodies ≡ answered tt)
        ⊎ (((bodies : List (ReceiptCreate N))
              → (error : Json) × (bulk bodies ≡ thrown error)
                × (has_status (codes "405") error ≡ true))
            × ((b : ReceiptCreate N) → single b ≡ answered tt))

    bulk-AllSynced :
        (bulk : List (ReceiptCreate N) → Reply) (state : SyncState)
        → is_authenticated token ≡ true
        → AcceptsAll bulk
        → AllSynced
            (sync_all_local_receipts_bulk locale num datetime token single local bulk state).1
    unfolding sync_all_local_receipts_bulk
    bulk-AllSynced bulk state t accepts = rw t (
        sending
          (map (body_of locale num datetime token single local)
            (unsynced_receipts locale num datetime token single local state))
          (array-AllSynced state) accepts)
      where
        sending :
            (bodies : List (ReceiptCreate N))
            → AllSynced (
                save_synced_ids
                  (add_all (map (λ (b : ReceiptCreate N). b.id) bodies) (get_synced_ids state))
                  state)
            → AcceptsAll bulk
            → AllSynced (upload_bulk locale num datetime token single local bulk state bodies).1
        sending [] h a =
            subst
              (λ ids. All (λ (r : Receipt N). has r.id ids ≡ true) (load_receipts datetime local))
              (parse_stored_ids-ids_json (get_synced_ids state)
                (parse_stored_ids-IsIdSet state.synced))
              h
        sending (b ∷ bodies) h (inl a) = rw (upload_bulk, a (b ∷ bodies)) h
        sending (b ∷ bodies) h (inr (a, one)) =
            let (error, e, s) = a (b ∷ bodies) in
            rw (upload_bulk, e, s) (individually-AllSynced state t one)

    -- With a token and a server that takes the receipts, an upload marks every stored receipt, and
    -- another upload then makes no request and changes nothing, whatever the server would answer.
    pub bulk-settles :
        (bulk next : List (ReceiptCreate N) → Reply) (state : SyncState)
        → is_authenticated token ≡ true
        → AcceptsAll bulk
        → AllSynced
            (sync_all_local_receipts_bulk locale num datetime token single local bulk state).1
          × (sync_all_local_receipts_bulk locale num datetime token single local next
                (sync_all_local_receipts_bulk locale num datetime token single local bulk state).1
              ≡ (
                [],
                (sync_all_local_receipts_bulk locale num datetime token single local bulk state).1,
              ))
    bulk-settles bulk next state t accepts =
        let settled = bulk-AllSynced bulk state t accepts in (settled, bulk-silent next _ settled)
