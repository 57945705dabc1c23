-- ===== src/Sync/Deletions/Settled.antt =====
-- After the queued deletions are sent, exactly those that did not succeed wait.
use foodler.Common.{
  ◌≡◌, refl, sym, ap, ◌∙◌, Bool, true, false, ◌&&◌, not, Option, List, [], ◌∷◌, select, All, arith,
  Bool-cases, inl, inr,
}
use foodler.Text.{Text, text_eq}
use foodler.Text.Laws.{text_eq_iff, text_eq_refl}
use foodler.Keys.{text_eq_comm, select-All, HasDistinctKeys-select}
use foodler.Sync.Ids.{
  Reply, SyncState, has, delete, no_ids, is_authenticated, get_pending_deleted_ids,
  save_pending_deleted_ids,
}
use foodler.Sync.Ids.Laws.{parse_stored_ids-IsIdSet, read-save_pending}
use foodler.Sync.Deletions.{is_settled, delete_each, sync_pending_receipt_deletions}

select-select :
    (keep drop : Text → Bool) (xs : List Text)
    → select keep (select drop xs) ≡ select (λ x. drop x && keep x) xs
select-select keep drop [] = refl
select-select keep drop (x ∷ xs) = ground (arith, select-select keep drop xs)

-- The identifiers that stay, of those of a list that was asked for.
abbrev stays : (Text → Reply) → List Text → Text → Bool
stays server ids x = not (has x ids && is_settled (server x))

select-agree :
    (test other : Text → Bool) (xs : List Text)
    → All (λ x. test x ≡ other x) xs
    → select test xs ≡ select other xs
select-agree test other [] h = refl
select-agree test other (x ∷ xs) (p, h) = ground (arith, select-agree test other xs h, p)

everywhere : {P : Text → Type 0} (xs : List Text) → ((x : Text) → P x) → All P xs
everywhere [] h = tt
everywhere (x ∷ xs) h = (h x, everywhere xs h)

All-has :
    (xs ids : List Text)
    → ((x : Text) → has x xs ≡ true → has x ids ≡ true)
    → All (λ x. has x ids ≡ true) xs
All-has [] ids h = tt
All-has (x ∷ xs) ids h =
    (h x (rw (text_eq_refl x)), All-has xs ids (λ y p. h y (ground (arith, p))))

stays-next :
    (server : Text → Reply) (id : Text) (ids : List Text) (x : Text)
    → is_settled (server id) ≡ true
    → (not (text_eq x id) && stays server ids x) ≡ stays server (id ∷ ids) x
stays-next server id ids x h = elim (Bool-cases (text_eq x id)) [
  | inl e ↦ rw (e, text_eq_comm id x, e, ap server ((text_eq_iff x id).0 e), h)
  | inr n ↦ rw (n, text_eq_comm id x, n)
]

stays-kept :
    (server : Text → Reply) (id : Text) (ids : List Text) (x : Text)
    → is_settled (server id) ≡ false
    → stays server ids x ≡ stays server (id ∷ ids) x
stays-kept server id ids x h = elim (Bool-cases (text_eq x id)) [
  | inl e ↦ rw (text_eq_comm id x, e, ap server ((text_eq_iff x id).0 e), h) (ground arith)
  | inr n ↦ rw (text_eq_comm id x, n)
]

delete_each-stays :
    (server : Text → Reply) (ids pending : List Text)
    → delete_each server ids pending ≡ select (stays server ids) pending
unfolding delete_each
delete_each-stays server [] pending = sym (select-All _ pending (everywhere pending (λ x. refl)))
delete_each-stays server (id ∷ ids) pending = elim (Bool-cases (is_settled (server id))) [
  | inl h ↦ rw h (
      delete_each-stays server ids (delete id pending)
      ∙ select-select (stays server ids) (λ x. not (text_eq x id)) pending
      ∙ select-agree _ _ pending (everywhere pending (λ x. stays-next server id ids x h)))
  | inr h ↦ rw h (
      delete_each-stays server ids pending
      ∙ select-agree _ _ pending (everywhere pending (λ x. stays-kept server id ids x h)))
]

module _ (server : Text → Reply) where
  abbrev pub unsettled : List Text → List Text
  unsettled ids = select (λ id. not (is_settled (server id))) ids

  delete_each-unsettled :
      (pending : List Text) → delete_each server pending pending ≡ unsettled pending
  delete_each-unsettled pending =
      delete_each-stays server pending pending
      ∙ select-agree _ _ pending (all-map pending (All-has pending pending (λ x p. p)))
    where
      all-map :
          (xs : List Text)
          → All (λ x. has x pending ≡ true) xs
          → All (λ x. stays server pending x ≡ not (is_settled (server x))) xs
      all-map [] h = tt
      all-map (x ∷ xs) (p, h) = (rw p, all-map xs h)

  -- With a token, the identifiers that still wait after the requests are those whose request
  -- neither succeeded nor was answered by 404, in the order in which they waited.
  pub sync_pending-unsettled :
      (token : Option Text) (s : SyncState)
      → is_authenticated token ≡ true
      → get_pending_deleted_ids (sync_pending_receipt_deletions token server s)
        ≡ unsettled (get_pending_deleted_ids s)
  unfolding sync_pending_receipt_deletions
  sync_pending-unsettled token s h = elim (Bool-cases (no_ids (get_pending_deleted_ids s))) [
    | inl none_wait ↦ rw (h, none_wait) (nothing (get_pending_deleted_ids s) none_wait)
    | inr some_wait ↦
        rw (h, some_wait)
          (ap (λ ids. get_pending_deleted_ids (save_pending_deleted_ids ids s))
              (delete_each-unsettled (get_pending_deleted_ids s))
            ∙ read-save_pending (unsettled (get_pending_deleted_ids s)) s (
                HasDistinctKeys-select (λ t. t) _ (get_pending_deleted_ids s)
                  (parse_stored_ids-IsIdSet s.pending_deleted)))
  ]
    where
      nothing : (ids : List Text) → no_ids ids ≡ true → ids ≡ unsettled ids
      nothing [] h = refl
      nothing (x ∷ ids) h = cc
