-- ===== src/Sync/Ids/Laws.antt =====
-- Sets of identifiers: membership after an addition, distinctness, and that what is stored is read.
use mathlib.Core.List.{append-nil, append_assoc}
use foodler.Common.{
  ◌≡◌, refl, sym, ap, ◌∙◌, true, false, ◌||◌, none, some, List, [], ◌∷◌, ◌++◌, map, arith,
  Bool-cases, inl, inr,
}
use foodler.Text.{Text, text_eq}
use foodler.Text.Laws.{text_eq_iff}
use foodler.Json.{Raw, string, array, elements, to_items}
use foodler.Keys.{text_eq_comm, any-append, HasDistinctKeys, HasDistinctKeys-concat}
use foodler.Sync.Ids.{
  has, add, add_all, strings, parse_stored_ids, ids_json, SyncState, save_pending_deleted_ids,
  get_pending_deleted_ids,
}

-- No identifier twice: a list that is a set.
abbrev pub IsIdSet : List Text → Type 0
IsIdSet ids = HasDistinctKeys (λ t. t) ids

pub has-add :
    (id other : Text) (ids : List Text)
    → has other (add id ids) ≡ (has other ids || text_eq id other)
unfolding add
has-add id other [] = ground arith
has-add id other (x ∷ ids) = ground (arith, has-add id other ids, text_eq_iff x id)

add-new : (id : Text) (ids : List Text) → has id ids ≡ false → add id ids ≡ ids ++ id ∷ []
unfolding add
add-new id [] h = refl
add-new id (x ∷ ids) h = ground (arith, add-new id ids)

pub add-old : (id : Text) (ids : List Text) → has id ids ≡ true → add id ids ≡ ids
unfolding add
add-old id [] h = cc
add-old id (x ∷ ids) h = ground (arith, add-old id ids)

pub add-IsIdSet : (id : Text) (ids : List Text) → IsIdSet ids → IsIdSet (add id ids)
add-IsIdSet id ids h = elim (Bool-cases (has id ids)) [
  | inl old ↦ rw (add-old id ids old) h
  | inr new ↦ rw (add-new id ids new) (HasDistinctKeys-concat (λ t. t) ids id h new)
]

pub add_all-IsIdSet : (xs ids : List Text) → IsIdSet ids → IsIdSet (add_all xs ids)
add_all-IsIdSet [] ids h = h
add_all-IsIdSet (x ∷ xs) ids h = add_all-IsIdSet xs (add x ids) (add-IsIdSet x ids h)

-- What is read of the device is a set.
pub parse_stored_ids-IsIdSet : (raw : Raw) → IsIdSet (parse_stored_ids raw)
unfolding parse_stored_ids
parse_stored_ids-IsIdSet none = tt
parse_stored_ids-IsIdSet (some none) = tt
parse_stored_ids-IsIdSet (some (some (array items))) =
    add_all-IsIdSet (strings (elements items)) [] tt
parse_stored_ids-IsIdSet (some (some _)) = tt

middle-new :
    (ids : List Text) (x : Text) (xs : List Text) → IsIdSet (ids ++ x ∷ xs) → has x ids ≡ false
middle-new [] x xs h = refl
middle-new (y ∷ ids) x xs (p, h) =
    ground (
      arith,
      middle-new ids x xs h,
      any-append (λ t. text_eq t y) ids (x ∷ xs),
      text_eq_comm x y,
      p,
    )

add_all-append : (xs ids : List Text) → IsIdSet (ids ++ xs) → add_all xs ids ≡ ids ++ xs
add_all-append [] ids h = sym (append-nil ids)
add_all-append (x ∷ xs) ids h = rw (add-new x ids (middle-new ids x xs h)) (
    add_all-append xs (ids ++ x ∷ []) (rw (append_assoc ids (x ∷ []) xs) h)
    ∙ append_assoc ids (x ∷ []) xs)

strings-stored : (ids : List Text) → strings (elements (to_items (map string ids))) ≡ ids
unfolding elements to_items
strings-stored [] = refl
strings-stored (x ∷ ids) = ap (λ (rest : List Text). x ∷ rest) (strings-stored ids)

-- A set that is stored is read back.
pub parse_stored_ids-ids_json :
    (ids : List Text) → IsIdSet ids → parse_stored_ids (ids_json ids) ≡ ids
unfolding parse_stored_ids ids_json
parse_stored_ids-ids_json ids h = rw (strings-stored ids) (add_all-append ids [] h)

pub read-save_pending :
    (ids : List Text) (s : SyncState)
    → IsIdSet ids
    → get_pending_deleted_ids (save_pending_deleted_ids ids s) ≡ ids
unfolding save_pending_deleted_ids
read-save_pending [] s h = unfold parse_stored_ids in refl
read-save_pending (x ∷ ids) s h = parse_stored_ids-ids_json (x ∷ ids) h
