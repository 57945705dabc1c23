-- ===== src/Sync/Ids.antt =====
-- The identifiers that mobile/src/api/sync.ts keeps in AsyncStorage. A JavaScript set is the list of
-- its elements in the order of insertion.
pub mod Laws
use foodler.Common.{
  ℕ, Bool, true, false, not, Option, none, some, List, [], ◌∷◌, map, any, select, if◌then◌else◌,
}
use foodler.Text.{Text, codes, text_eq, is_empty}
use foodler.Json.{
  Json, null, number, string, array, Raw, elements, to_items, lookup_field, get_field,
}

-- `ids.has(id)`
abbrev pub has : Text → List Text → Bool
has id ids = any (λ x. text_eq x id) ids

-- `ids.add(id)`
unfoldable pub add : Text → List Text → List Text
add id [] = id ∷ []
add id (x ∷ ids) = let rest = add id ids in if text_eq x id then x ∷ ids else x ∷ rest

-- `ids.delete(id)`
abbrev pub delete : Text → List Text → List Text
delete id ids = select (λ x. not (text_eq x id)) ids

abbrev pub add_all : List Text → List Text → List Text
add_all [] ids = ids
add_all (x ∷ xs) ids = add_all xs (add x ids)

-- The strings of a list of values.
abbrev strings : List Json → List Text
strings [] = []
strings (string t ∷ vs) = t ∷ strings vs
strings (_ ∷ vs) = strings vs

abbrev stored_ids : Json → List Text
stored_ids (array items) = add_all (strings (elements items)) []
stored_ids _ = []

unfoldable pub parse_stored_ids : Raw → List Text
unfolding elements add
parse_stored_ids none = []
parse_stored_ids (some none) = []
parse_stored_ids (some (some value)) = stored_ids value

-- `JSON.stringify([...ids])`
unfoldable pub ids_json : List Text → Raw
unfolding to_items
ids_json ids = some (some (array (to_items (map string ids))))

-- The keys of AsyncStorage.
pub record SyncState : Type 0 where
  pub pending_deleted : Raw
  pub synced : Raw

abbrev pub get_pending_deleted_ids : SyncState → List Text
get_pending_deleted_ids s = parse_stored_ids s.pending_deleted

abbrev pub get_synced_ids : SyncState → List Text
get_synced_ids s = parse_stored_ids s.synced

abbrev pub no_ids : List Text → Bool
no_ids [] = true
no_ids (x ∷ ids) = false

unfoldable pub save_pending_deleted_ids : List Text → SyncState → SyncState
save_pending_deleted_ids ids s = record s {
  pending_deleted = if no_ids ids then none else ids_json ids;
}

abbrev pub save_synced_ids : List Text → SyncState → SyncState
save_synced_ids ids s = record s { synced = ids_json ids }

-- `isAuthenticated`, of the token that `getAccessToken` gives.
abbrev pub is_authenticated : Option Text → Bool
is_authenticated none = false
is_authenticated (some token) = not (is_empty token)

-- A request either is answered or throws a value.
pub data Answer {ℓ} (A : Type ℓ) : Type ℓ where
  answered : A → Answer A
  thrown : Json → Answer A

-- The outcome of a request whose answer is not looked at.
abbrev pub Reply : Type 0
Reply = Answer (Unit {0})

-- `a ?? b`
abbrev or_nullish : Option Json → Option Json → Option Json
or_nullish none b = b
or_nullish (some null) b = b
or_nullish a b = a

abbrev as_number : Option Json → Option Text
as_number (some (number n)) = some n
as_number _ = none

-- The status of a thrown value, as its literal. A value that is no object has no field.
unfoldable pub error_status : Json → Option Text
unfolding lookup_field
error_status error =
    as_number (or_nullish (get_field (codes "status") error) (get_field (codes "statusCode") error))

abbrev pub has_status : Text → Json → Bool
has_status status error = elim (error_status error) [ none ↦ false | some s ↦ text_eq s status ]
