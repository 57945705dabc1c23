-- ===== src/Sync/Deletions.antt =====
-- The queue of deletions of mobile/src/api/sync.ts. `server id` is the outcome of the request that
-- deletes the receipt of that identifier.
pub mod Settled
use foodler.Common.{Bool, true, false, not, Option, List, [], ◌∷◌, if◌then◌else◌}
use foodler.Text.{Text, codes}
use foodler.Sync.Ids.{
  Reply, answered, thrown, SyncState, add, delete, no_ids, has_status, is_authenticated,
  get_pending_deleted_ids, save_pending_deleted_ids,
}

unfoldable pub queue_receipt_deletion : Text → SyncState → SyncState
queue_receipt_deletion id s = save_pending_deleted_ids (add id (get_pending_deleted_ids s)) s

-- Success, or 404.
abbrev pub is_settled : Reply → Bool
is_settled (answered _) = true
is_settled (thrown error) = has_status (codes "404") error

-- The loop over the copy of the set, which removes from the set.
unfoldable pub delete_each : (Text → Reply) → List Text → List Text → List Text
delete_each server [] pending = pending
delete_each server (id ∷ ids) pending =
    delete_each server ids (if is_settled (server id) then delete id pending else pending)

unfoldable pub sync_pending_receipt_deletions : Option Text → (Text → Reply) → SyncState → SyncState
unfolding delete_each
sync_pending_receipt_deletions token server s =
    let pending = get_pending_deleted_ids s in
    if not (is_authenticated token)
    then s
    else if no_ids pending
    then s
    else save_pending_deleted_ids (delete_each server pending pending) s
