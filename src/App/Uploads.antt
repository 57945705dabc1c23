-- ===== src/App/Uploads.antt =====
-- The synchronisation effect of mobile/src/features/app/AppDataContext.tsx, `pushLocalReceipts` above
-- all, with the notifications of mobile/src/features/receipts/receiptChanges.ts that call it. The model
-- is of one run of the effect, until its cleanup: the flags are local to a run. `pushLocalReceipts` is
-- one of the listeners all that time, so each delivery calls it, and so does the chain of promises of
-- the run, once. `syncAllLocalReceiptsBulk` ends some time after its start, by an answer or an
-- exception, and `finally` runs.
pub mod Covered
use foodler.Common.{
  ℕ, ◌+◌, ◌-◌, ◌≤◌, ◌<◌, ◌≡◌, ◌≢◌, refl, sym, ◌∙◌, ◌⊎◌, inl, inr, Bool, true, false, arith,
  if◌then◌else◌,
}
use foodler.ReceiptChanges.{Changes, Event, step, CanStep, notify_receipt_change, deliver}
use foodler.ReceiptChanges.Delivery
use foodler.ReceiptChanges.Delivery.{
  IsPending, step-IsCoherent, step-IsPending, notify-IsCoherent, notify-IsPending,
}

-- `version` counts the changes of the tables since the run began, and `covered` those that came before
-- the start of its last upload, which reads the tables after it. `unannounced` counts the changes whose
-- `notifyReceiptChange()` is yet to be called. `due` says that the chain has not come to its upload,
-- `begun` counts the uploads that began, `running` those that have not ended.
pub record Uploads : Type 0 where
  pub version : ℕ
  pub unannounced : ℕ
  pub news : Changes
  pub due : Bool
  pub synchronizing : Bool
  pub sync_queued : Bool
  pub begun : ℕ
  pub running : ℕ
  pub covered : ℕ

-- The run begins while changes may be unannounced and notifications on their way.
abbrev pub start : ℕ → Changes → Uploads
start unannounced news = record {
  version = 0;
  unannounced = unannounced;
  news = news;
  due = true;
  synchronizing = false;
  sync_queued = false;
  begun = 0;
  running = 0;
  covered = 0;
}

abbrev pub push_if : Bool → Uploads → Uploads
push_if true s = record s { sync_queued = true }
push_if false s = record s {
  synchronizing = true;
  begun = s.begun + 1;
  running = s.running + 1;
  covered = s.version;
}

unfoldable pub push_local_receipts : Uploads → Uploads
push_local_receipts s = push_if s.synchronizing s

abbrev pub push_again_if : Bool → Uploads → Uploads
unfolding push_local_receipts
push_again_if true s = push_local_receipts (record s { sync_queued = false })
push_again_if false s = s

-- `finally`
unfoldable pub upload_ended : Uploads → Uploads
unfolding push_again_if
upload_ended s =
    push_again_if s.sync_queued (record s { synchronizing = false; running = s.running - 1 })

-- What can happen: the tables change, the code that changed them calls `notifyReceiptChange`, a
-- microtask delivers the news, the chain comes to its upload, an upload ends, and whatever else
-- happens to the notifications: batches begin and end, listeners come and go.
pub data Step (s : Uploads) : Uploads → Type 0 where
  commits : Step s (record s { version = s.version + 1; unannounced = s.unannounced + 1 })
  announces :
      0 < s.unannounced
      → Step s (record s { unannounced = s.unannounced - 1; news = notify_receipt_change s.news })
  delivers :
      0 < s.news.microtasks → Step s (push_local_receipts (record s { news = deliver s.news }))
  signed_in : s.due ≡ true → Step s (push_local_receipts (record s { due = false }))
  ended : 0 < s.running → Step s (upload_ended s)
  other :
      (e : Event)
      → CanStep e s.news
      → e ≢ Event.delivered
      → Step s (record s { news = step e s.news })

pub data Reach : Uploads → Type 0 where
  here :
      (unannounced : ℕ) (news : Changes) → Delivery.IsCoherent news → Reach (start unannounced news)
  next : {s t : Uploads} → Reach s → Step s t → Reach t
