-- ===== src/ReceiptChanges.antt =====
-- mobile/src/features/receipts/receiptChanges.ts: listeners of receipt changes, told once in a
-- microtask, with nested batches that hold the news back.
-- The module's variables are a record; `microtasks` is the number of deliveries in the microtask
-- queue, and `calls` the log of the listeners that were called. A listener's own synchronous part
-- is taken to leave this module alone, as those of AppDataContext.tsx do.
pub mod Delivery
mod Tests
use foodler.Common.{
  ℕ, zero, suc, ◌+◌, ◌-◌, Bool, true, false, ◌&&◌, not, List, [], ◌∷◌, ◌++◌, ltb, ◌==◌, any, select,
  if◌then◌else◌, ◌<◌, ◌≡◌, ◌≢◌,
}

pub record Changes : Type 0 where
  pub listeners : List ℕ
  pub notification_queued : Bool
  pub batch_depth : ℕ
  pub batch_changed : Bool
  pub microtasks : ℕ
  pub calls : List ℕ

abbrev pub start : Changes
start = record {
  listeners = [];
  notification_queued = false;
  batch_depth = 0;
  batch_changed = false;
  microtasks = 0;
  calls = [];
}

-- `queueMicrotask(…)`
abbrev queue_delivery : Changes → Changes
queue_delivery s = record s { notification_queued = true; microtasks = s.microtasks + 1 }

unfoldable pub notify_receipt_change : Changes → Changes
notify_receipt_change s =
    if ltb 0 s.batch_depth
    then record s { batch_changed = true }
    else if s.notification_queued
    then s
    else queue_delivery s

-- The body of the microtask, which the event loop runs.
unfoldable pub deliver : Changes → Changes
deliver s = record s {
  notification_queued = false;
  microtasks = s.microtasks - 1;
  calls = s.calls ++ s.listeners;
}

-- `batchReceiptChanges` before its task, and the `finally` block after it.
unfoldable pub begin_batch : Changes → Changes
begin_batch s = record s { batch_depth = s.batch_depth + 1 }

abbrev close_batch : Changes → Changes
close_batch s = record s { batch_depth = s.batch_depth - 1 }

unfoldable pub end_batch : Changes → Changes
unfolding notify_receipt_change
end_batch s =
    if (s.batch_depth - 1) == 0 && s.batch_changed
    then notify_receipt_change (record (close_batch s) { batch_changed = false })
    else close_batch s

-- `listeners.add(listener)` keeps the place of a listener that is there already.
unfoldable pub subscribe : ℕ → Changes → Changes
subscribe l s =
    if any (λ k. k == l) s.listeners then s else record s { listeners = s.listeners ++ l ∷ [] }

unfoldable pub unsubscribe : ℕ → Changes → Changes
unsubscribe l s = record s { listeners = select (λ k. not (k == l)) s.listeners }

pub data Event : Type 0 where
  notified batch_began batch_ended delivered : Event
  subscribed unsubscribed : ℕ → Event

unfoldable pub step : Event → Changes → Changes
unfolding notify_receipt_change begin_batch end_batch deliver subscribe unsubscribe
step notified s = notify_receipt_change s
step batch_began s = begin_batch s
step batch_ended s = end_batch s
step delivered s = deliver s
step (subscribed l) s = subscribe l s
step (unsubscribed l) s = unsubscribe l s

-- What can happen: a batch ends only after it began, and a microtask runs only if it was queued.
pub data CanStep : Event → Changes → Type 0 where
  notified : {s : Changes} → CanStep Event.notified s
  batch_began : {s : Changes} → CanStep Event.batch_began s
  batch_ended : {s : Changes} → 0 < s.batch_depth → CanStep Event.batch_ended s
  delivered : {s : Changes} → 0 < s.microtasks → CanStep Event.delivered s
  subscribed : {s : Changes} (l : ℕ) → CanStep (Event.subscribed l) s
  unsubscribed : {s : Changes} (l : ℕ) → CanStep (Event.unsubscribed l) s

pub data Reaches (s : Changes) : Changes → Type 0 where
  here : Reaches s s
  next : {t : Changes} (e : Event) → Reaches s t → CanStep e t → Reaches s (step e t)
