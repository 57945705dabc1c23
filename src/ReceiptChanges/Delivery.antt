-- ===== src/ReceiptChanges/Delivery.antt =====
-- A notification is never lost, and notifications that come together are delivered once.
use foodler.Common.{
  ℕ, zero, suc, not, ◌==◌, if◌then◌else◌, ◌<◌, ◌≡◌, refl, ◌≢◌, ◌⊎◌, true, false, ◌++◌, arith,
}
use foodler.ReceiptChanges.{
  Changes, notify_receipt_change, deliver, begin_batch, end_batch, Event, step, CanStep, Reaches,
}

-- A delivery is in the microtask queue exactly when the flag says so, and never twice; a batch
-- remembers changes only while it is open.
pub record IsCoherent (s : Changes) : Type 0 where
  pub queued : (s.notification_queued ≡ true) ⊎ (s.microtasks ≡ 0)
  pub unqueued : (s.notification_queued ≡ false) ⊎ (s.microtasks ≡ 1)
  pub open_batch : (s.batch_changed ≡ false) ⊎ (0 < s.batch_depth)

pub step-IsCoherent : {s : Changes} (e : Event) → CanStep e s → IsCoherent s → IsCoherent (step e s)
unfolding step
step-IsCoherent e CanStep.notified h = ground arith
step-IsCoherent e CanStep.batch_began h = ground arith
step-IsCoherent e (CanStep.batch_ended p) h = ground arith
step-IsCoherent e (CanStep.delivered p) h = ground arith
step-IsCoherent e (CanStep.subscribed l) h = ground arith
step-IsCoherent e (CanStep.unsubscribed l) h = ground arith

-- Every state that can be reached from a coherent state, such as the first one, is coherent.
pub Reaches-IsCoherent : {s t : Changes} → IsCoherent s → Reaches s t → IsCoherent t
Reaches-IsCoherent h Reaches.here = h
Reaches-IsCoherent h (Reaches.next e r c) = step-IsCoherent e c (Reaches-IsCoherent h r)

-- News is on its way: a delivery is queued, or an open batch will queue one.
abbrev pub IsPending : Changes → Type 0
IsPending s = (s.microtasks ≡ 1) ⊎ ((s.batch_changed ≡ true) × (0 < s.batch_depth))

-- A state reached with no delivery on the way.
pub data Undelivered (s : Changes) : Changes → Type 0 where
  here : Undelivered s s
  next :
      {t : Changes} (e : Event)
      → Undelivered s t
      → CanStep e t
      → e ≢ Event.delivered
      → Undelivered s (step e t)

Undelivered-IsCoherent : {s t : Changes} → IsCoherent s → Undelivered s t → IsCoherent t
Undelivered-IsCoherent h Undelivered.here = h
Undelivered-IsCoherent h (Undelivered.next e u c n) =
    step-IsCoherent e c (Undelivered-IsCoherent h u)

pub step-IsPending :
    {s : Changes} (e : Event)
    → CanStep e s
    → e ≢ Event.delivered
    → IsCoherent s
    → IsPending s
    → IsPending (step e s)
unfolding step
step-IsPending e CanStep.notified n h p = ground arith
step-IsPending e CanStep.batch_began n h p = ground arith
step-IsPending e (CanStep.batch_ended q) n h p = ground arith
step-IsPending e (CanStep.delivered q) n h p = absurd (n refl)
step-IsPending e (CanStep.subscribed l) n h p = ground arith
step-IsPending e (CanStep.unsubscribed l) n h p = ground arith

pub notify-IsPending : {s : Changes} → IsCoherent s → IsPending (notify_receipt_change s)
unfolding notify_receipt_change
notify-IsPending h = ground arith

Undelivered-IsPending : {s t : Changes} → IsCoherent s → IsPending s → Undelivered s t → IsPending t
Undelivered-IsPending h p Undelivered.here = p
Undelivered-IsPending h p (Undelivered.next e u c n) =
    step-IsPending e c n (Undelivered-IsCoherent h u) (Undelivered-IsPending h p u)

pub notify-IsCoherent : {s : Changes} → IsCoherent s → IsCoherent (notify_receipt_change s)
unfolding notify_receipt_change
notify-IsCoherent h = ground arith

-- After a notification in a coherent state, whatever happens short of a delivery, exactly one
-- delivery is queued, or an open batch remembers the change.
pub notification-kept :
    (s t : Changes) → IsCoherent s → Undelivered (notify_receipt_change s) t → IsPending t
notification-kept s t h u = Undelivered-IsPending (notify-IsCoherent h) (notify-IsPending h) u

-- Notifications one after the other.
abbrev pub notify_times : ℕ → Changes → Changes
notify_times zero s = s
notify_times (suc n) s = notify_times n (notify_receipt_change s)

-- In a batch they are remembered as one.
notify_times-batch :
    (n : ℕ) (s : Changes)
    → 0 < s.batch_depth
    → notify_times (suc n) s ≡ record s { batch_changed = true }
unfolding notify_receipt_change
notify_times-batch zero s h = ground (arith, h)
notify_times-batch (suc n) s h =
    rw (notify_in_batch s h) (notify_times-batch n (record s { batch_changed = true }) h)
  where
    notify_in_batch :
        (s : Changes)
        → 0 < s.batch_depth
        → notify_receipt_change s ≡ record s { batch_changed = true }
    notify_in_batch s h = ground (arith, h)

-- A batch in which changes are notified at least once, in a coherent state with any batches open
-- around it and a delivery queued or not: inside another batch its end queues nothing, and the outer
-- batch remembers the news; at the outermost level exactly one delivery is queued. A delivery right
-- after it calls the listeners of the moment in order, once, and leaves none queued; a notification
-- after that is queued again, or remembered by the batch that is still open.
pub batch-delivers_once :
    (s : Changes) (n : ℕ)
    → IsCoherent s
    → let t = end_batch (notify_times (suc n) (begin_batch s)) in
      (t.batch_depth ≡ s.batch_depth)
      × (t.microtasks ≡ (if s.batch_depth == 0 then 1 else s.microtasks))
      × (t.batch_changed ≡ not (s.batch_depth == 0))
      × ((deliver t).calls ≡ s.calls ++ s.listeners)
      × ((deliver t).microtasks ≡ 0)
      × ((notify_receipt_change (deliver t)).microtasks ≡ (if s.batch_depth == 0 then 1 else 0))
      × ((notify_receipt_change (deliver t)).batch_changed ≡ not (s.batch_depth == 0))
unfolding end_batch deliver notify_receipt_change begin_batch
batch-delivers_once s n h = rw (notify_times-batch n (begin_batch s) (omega arith)) (ground arith)
