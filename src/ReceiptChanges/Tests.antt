-- ===== src/ReceiptChanges/Tests.antt =====
-- Runs of the notifications.
use foodler.Common.{◌≡◌, ◌≢◌, refl, [], ◌∷◌, inl, inr, false}
use foodler.ReceiptChanges.{
  Changes, start, notify_receipt_change, deliver, begin_batch, end_batch, subscribe, Event, step,
  CanStep,
}
use foodler.ReceiptChanges.Delivery.{
  IsCoherent, IsPending, Undelivered, notify_times, notification-kept, batch-delivers_once,
}

changes : Unit {0}
unfolding step
changes = tt

start-IsCoherent : IsCoherent start
start-IsCoherent = record { queued = inr refl; unqueued = inl refl; open_batch = inl refl }

abbrev listening : Changes
listening = record start { listeners = 1 ∷ 2 ∷ [] }

listening-IsCoherent : IsCoherent listening
listening-IsCoherent = record { queued = inr refl; unqueued = inl refl; open_batch = inl refl }

-- Two notifications in a row are one delivery.
coalesced :
    (deliver (notify_receipt_change (notify_receipt_change (subscribe 7 start)))).calls ≡ 7 ∷ []
unfolding changes deliver notify_receipt_change subscribe
coalesced = refl

batch_began-ne : Event.batch_began ≢ Event.delivered
batch_began-ne = cc

notification-kept_example : IsPending (step Event.batch_began (notify_receipt_change start))
notification-kept_example =
    notification-kept start (step Event.batch_began (notify_receipt_change start)) start-IsCoherent
      (Undelivered.next Event.batch_began Undelivered.here CanStep.batch_began batch_began-ne)

-- A batch with two changes.
abbrev told : Changes
unfolding begin_batch end_batch notify_receipt_change
told = end_batch (notify_times 2 (begin_batch listening))

batch-delivers_once_example :
    (told.batch_depth ≡ 0)
    × (told.microtasks ≡ 1)
    × (told.batch_changed ≡ false)
    × ((deliver told).calls ≡ 1 ∷ 2 ∷ [])
    × ((deliver told).microtasks ≡ 0)
    × ((notify_receipt_change (deliver told)).microtasks ≡ 1)
    × ((notify_receipt_change (deliver told)).batch_changed ≡ false)
unfolding told
batch-delivers_once_example = batch-delivers_once listening 1 listening-IsCoherent
