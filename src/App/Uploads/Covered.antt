-- ===== src/App/Uploads/Covered.antt =====
-- At most one upload runs, and no change of the tables is forgotten.
use foodler.Common.{
  ℕ, ◌-◌, ◌≤◌, ◌<◌, ◌≡◌, refl, sym, ◌∙◌, ◌⊎◌, inl, inr, Bool, true, false, arith, if◌then◌else◌,
}
use foodler.ReceiptChanges.{Changes, Event, step, CanStep, deliver}
use foodler.ReceiptChanges.Delivery
use foodler.ReceiptChanges.Delivery.{
  IsPending, step-IsCoherent, step-IsPending, notify-IsCoherent, notify-IsPending,
}
use foodler.App.Uploads.{
  Uploads, push_if, push_local_receipts, push_again_if, upload_ended, Step, Reach, commits,
  announces, delivers, signed_in, ended, other, here, next,
}

-- Every change is before the start of the last upload, or an upload is on its way: a notification is
-- yet to be called, the news is on its way to `pushLocalReceipts`, or an upload is queued.
abbrev IsCovered : Uploads → Type 0
IsCovered s =
    (s.covered ≡ s.version)
    ⊎ (0 < s.unannounced)
    ⊎ IsPending s.news
    ⊎ ((s.sync_queued ≡ true) × (s.synchronizing ≡ true))

pub record IsCoherent (s : Uploads) : Type 0 where
  pub told : Delivery.IsCoherent s.news
  pub one : s.running ≡ (if s.synchronizing then 1 else 0)
  pub before : s.covered ≤ s.version
  pub busy : s.running ≤ s.begun
  pub first : (s.due ≡ true) ⊎ (0 < s.begun)
  pub covers : IsCovered s

running_one : (b : Bool) (n : ℕ) → n ≡ (if b then 1 else 0) → n ≤ 1
running_one true n h = omega (arith, h)
running_one false n h = omega (arith, h)

push-IsCoherent :
    (b : Bool) (s : Uploads)
    → s.synchronizing ≡ b
    → Delivery.IsCoherent s.news
    → s.running ≡ (if b then 1 else 0)
    → s.covered ≤ s.version
    → s.running ≤ s.begun
    → IsCoherent (push_if b s)
push-IsCoherent true s e told one before busy = record {
  told = told;
  one = rw e one;
  before = before;
  busy = busy;
  first = inr (omega (arith, one, busy));
  covers = inr (inr (inr (refl, e)));
}
push-IsCoherent false s e told one before busy = record {
  told = told;
  one = omega (arith, one);
  before = omega arith;
  busy = omega (arith, busy);
  first = inr (omega arith);
  covers = inl refl;
}

-- With no upload queued behind it, an upload that ends leaves the other ways of covering.
unqueued :
    (s : Uploads)
    → s.sync_queued ≡ false
    → IsCovered s
    → IsCovered (record s { synchronizing = false; running = s.running - 1 })
unqueued s e (inl covered) = inl covered
unqueued s e (inr (inl h)) = inr (inl h)
unqueued s e (inr (inr (inl h))) = inr (inr (inl h))
unqueued s e (inr (inr (inr (queued, h)))) = absurd (cc (sym e ∙ queued))

ended-IsCoherent :
    (queued : Bool) (s : Uploads)
    → s.sync_queued ≡ queued
    → 0 < s.running
    → IsCoherent s
    → IsCoherent
        (push_again_if queued (record s { synchronizing = false; running = s.running - 1 }))
unfolding push_again_if push_local_receipts
ended-IsCoherent true s e h k =
    let most = running_one s.synchronizing s.running k.one in
    push-IsCoherent false _ refl k.told (omega (arith, h, most)) k.before (omega (arith, k.busy))
ended-IsCoherent false s e h k =
    let most = running_one s.synchronizing s.running k.one in
    record {
      told = k.told;
      one = omega (arith, h, most);
      before = k.before;
      busy = omega (arith, k.busy);
      first = k.first;
      covers = unqueued s e k.covers;
    }

-- What happens to the notifications alone leaves an upload on its way.
told-covers :
    (s : Uploads) (news : Changes)
    → (IsPending s.news → IsPending news)
    → IsCovered s
    → IsCovered (record s { news = news })
told-covers s news f (inl covered) = inl covered
told-covers s news f (inr (inl h)) = inr (inl h)
told-covers s news f (inr (inr (inl h))) = inr (inr (inl (f h)))
told-covers s news f (inr (inr (inr h))) = inr (inr (inr h))

Step-IsCoherent : {s t : Uploads} → Step s t → IsCoherent s → IsCoherent t
unfolding push_local_receipts upload_ended step
Step-IsCoherent {s} commits k = record {
  told = k.told;
  one = k.one;
  before = omega (arith, k.before);
  busy = k.busy;
  first = k.first;
  covers = inr (inl (omega arith));
}
Step-IsCoherent {s} (announces h) k = record {
  told = notify-IsCoherent k.told;
  one = k.one;
  before = k.before;
  busy = k.busy;
  first = k.first;
  covers = inr (inr (inl (notify-IsPending k.told)));
}
Step-IsCoherent {s} (delivers h) k =
    push-IsCoherent s.synchronizing (record s { news = deliver s.news }) refl
      (step-IsCoherent Event.delivered (CanStep.delivered h) k.told) k.one k.before k.busy
Step-IsCoherent {s} (signed_in h) k =
    push-IsCoherent s.synchronizing (record s { due = false }) refl k.told k.one k.before k.busy
Step-IsCoherent {s} (ended h) k = ended-IsCoherent s.sync_queued s refl h k
Step-IsCoherent {s} (other e c n) k = record {
  told = step-IsCoherent e c k.told;
  one = k.one;
  before = k.before;
  busy = k.busy;
  first = k.first;
  covers = told-covers s (step e s.news) (step-IsPending e c n k.told) k.covers;
}

Reach-IsCoherent : {s : Uploads} → Reach s → IsCoherent s
Reach-IsCoherent (here unannounced news h) = record {
  told = h;
  one = refl;
  before = omega arith;
  busy = omega arith;
  first = inl refl;
  covers = inl refl;
}
Reach-IsCoherent (next r s) = Step-IsCoherent s (Reach-IsCoherent r)

-- However changes of the tables, notifications, batches and ends of uploads interleave in a run of the
-- effect: at most one upload runs; an upload has begun, for what the tables held when the run began,
-- or the chain has not come to its own; and each change since then came before the start of the last
-- upload, or its notification is yet to be called, or news is queued or remembered by an open batch
-- and so comes to `pushLocalReceipts`, or an upload runs and another one is queued behind it.
pub uploads-cover :
    (s : Uploads)
    → Reach s
    → (s.running ≤ 1)
      × ((s.due ≡ true) ⊎ (0 < s.begun))
      × ((s.covered ≡ s.version)
          ⊎ (0 < s.unannounced)
          ⊎ IsPending s.news
          ⊎ ((s.sync_queued ≡ true) × (s.running ≡ 1)))
uploads-cover s reach =
    let k = Reach-IsCoherent reach in
    (running_one s.synchronizing s.running k.one, k.first, or_queued k.one k.covers)
  where
    or_queued :
        s.running ≡ (if s.synchronizing then 1 else 0)
        → IsCovered s
        → (s.covered ≡ s.version)
          ⊎ (0 < s.unannounced)
          ⊎ IsPending s.news
          ⊎ ((s.sync_queued ≡ true) × (s.running ≡ 1))
    or_queued r (inl covered) = inl covered
    or_queued r (inr (inl h)) = inr (inl h)
    or_queued r (inr (inr (inl h))) = inr (inr (inl h))
    or_queued r (inr (inr (inr (queued, busy)))) = inr (inr (inr (queued, rw busy at r)))
