-- ===== src/Analytics/Triggers.antt =====
-- mobile/src/analytics/triggers.ts: when events are queued and when the queue is flushed. A trigger
-- gives the events that it sends and the device after it; no other call of the service comes between
-- its own. `now` is `new Date().toISOString()`.
use foodler.Common.{
  ℕ, ◌+◌, ◌<◌, ◌≡◌, ap, ap₂, ◌∙◌, Bool, true, false, ◌&&◌, not, Option, none, some, List, [], ◌∷◌,
  ◌++◌, arith, length, leb, take-append-drop, Bool-cases, inl, inr, if◌then◌else◌,
}
use foodler.Text.{Text, codes, text_eq}
use foodler.Json.{Json, object, end}
use foodler.Analytics.Service.{
  Device, NewEvent, max_batch, max_queue, read_queue, parse_state, queued_event, resolve_consent,
  apply_account_preference, enqueue, flush,
}
use foodler.Analytics.Queue.{enqueue_lem}
use foodler.Analytics.Delivery.{IsOn, HasDistinctIds, consent-on, flush-accepted}

abbrev pub analytics_flush_threshold : ℕ
analytics_flush_threshold = max_batch

-- The fields of `AnalyticsTriggers`, and the device.
pub record Triggers : Type 0 where
  pub app_state : Text
  pub subscribed : Bool
  pub device : Device

abbrev active : Text
active = codes "active"

abbrev pub start : Triggers → Triggers
start t = record t { subscribed = true }

abbrev pub stop : Triggers → Triggers
stop t = record t { subscribed = false }

module _ (random : ℕ → Text) (session_id : Text) (answer ingest : Option Bool) where
  unfoldable pub resolved_auth : Option Bool → Device → List Json × Device
  resolved_auth none d = flush random answer ingest d
  resolved_auth (some account_enabled) d =
      flush random answer ingest (apply_account_preference account_enabled d)

  unfoldable pub resolved_consent : Bool → Device → List Json × Device
  resolved_consent consent d = flush random answer ingest (resolve_consent consent none d)

  unfoldable pub enqueue_and_maybe_flush : NewEvent → Device → List Json × Device
  enqueue_and_maybe_flush event d =
      let queued = enqueue random session_id event d in
      if leb analytics_flush_threshold (length (read_queue queued))
      then flush random answer ingest queued
      else ([], queued)

  abbrev backgrounded : Text → NewEvent
  backgrounded now = record {
    event_name = codes "app_backgrounded";
    occurred_at = now;
    properties = object end;
  }

  -- What a change of the app's state does to the device.
  abbrev changed : Text → Bool → Bool → Device → List Json × Device
  changed now background foreground d =
      if background
      then enqueue_and_maybe_flush (backgrounded now) d
      else if foreground
      then flush random answer ingest d
      else ([], d)

  -- The listener of `start`, which is called only while it is subscribed.
  unfoldable pub app_state_changed : Text → Text → Triggers → List Json × Triggers
  unfolding enqueue_and_maybe_flush
  app_state_changed now next t =
      let background = text_eq t.app_state active && not (text_eq next active) in
      let foreground = not (text_eq t.app_state active) && text_eq next active in
      let (sent, d) = changed now background foreground t.device in
      if t.subscribed then (sent, record t { app_state = next; device = d }) else ([], t)

module _ (random : ℕ → Text) (session_id : Text) where
  -- The event as `enqueue` stores it.
  abbrev pub stored_event : NewEvent → Device → Json
  stored_event event d = queued_event random session_id (random (d.id_sequence + 1)) event

  enqueue-state :
      (event : NewEvent) (d : Device) → (enqueue random session_id event d).state ≡ d.state
  unfolding enqueue
  enqueue-state event d = ground arith

  -- With product analytics on, fewer than 500 events that wait and a server that accepts, queueing
  -- an event loses none and doubles none, whether it reaches the threshold or not: what is sent
  -- and then what waits are together the events that waited and the new one, in order. The
  -- identifiers of these events are distinct.
  pub enqueue_and_maybe_flush-keeps :
      (answer : Option Bool) (event : NewEvent) (d : Device)
      → IsOn d
      → length (read_queue d) < max_queue
      → HasDistinctIds (read_queue d ++ stored_event event d ∷ [])
      → (enqueue_and_maybe_flush random session_id answer (some true) event d).0
          ++ read_queue (enqueue_and_maybe_flush random session_id answer (some true) event d).1
        ≡ read_queue d ++ stored_event event d ∷ []
  unfolding enqueue_and_maybe_flush
  enqueue_and_maybe_flush-keeps answer event d on short distinct =
      let queued : Device = enqueue random session_id event d in
      let stored = enqueue_lem random session_id event d (consent-on random d on) on short in
      let still : IsOn queued =
        ap (λ raw. (parse_state raw).enabled) (enqueue-state event d) ∙ on in
      let (sent, kept, same) = flush-accepted random answer queued still (rw stored distinct) in
      elim (Bool-cases (leb analytics_flush_threshold (length (read_queue queued)))) [
        | inl full ↦ rw full (
            ap₂ (λ (a b : List Json). a ++ b) sent kept
            ∙ take-append-drop max_batch (read_queue queued)
            ∙ stored)
        | inr room ↦ rw room stored
      ]
