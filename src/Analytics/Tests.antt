-- ===== src/Analytics/Tests.antt =====
-- Runs of mobile/src/analytics/service.ts on a device with product analytics on and two events.
use foodler.Common.{
  ℕ, ◌≤◌, ◌<◌, ◌*◌, ◌≡◌, ◌↔◌, refl, true, false, none, some, List, [], ◌∷◌, ◌++◌, arith, length,
}
use foodler.Text.{Text, codes, text_eq}
use foodler.Json.{Json, object, end, array, to_items, elements, lookup_field}
use foodler.Analytics.Service.{
  Preference, Device, NewEvent, max_queue, max_batch, parse_state, parse_queue, state_json,
  read_state, read_queue, resolve_consent, queued_event,
}
use foodler.Analytics.Triggers.{enqueue_and_maybe_flush, enqueue_and_maybe_flush-keeps}
use foodler.Analytics.Preference.{IsSettled, parse-state_json_iff}
use foodler.Analytics.Consent.{
  Call, enqueuing, flushing, preferring, account, IsSilent, run_calls, no_consent-IsSilent,
}
use foodler.Analytics.Delivery.{IsOn, HasDistinctIds, accepted_flushes, accepted_flushes-drain}

abbrev counted : ℕ → Text
counted n = n ∷ []

abbrev on : Preference
on = record {
  consent = true;
  enabled = true;
  pending_preference = none;
  account_enabled = some true;
}

abbrev opened : NewEvent
opened = record {
  event_name = codes "app_opened";
  occurred_at = codes "2026-07-23";
  properties = object end;
}

abbrev scanned : NewEvent
scanned = record {
  event_name = codes "scan_succeeded";
  occurred_at = codes "2026-07-24";
  properties = object end;
}

abbrev session : Text
session = codes "s"

abbrev event_of : ℕ → NewEvent → Json
event_of n event = queued_event counted session (counted n) event

abbrev two_events : List Json
two_events = event_of 1 opened ∷ event_of 2 scanned ∷ []

abbrev phone : Device
phone = record {
  installation = some (codes "installation-0001");
  state = some (some (state_json on));
  queue = some (some (array (to_items two_events)));
  id_sequence = 2;
}

phone-IsOn : IsOn phone
unfolding parse_state state_json text_eq lookup_field
phone-IsOn = refl

phone-consent : (read_state phone).consent ≡ true
unfolding parse_state state_json text_eq lookup_field
phone-consent = refl

phone-queue : read_queue phone ≡ two_events
unfolding parse_queue text_eq lookup_field elements to_items
phone-queue = refl

phone-HasDistinctIds : HasDistinctIds (read_queue phone)
unfolding parse_queue text_eq lookup_field elements to_items
phone-HasDistinctIds = (refl, (refl, tt))

phone-length : length (read_queue phone) ≤ 1 * max_batch
unfolding parse_queue text_eq lookup_field elements to_items
phone-length = omega arith

phone-room : length (read_queue phone) < max_queue
unfolding parse_queue text_eq lookup_field elements to_items
phone-room = omega arith

phone-bounded : length (read_queue phone) ≤ max_queue
unfolding parse_queue text_eq lookup_field elements to_items
phone-bounded = omega arith

-- Consent is refused while events wait: all of them are gone, and no later call sends one.
abbrev refused : List Call
refused =
    enqueuing opened
    ∷ account true
    ∷ preferring true (some true)
    ∷ flushing (some true) (some true)
    ∷ []

parse-state_json_iff_example : (parse_state (some (some (state_json on))) ≡ on) ↔ IsSettled on
parse-state_json_iff_example = parse-state_json_iff on

no_consent-IsSilent_example :
    ((run_calls counted session refused (resolve_consent false (some true) phone)).0 ≡ [])
    × IsSilent counted session
        (run_calls counted session refused (resolve_consent false (some true) phone)).1
no_consent-IsSilent_example =
    no_consent-IsSilent counted session refused (some true) phone (tt, (tt, (tt, (tt, tt))))

accepted_flushes-drain_example :
    ((run_calls counted session (accepted_flushes counted 1) phone).0 ≡ read_queue phone)
    × (read_queue (run_calls counted session (accepted_flushes counted 1) phone).1 ≡ [])
accepted_flushes-drain_example =
    accepted_flushes-drain counted session 1 phone phone-IsOn phone-HasDistinctIds phone-length

three-HasDistinctIds : HasDistinctIds (read_queue phone ++ event_of 3 opened ∷ [])
unfolding parse_queue text_eq lookup_field elements to_items
three-HasDistinctIds = (refl, (refl, (refl, tt)))

enqueue_and_maybe_flush-keeps_example :
    (enqueue_and_maybe_flush counted session none (some true) opened phone).0
      ++ read_queue (enqueue_and_maybe_flush counted session none (some true) opened phone).1
    ≡ read_queue phone ++ event_of 3 opened ∷ []
enqueue_and_maybe_flush-keeps_example =
    enqueue_and_maybe_flush-keeps counted session none opened phone phone-IsOn phone-room
      three-HasDistinctIds
