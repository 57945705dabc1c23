-- ===== src/Analytics/Service.antt =====
-- mobile/src/analytics/service.ts. The class runs its operations one after the other (`run`), so
-- each is a function of the state that the device stores. The server's answer is an argument:
-- `none` where the request fails. `random n` is the identifier of the n-th call of `randomId`.
use foodler.Common.{
  ℕ, ◌+◌, ◌-◌, Bool, true, false, ◌&&◌, ◌||◌, not, Option, none, some, List, [], ◌∷◌, ◌++◌, length,
  take, drop, select, any, leb, is_some, or_else, or_option, if◌then◌else◌,
}
use foodler.Text.{Text, codes, text_eq}
use foodler.Json.{
  Json, null, boolean, string, object, array, end, field, Raw, elements, to_items, lookup_field,
  is_record, get_field, as_boolean, as_string,
}

abbrev pub max_queue : ℕ
max_queue = 500

abbrev pub max_batch : ℕ
max_batch = 50

pub record Preference : Type 0 where
  pub consent : Bool
  pub enabled : Bool
  pub pending_preference : Option Bool
  pub account_enabled : Option Bool

abbrev pub default_state : Preference
default_state = record {
  consent = false;
  enabled = false;
  pending_preference = none;
  account_enabled = none;
}

-- Where both booleans are there.
abbrev parsed_state : Option Bool → Option Bool → Option Bool → Option Bool → Preference
parsed_state (some consent) (some enabled) pending account = record {
  consent = consent;
  enabled = consent && enabled && not (is_some pending);
  pending_preference = pending;
  account_enabled = account;
}
parsed_state _ _ pending account = default_state

unfoldable pub parse_state : Raw → Preference
unfolding lookup_field
parse_state none = default_state
parse_state (some none) = default_state
parse_state (some (some value)) =
    if is_record value
    then parsed_state (as_boolean (get_field (codes "consent") value))
        (as_boolean (get_field (codes "enabled") value))
        (as_boolean (get_field (codes "pendingPreference") value))
        (as_boolean (get_field (codes "accountEnabled") value))
    else default_state

abbrev json_option : Option Bool → Json
json_option none = null
json_option (some b) = boolean b

-- `JSON.stringify(state)`
unfoldable pub state_json : Preference → Json
state_json s = object (
    field (codes "consent") (boolean s.consent) (
      field (codes "enabled") (boolean s.enabled) (
        field (codes "pendingPreference") (json_option s.pending_preference)
          (field (codes "accountEnabled") (json_option s.account_enabled) end))))

abbrev pub is_queued_event : Json → Bool
is_queued_event event =
    is_record event
    && is_some (as_string (get_field (codes "eventId") event))
    && is_some (as_string (get_field (codes "eventName") event))
    && is_some (as_string (get_field (codes "occurredAt") event))

abbrev parsed_queue : Json → List Json
parsed_queue (array items) = select is_queued_event (elements items)
parsed_queue _ = []

unfoldable pub parse_queue : Raw → List Json
unfolding elements lookup_field
parse_queue none = []
parse_queue (some none) = []
parse_queue (some (some value)) = parsed_queue value

abbrev pub event_id : Json → Text
event_id event = or_else (as_string (get_field (codes "eventId") event)) []

-- What `enqueue` is given.
pub record NewEvent : Type 0 where
  pub event_name : Text
  pub occurred_at : Text
  pub properties : Json

-- The keys of AsyncStorage, and the counter of `randomId`.
pub record Device : Type 0 where
  pub installation : Option Text
  pub state : Raw
  pub queue : Raw
  pub id_sequence : ℕ

abbrev pub read_state : Device → Preference
read_state d = parse_state d.state

abbrev pub write_state : Preference → Device → Device
write_state s d = record d { state = some (some (state_json s)) }

abbrev pub read_queue : Device → List Json
read_queue d = parse_queue d.queue

abbrev pub write_queue : List Json → Device → Device
write_queue q d = record d { queue = some (some (array (to_items q))) }

abbrev pub clear_queue : Device → Device
clear_queue d = record d { queue = none }

abbrev pub clear_unless : Bool → Device → Device
clear_unless enabled d = if enabled then d else clear_queue d

unfoldable pub resolve_consent : Bool → Option Bool → Device → Device
resolve_consent consent account_enabled d =
    let current = read_state d in
    let resolved_account = or_option account_enabled current.account_enabled in
    let first_acceptance = consent && not current.consent in
    let enabled_by_preference =
      or_else resolved_account (if first_acceptance then true else current.enabled) in
    let enabled = consent && not (is_some current.pending_preference) && enabled_by_preference in
    clear_unless enabled (
      write_state
        (record {
          consent = consent;
          enabled = enabled;
          pending_preference = current.pending_preference;
          account_enabled = resolved_account;
        })
        d)

abbrev is_false : Option Bool → Bool
is_false (some false) = true
is_false _ = false

unfoldable pub apply_account_preference : Bool → Device → Device
apply_account_preference account_enabled d =
    let current = read_state d in
    let pending =
      if is_false current.pending_preference && account_enabled then some false else none in
    let enabled = current.consent && not (is_some pending) && account_enabled in
    clear_unless enabled (
      write_state
        (record current {
          enabled = enabled;
          account_enabled = some account_enabled;
          pending_preference = pending;
        })
        d)

-- The last `n` elements, `queue.slice(-n)`.
abbrev pub last_of {ℓ} : {A : Type ℓ} → ℕ → List A → List A
last_of n xs = drop (length xs - n) xs

abbrev no_events : List Json → Bool
no_events [] = true
no_events (e ∷ es) = false

-- The answer of `setPreference`.
pub data Synced : Type 0 where
  synced pending : Synced

-- The state after the server's answer to a change of preference.
abbrev pub answered_state : Preference → Bool → Preference
answered_state s answer = record s {
  account_enabled = some answer;
  enabled = s.consent && answer;
  pending_preference = none;
}

module _ (random : ℕ → Text) where
  abbrev renew_installation : Device → Text × Device
  renew_installation d =
      let id = random (d.id_sequence + 1) in
      (id, record d { installation = some id; id_sequence = d.id_sequence + 1 })

  unfoldable pub installation_id : Device → Text × Device
  installation_id d = elim d.installation [
    | none ↦ renew_installation d
    | some stored ↦ if leb 16 (length stored) then (stored, d) else renew_installation d
  ]

  module _ (session_id : Text) where
    -- `{ ...event, eventId: randomId(), sessionId }`
    abbrev pub queued_event : Text → NewEvent → Json
    queued_event id event = object (
        field (codes "eventName") (string event.event_name) (
          field (codes "occurredAt") (string event.occurred_at) (
            field (codes "properties") event.properties (
              field (codes "eventId") (string id)
                (field (codes "sessionId") (string session_id) end)))))

    unfoldable pub enqueue : NewEvent → Device → Device
    enqueue event d =
        let state = read_state d in
        if not state.consent || not state.enabled then d else record d {
          queue = some (
              some (
                array (
                  to_items (
                    last_of max_queue
                      (read_queue d ++ queued_event (random (d.id_sequence + 1)) event ∷ [])))));
          id_sequence = d.id_sequence + 1;
        }

  unfoldable pub set_preference : Bool → Option Bool → Device → Synced × Device
  set_preference enabled answer d =
      let current = read_state d in
      let pending_state : Preference = record current {
        enabled = false;
        pending_preference = some enabled;
      } in
      let asked = (installation_id (clear_unless enabled (write_state pending_state d))).1 in
      elim answer [
        | none ↦ (pending, asked)
        | some response ↦ (synced, write_state (answered_state pending_state response) asked)
      ]

  -- The second half of `flush`, once no preference is pending. `ingest` is the server's answer.
  unfoldable pub send_batch : Option Bool → Preference → Device → List Json × Device
  send_batch ingest state d =
      let batch = take max_batch (read_queue d) in
      let asked = (installation_id d).1 in
      if not state.consent || not state.enabled || no_events batch then ([], d) else (
        batch,
        elim ingest [
          | none ↦ asked
          | some false ↦ clear_queue (
              write_state
                (record state {
                  account_enabled = some false;
                  enabled = false;
                  pending_preference = none;
                })
                asked)
          | some true ↦
              write_queue
                (select (λ event. not (any (λ b. text_eq (event_id b) (event_id event)) batch))
                  (read_queue asked))
                asked
        ],
      )

  unfoldable pub flush : Option Bool → Option Bool → Device → List Json × Device
  flush answer ingest d =
      let state = read_state d in
      elim state.pending_preference [
        | none ↦ send_batch ingest state d
        | some wanted ↦
            let asked = (installation_id d).1 in
            elim answer [
              | none ↦ ([], asked)
              | some response ↦
                  let answered = answered_state state response in
                  send_batch ingest answered (write_state answered asked)
            ]
      ]
