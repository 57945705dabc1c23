-- ===== src/Analytics/Delivery.antt =====
-- Flushing: what an accepted flush sends and keeps, what a failed one keeps, and that enough
-- accepted flushes deliver the whole queue in order.
use foodler.Common.{
  ℕ, zero, suc, ◌*◌, ◌≤◌, ◌≡◌, refl, sym, subst, ap, ap₂, ◌∙◌, ◌⊎◌, inl, inr, Bool, true, false,
  not, Option, none, some, List, [], ◌∷◌, ◌++◌, arith, All, length, take, drop, select, any,
  Bool-cases, select-append, length-drop, take-append-drop,
}
use foodler.Text.{Text, text_eq}
use foodler.Text.Laws.{text_eq_refl}
use foodler.Json.{Json}
use foodler.Keys.{has_key, HasDistinctKeys, select-All, select-none, text_eq_comm}
use foodler.Analytics.Service.{
  Preference, Device, max_batch, read_state, read_queue, is_queued_event, event_id, installation_id,
  send_batch, flush, write_queue, parse_queue, parse_state,
}
use foodler.Analytics.Preference.{parse_state-IsSettled}
use foodler.Analytics.Queue.{parse-queue_json, select-parse_queue}
use foodler.Analytics.Consent.{
  Call, flushing, run_call, run_calls, flush-idle, state-installation_id, queue-installation_id,
}

abbrev pub HasDistinctIds : List Json → Type 0
HasDistinctIds q = HasDistinctKeys event_id q

abbrev in_batch : List Json → Json → Bool
in_batch batch event = any (λ b. text_eq (event_id b) (event_id event)) batch

-- The filter of `flush`.
abbrev unacknowledged : List Json → List Json → List Json
unacknowledged batch q = select (λ event. not (in_batch batch event)) q

All-in_batch :
    (xs batch : List Json)
    → ((e : Json) → in_batch xs e ≡ true → in_batch batch e ≡ true)
    → All (λ e. not (in_batch batch e) ≡ false) xs
All-in_batch [] batch h = tt
All-in_batch (x ∷ xs) batch h = (
  rw (h x (rw (text_eq_refl (event_id x)))),
  All-in_batch xs batch (λ e p. h e (ground (arith, p))),
)

distinct-first :
    (p : Json) (ys : List Json)
    → any (has_key event_id (event_id p)) ys ≡ false
    → All (λ e. text_eq (event_id p) (event_id e) ≡ false) ys
distinct-first p [] h = tt
distinct-first p (y ∷ ys) h =
    (text_eq_comm (event_id p) (event_id y) ∙ ground arith, distinct-first p ys (ground arith))

All-right : (P : Json → Type 0) (xs ys : List Json) → All P (xs ++ ys) → All P ys
All-right P [] ys h = h
All-right P (x ∷ xs) ys h = All-right P xs ys h.1

All-both :
    {P Q R : Json → Type 0} (xs : List Json)
    → ((x : Json) → P x → Q x → R x)
    → All P xs
    → All Q xs
    → All R xs
All-both [] f h k = tt
All-both (x ∷ xs) f (p, h) (q, k) = (f x p q, All-both xs f h k)

-- With distinct identifiers nothing behind the batch is in it.
rest_not-in_batch :
    (batch rest : List Json)
    → HasDistinctIds (batch ++ rest)
    → All (λ e. not (in_batch batch e) ≡ true) rest
rest_not-in_batch [] rest h = All-trivial rest
  where
    All-trivial : (rest : List Json) → All (λ e. not (in_batch [] e) ≡ true) rest
    All-trivial [] = tt
    All-trivial (x ∷ xs) = (refl, All-trivial xs)
rest_not-in_batch (b ∷ batch) rest (p, h) =
    All-both rest (λ e q r. rw q r) (All-right _ batch rest (distinct-first b (batch ++ rest) p))
      (rest_not-in_batch batch rest h)

unacknowledged_lem :
    (batch rest : List Json)
    → HasDistinctIds (batch ++ rest)
    → unacknowledged batch (batch ++ rest) ≡ rest
unacknowledged_lem batch rest h =
    select-append (λ e. not (in_batch batch e)) batch rest
    ∙ rw (
      select-none _ batch (All-in_batch batch batch (λ e p. p)),
      select-All _ rest (rest_not-in_batch batch rest h),
    )

unacknowledged-take :
    (n : ℕ) (q : List Json) → HasDistinctIds q → unacknowledged (take n q) q ≡ drop n q
unacknowledged-take n q h =
    ap (unacknowledged (take n q)) (sym (take-append-drop n q))
    ∙ unacknowledged_lem (take n q) (drop n q) (rw (take-append-drop n q) h)

HasDistinctIds-drop : (n : ℕ) (q : List Json) → HasDistinctIds q → HasDistinctIds (drop n q)
HasDistinctIds-drop zero q h = h
HasDistinctIds-drop (suc n) [] h = h
HasDistinctIds-drop (suc n) (e ∷ q) h = HasDistinctIds-drop n q h.1

List-cases : (q : List Json) → (q ≡ []) ⊎ ((e : Json) × (es : List Json) × (q ≡ e ∷ es))
List-cases [] = inl refl
List-cases (e ∷ es) = inr (e, es, refl)

length-zero : (q : List Json) → length q ≤ 0 → q ≡ []
length-zero [] h = refl
length-zero (e ∷ q) h = absurd (impossible (length q) h)
  where
    impossible : (n : ℕ) → suc n ≤ 0 → ⊥
    impossible n h = omega (arith, h)

-- Product analytics is on: then there is consent, and no preference waits.
abbrev pub IsOn : Device → Type 0
IsOn d = (read_state d).enabled ≡ true

All-drop : (P : Json → Type 0) (n : ℕ) (q : List Json) → All P q → All P (drop n q)
All-drop P zero q h = h
All-drop P (suc n) [] h = h
All-drop P (suc n) (e ∷ q) h = All-drop P n q h.1

select-IsTrue : (test : Json → Bool) (xs : List Json) → All (λ x. test x ≡ true) (select test xs)
select-IsTrue test [] = tt
select-IsTrue test (x ∷ xs) =
    let rest = select-IsTrue test xs in
    elim (Bool-cases (test x)) [ inl e ↦ rw e (e, rest) | inr e ↦ rw e rest ]

-- What is written back of a queue that was read is read again as it is.
read-drop :
    (n : ℕ) (d : Device) → select is_queued_event (drop n (read_queue d)) ≡ drop n (read_queue d)
read-drop n d = select-All is_queued_event (drop n (read_queue d)) (
    All-drop (λ x. is_queued_event x ≡ true) n (read_queue d)
      (subst (All (λ x. is_queued_event x ≡ true)) (select-parse_queue d.queue)
        (select-IsTrue is_queued_event (read_queue d))))

module _ (random : ℕ → Text) where
  pub consent-on : (d : Device) → IsOn d → (read_state d).consent ≡ true
  consent-on d on = let settled = parse_state-IsSettled d.state in ground arith

  flush-on :
      (answer ingest : Option Bool) (d : Device)
      → IsOn d
      → flush random answer ingest d ≡ send_batch random ingest (read_state d) d
  flush-on answer ingest d on =
      let settled = parse_state-IsSettled d.state in
      flush-idle random [] answer ingest d (ground arith)

  send-nothing :
      (ingest : Option Bool) (s : Preference) (d : Device)
      → read_queue d ≡ []
      → send_batch random ingest s d ≡ ([], d)
  unfolding send_batch
  send-nothing ingest s d e = ground arith

  send-failed :
      (s : Preference) (d : Device)
      → ((send_batch random none s d).1.queue ≡ d.queue)
        × ((send_batch random none s d).1.state ≡ d.state)
  unfolding send_batch
  send-failed s d =
      let q = queue-installation_id random [] d in
      let st = state-installation_id random [] d in ground arith

  send-accepted :
      (s : Preference) (d : Device) (e : Json) (es : List Json)
      → s.consent ≡ true
      → s.enabled ≡ true
      → read_queue d ≡ e ∷ es
      → send_batch random (some true) s d ≡ (
        take max_batch (read_queue d),
        write_queue
            (unacknowledged (take max_batch (read_queue d)) (read_queue d))
            (installation_id random d).1,
      )
  unfolding send_batch
  send-accepted s d e es c on q =
      let k = queue-installation_id random [] d in rw (c, on, ap parse_queue k, q)

  -- With product analytics on, and events of distinct identifiers, a flush that the server accepts
  -- sends the first 50 events, leaves exactly the others in their order, and keeps the preference.
  pub flush-accepted :
      (answer : Option Bool) (d : Device)
      → IsOn d
      → HasDistinctIds (read_queue d)
      → ((flush random answer (some true) d).0 ≡ take max_batch (read_queue d))
        × (read_queue (flush random answer (some true) d).1 ≡ drop max_batch (read_queue d))
        × ((flush random answer (some true) d).1.state ≡ d.state)
  flush-accepted answer d on distinct = elim (List-cases (read_queue d)) [
    | inl e ↦
        rw (flush-on answer (some true) d on, send-nothing (some true) (read_state d) d e, e)
          (refl, refl, refl)
    | inr (e, es, q) ↦
        rw
          (
            flush-on answer (some true) d on,
            send-accepted (read_state d) d e es (consent-on d on) on q,
          )
          (
            refl,
            parse-queue_json _
                ∙ ap (select is_queued_event)
                    (unacknowledged-take max_batch (read_queue d) distinct)
                ∙ read-drop max_batch d,
            state-installation_id random [] d,
          )
  ]

  -- With product analytics on, a flush that fails keeps the queue and the preference.
  pub flush-failed :
      (answer : Option Bool) (d : Device)
      → IsOn d
      → ((flush random answer none d).1.queue ≡ d.queue)
        × ((flush random answer none d).1.state ≡ d.state)
  flush-failed answer d on = rw (flush-on answer none d on) (send-failed (read_state d) d)

  abbrev pub accepted_flushes : ℕ → List Call
  accepted_flushes zero = []
  accepted_flushes (suc n) = flushing none (some true) ∷ accepted_flushes n

  module _ (session_id : Text) where
    -- With product analytics on, and events of distinct identifiers, n accepted flushes send a
    -- queue of at most n * 50 events, every event once and in order, and leave the queue empty.
    pub accepted_flushes-drain :
        (n : ℕ) (d : Device)
        → IsOn d
        → HasDistinctIds (read_queue d)
        → length (read_queue d) ≤ n * max_batch
        → ((run_calls random session_id (accepted_flushes n) d).0 ≡ read_queue d)
          × (read_queue (run_calls random session_id (accepted_flushes n) d).1 ≡ [])
    unfolding run_calls run_call
    accepted_flushes-drain zero d on distinct h = let e = length-zero (read_queue d) h in (sym e, e)
    accepted_flushes-drain (suc n) d on distinct h =
        let (sent, kept, same) = flush-accepted none d on distinct in
        let d' : Device = (flush random none (some true) d).1 in
        let (later, empty) =
          accepted_flushes-drain n d' (ap (λ raw. (parse_state raw).enabled) same ∙ on)
            (rw kept (HasDistinctIds-drop max_batch (read_queue d) distinct))
            (rw kept (omega (arith, length-drop max_batch (read_queue d), h))) in
        (
          ap₂ (λ (a b : List Json). a ++ b) sent (later ∙ kept)
              ∙ take-append-drop max_batch (read_queue d),
          empty,
        )
