-- ===== src/Analytics/Consent.antt =====
-- Without consent nothing is collected and nothing is sent, whatever else is called and whatever the
-- server answers.
use foodler.Common.{
  ℕ, ◌≡◌, refl, inl, inr, Bool, true, false, Option, none, some, List, [], ◌∷◌, ◌++◌, arith, All,
  Option-cases,
}
use foodler.Text.{Text}
use foodler.Json.{Json}
use foodler.Analytics.Service.{
  Preference, Device, NewEvent, parse_queue, read_state, read_queue, resolve_consent,
  apply_account_preference, installation_id, enqueue, set_preference, send_batch, flush,
  answered_state, write_state,
}
use foodler.Analytics.Preference.{read_written}

-- The calls of the service, with the answers that the server gives to each.
pub data Call : Type 0 where
  resolving : Bool → Option Bool → Call
  account : Bool → Call
  enqueuing : NewEvent → Call
  preferring : Bool → Option Bool → Call
  flushing : Option Bool → Option Bool → Call
  identifying : Call

module _ (random : ℕ → Text) (session_id : Text) where
  -- The events that a call sends, and the state that it leaves.
  unfoldable pub run_call : Call → Device → List Json × Device
  run_call (resolving consent a) d = ([], resolve_consent consent a d)
  run_call (account enabled) d = ([], apply_account_preference enabled d)
  run_call (enqueuing event) d = ([], enqueue random session_id event d)
  run_call (preferring enabled answer) d = ([], (set_preference random enabled answer d).1)
  run_call (flushing answer ingest) d = flush random answer ingest d
  run_call identifying d = ([], (installation_id random d).1)

  unfoldable pub run_calls : List Call → Device → List Json × Device
  unfolding run_call
  run_calls [] d = ([], d)
  run_calls (c ∷ cs) d =
      let (sent, d') = run_call c d in let (later, d'') = run_calls cs d' in (sent ++ later, d'')

  abbrev pub GrantsNothing : Call → Type 0
  GrantsNothing (resolving consent a) = consent ≡ false
  GrantsNothing _ = Unit

  -- No consent, and an empty queue.
  abbrev pub IsSilent : Device → Type 0
  IsSilent d = ((read_state d).consent ≡ false) × (read_queue d ≡ [])

  pub state-installation_id : (d : Device) → (installation_id random d).1.state ≡ d.state
  unfolding installation_id
  state-installation_id d = ground arith

  pub queue-installation_id : (d : Device) → (installation_id random d).1.queue ≡ d.queue
  unfolding installation_id
  queue-installation_id d = ground arith

  parse_queue-none : parse_queue none ≡ []
  unfolding parse_queue
  parse_queue-none = refl

  ruleset stored = (read_written, state-installation_id, queue-installation_id, parse_queue-none)

  resolve-IsSilent : (a : Option Bool) (d : Device) → IsSilent (resolve_consent false a d)
  unfolding resolve_consent
  resolve-IsSilent a d = (simp stored, simp stored)

  account-IsSilent :
      (enabled : Bool) (d : Device) → IsSilent d → IsSilent (apply_account_preference enabled d)
  unfolding apply_account_preference
  account-IsSilent enabled d (h, q) = rw h (simp stored, simp stored)

  prefer-IsSilent :
      (enabled : Bool) (answer : Option Bool) (d : Device)
      → IsSilent d
      → IsSilent (set_preference random enabled answer d).1
  unfolding set_preference
  prefer-IsSilent true none d (h, q) = (simp stored h, simp stored q)
  prefer-IsSilent false none d (h, q) = (simp stored h, simp stored)
  prefer-IsSilent true (some response) d (h, q) = (simp stored h, simp stored q)
  prefer-IsSilent false (some response) d (h, q) = (simp stored h, simp stored)

  -- With no consent in the state at hand nothing is sent.
  send-silent :
      (ingest : Option Bool) (s : Preference) (d : Device)
      → s.consent ≡ false
      → send_batch random ingest s d ≡ ([], d)
  unfolding send_batch
  send-silent ingest s d h = rw h

  -- What `flush` does once a preference is settled with the server.
  pub flush-idle :
      (answer ingest : Option Bool) (d : Device)
      → (read_state d).pending_preference ≡ none
      → flush random answer ingest d ≡ send_batch random ingest (read_state d) d
  unfolding flush
  flush-idle answer ingest d e = ground arith

  flush-unanswered :
      (ingest : Option Bool) (d : Device) (wanted : Bool)
      → (read_state d).pending_preference ≡ some wanted
      → flush random none ingest d ≡ ([], (installation_id random d).1)
  unfolding flush
  flush-unanswered ingest d wanted e = rw (e, flush)

  flush-answered :
      (response : Bool) (ingest : Option Bool) (d : Device) (wanted : Bool)
      → (read_state d).pending_preference ≡ some wanted
      → flush random (some response) ingest d
        ≡ send_batch random ingest
            (answered_state (read_state d) response)
            (write_state (answered_state (read_state d) response) (installation_id random d).1)
  unfolding flush
  flush-answered response ingest d wanted e = rw (e, flush)

  flush-IsSilent :
      (answer ingest : Option Bool) (d : Device)
      → IsSilent d
      → ((flush random answer ingest d).0 ≡ []) × IsSilent (flush random answer ingest d).1
  flush-IsSilent answer ingest d (h, q) = elim (Option-cases (read_state d).pending_preference) [
    | inl e ↦
        rw (flush-idle answer ingest d e, send-silent ingest (read_state d) d h) (refl, (h, q))
    | inr (wanted, e) ↦ waiting answer wanted e
  ]
    where
      waiting :
          (answer : Option Bool) (wanted : Bool)
          → (read_state d).pending_preference ≡ some wanted
          → ((flush random answer ingest d).0 ≡ []) × IsSilent (flush random answer ingest d).1
      waiting none wanted e =
          rw (flush-unanswered ingest d wanted e) (refl, (simp stored h, simp stored q))
      waiting (some response) wanted e =
          rw
            (
              flush-answered response ingest d wanted e,
              send-silent ingest (answered_state (read_state d) response) _ h,
            )
            (refl, (simp stored h, simp stored q))

  run_call-IsSilent :
      (c : Call) (d : Device)
      → GrantsNothing c
      → IsSilent d
      → ((run_call c d).0 ≡ []) × IsSilent (run_call c d).1
  unfolding run_call
  run_call-IsSilent (resolving consent a) d g h = (refl, rw g (resolve-IsSilent a d))
  run_call-IsSilent (account enabled) d g h = (refl, account-IsSilent enabled d h)
  run_call-IsSilent (enqueuing event) d g (h, q) = (refl, unfold enqueue in rw h (h, q))
  run_call-IsSilent (preferring enabled answer) d g h = (refl, prefer-IsSilent enabled answer d h)
  run_call-IsSilent (flushing answer ingest) d g h = flush-IsSilent answer ingest d h
  run_call-IsSilent identifying d g (h, q) =
      (refl, (simp state-installation_id h, simp queue-installation_id q))

  run_calls-IsSilent :
      (cs : List Call) (d : Device)
      → All GrantsNothing cs
      → IsSilent d
      → ((run_calls cs d).0 ≡ []) × IsSilent (run_calls cs d).1
  unfolding run_calls
  run_calls-IsSilent [] d g h = (refl, h)
  run_calls-IsSilent (c ∷ cs) d (p, g) h =
      let (nothing, silent) = run_call-IsSilent c d p h in
      let (later, still) = run_calls-IsSilent cs (run_call c d).1 g silent in
      (nothing_sent (run_call c d).0 _ nothing later, still)
    where
      nothing_sent : (a b : List Json) → a ≡ [] → b ≡ [] → a ++ b ≡ []
      nothing_sent a b p q = rw (p, q)

  -- From the moment that consent is refused, and until it is given, no call sends an event and the
  -- queue stays empty, whatever the calls, their order and the server's answers.
  pub no_consent-IsSilent :
      (cs : List Call) (a : Option Bool) (d : Device)
      → All GrantsNothing cs
      → ((run_calls cs (resolve_consent false a d)).0 ≡ [])
        × IsSilent (run_calls cs (resolve_consent false a d)).1
  no_consent-IsSilent cs a d g =
      run_calls-IsSilent cs (resolve_consent false a d) g (resolve-IsSilent a d)
