-- ===== src/Transport/SingleFlight.antt =====
-- At most one refresh of the tokens runs, and every call that waits, waits for that one.
use foodler.Common.{
  ℕ, ◌≡◌, refl, sym, ap, ◌∙◌, Bool, true, false, not, ◌||◌, Option, none, some, List, arith,
  Bool-cases, inl, inr, ◌==◌,
}
use foodler.Text.{Text, codes}
use foodler.Transport.Tokens.{Tokens, present, RefreshReply, end_refresh}
use foodler.Transport.Network.{
  Phase, idle, reading, sent, waiting, resumed, retried, done, Refreshing, reads, requests,
  finished, Net, start, set_phase, send_first, await_refresh, on_response, resume, retry_with,
  refresh_with, set_running, read_refresh, on_refreshed, wake, settle, ends_with, Step, calls,
  reads_token, throws, responds, resumes, ends, reads_refresh, replies, settles, stores, clears,
  Reach, here, next,
}

-- A refresh that runs is the one of `refreshPromise`, which is set only while its refresh runs; a
-- call waits for no other.
pub record IsSingle (net : Net) : Type 0 where
  pub promised : (k : ℕ) (r : Refreshing) → net.running k ≡ some r → net.promise ≡ some k
  pub runs : (k : ℕ) → net.promise ≡ some k → (r : Refreshing) × (net.running k ≡ some r)
  pub awaited : (i k : ℕ) → net.phase i ≡ waiting k → net.promise ≡ some k

start-IsSingle : (tokens : Tokens) → IsSingle (start tokens)
start-IsSingle tokens = record {
  promised = λ k r h. absurd cc;
  runs = λ k h. absurd cc;
  awaited = λ i k h. absurd cc;
}

abbrev pub is_waiting : Phase → Bool
is_waiting (waiting k) = true
is_waiting _ = false

-- A call goes on to a phase in which it does not wait.
set_phase-IsSingle :
    (i : ℕ) (p : Phase) (net : Net)
    → is_waiting p ≡ false
    → IsSingle net
    → IsSingle (set_phase i p net)
set_phase-IsSingle i p net q h = record {
  promised = h.promised;
  runs = h.runs;
  awaited = λ j k e. elim (Bool-cases (j == i)) [
    | inl same ↦ absurd (cc (ap is_waiting (rw same at e)))
    | inr other ↦ h.awaited j k (rw other at e)
  ];
}

abbrev waited : Phase → Option ℕ
waited (waiting k) = some k
waited _ = none

pub eq_iff-same : (i j : ℕ) → (i == j) ≡ true → i ≡ j
eq_iff-same i j h = ground arith

-- No call waits for a promise that is fulfilled.
wake-awaited :
    (k : ℕ) (result : Option Text) (p : Phase) (m : ℕ)
    → ((n : ℕ) → p ≡ waiting n → some k ≡ some n)
    → wake k result p ≡ waiting m
    → none ≡ some m
wake-awaited k result (waiting n) m h e = elim (Bool-cases (n == k)) [
  | inl same ↦ absurd (cc (ap is_waiting (rw same at e)))
  | inr other ↦ let one = h n refl in absurd (ground (arith, one))
]
wake-awaited k result idle m h e = absurd (cc)
wake-awaited k result reading m h e = absurd (cc)
wake-awaited k result (sent t) m h e = absurd (cc)
wake-awaited k result (resumed t) m h e = absurd (cc)
wake-awaited k result (retried t) m h e = absurd (cc)
wake-awaited k result (done o) m h e = absurd (cc)

module _ (net : Net) (h : IsSingle net) where
  send-IsSingle :
      (tokens : Tokens) (log : List _) → IsSingle (record net { tokens = tokens; log = log })
  send-IsSingle tokens log = record { promised = h.promised; runs = h.runs; awaited = h.awaited }

  join-IsSingle : (i k : ℕ) → net.promise ≡ some k → IsSingle (set_phase i (waiting k) net)
  join-IsSingle i k p = record {
    promised = h.promised;
    runs = h.runs;
    awaited = λ j m e. elim (Bool-cases (j == i)) [
      | inl same ↦ p ∙ ap waited (rw same at e)
      | inr other ↦ h.awaited j m (rw other at e)
    ];
  }

  begin-IsSingle : (i : ℕ) → net.promise ≡ none → IsSingle (await_refresh i none net)
  begin-IsSingle i free = record {
    promised = λ k r e. elim (Bool-cases (k == net.made)) [
      | inl same ↦ ap some (sym (eq_iff-same k net.made same))
      | inr other ↦ absurd (cc (sym free ∙ h.promised k r (rw other at e)))
    ];
    runs = λ k e. (reads, ground arith);
    awaited = λ j m e. elim (Bool-cases (j == i)) [
      | inl same ↦ ap waited (rw same at e)
      | inr other ↦ absurd (cc (sym free ∙ h.awaited j m (rw other at e)))
    ];
  }

  run-IsSingle :
      (k : ℕ) (old r : Refreshing)
      → net.running k ≡ some old
      → IsSingle (set_running k (some r) net)
  run-IsSingle k old r e = record {
    promised = λ j s f. elim (Bool-cases (j == k)) [
      | inl same ↦ h.promised k old e ∙ ap some (sym (eq_iff-same j k same))
      | inr other ↦ h.promised j s (rw other at f)
    ];
    runs = λ j f. elim (Bool-cases (j == k)) [
      | inl same ↦ (r, rw same refl)
      | inr other ↦ rw other (h.runs j f)
    ];
    awaited = h.awaited;
  }

  settle-IsSingle :
      (k : ℕ) (r : Refreshing) (result : Option Text)
      → net.running k ≡ some r
      → IsSingle (settle k result net)
  unfolding settle
  settle-IsSingle k r result e = record {
    promised = λ j s f. elim (Bool-cases (j == k)) [
      | inl same ↦ absurd (cc (rw same at f))
      | inr other ↦
          let one = sym (h.promised k r e) ∙ h.promised j s (rw other at f) in ground (arith, one)
    ];
    runs = λ j f. absurd cc;
    awaited = λ j m f.
        wake-awaited k result (net.phase j) m (λ n q. sym (h.promised k r e) ∙ h.awaited j n q) f;
  }

  await-IsSingle : (i : ℕ) (set : Option ℕ) → net.promise ≡ set → IsSingle (await_refresh i set net)
  await-IsSingle i none free = begin-IsSingle i free
  await-IsSingle i (some k) set = join-IsSingle i k set

  response-IsSingle : (url : Text) (i status : ℕ) → IsSingle (on_response url i status net)
  unfolding on_response
  response-IsSingle url i status =
      elim (Bool-cases (not (status == 401) || ends_with (codes "/auth/refresh") url)) [
        | inl over ↦ rw over (set_phase-IsSingle i (done (some status)) net refl h)
        | inr goes ↦ rw goes (await-IsSingle i net.promise refl)
      ]

  retry-IsSingle : (i : ℕ) (token : Option Text) → IsSingle (retry_with i token net)
  retry-IsSingle i none = set_phase-IsSingle i (done (some 401)) net refl h
  retry-IsSingle i (some t) = set_phase-IsSingle i (retried t) _ refl (send-IsSingle net.tokens _)

  refresh-IsSingle :
      (k : ℕ) (token : Option Text)
      → net.running k ≡ some reads
      → IsSingle (refresh_with k token net)
  refresh-IsSingle k none e = run-IsSingle k reads (finished none) e
  refresh-IsSingle k (some t) e =
      let ran = run-IsSingle k reads (requests t) e in
      record { promised = ran.promised; runs = ran.runs; awaited = ran.awaited }

  refreshed-IsSingle :
      (k : ℕ) (token : Text) (reply : RefreshReply)
      → net.running k ≡ some (requests token)
      → IsSingle (on_refreshed k reply net)
  unfolding on_refreshed
  refreshed-IsSingle k token reply e =
      let ran = run-IsSingle k (requests token) (finished (end_refresh reply).1) e in
      record { promised = ran.promised; runs = ran.runs; awaited = ran.awaited }

-- Every step keeps a single refresh.
Step-IsSingle :
    {url : ℕ → Text} {net after : Net} → Step url net after → IsSingle net → IsSingle after
unfolding send_first resume read_refresh
Step-IsSingle {net = net} (calls i e) h = set_phase-IsSingle i reading net refl h
Step-IsSingle {net = net} (reads_token i e) h =
    set_phase-IsSingle i (sent (present net.tokens.access)) _ refl
      (send-IsSingle net h net.tokens _)
Step-IsSingle {net = net} (throws i t e) h = set_phase-IsSingle i (done none) net refl h
Step-IsSingle {url = url} {net = net} (responds i status t e) h =
    response-IsSingle net h (url i) i status
Step-IsSingle {net = net} (resumes i t e) h = retry-IsSingle net h i (present t)
Step-IsSingle {net = net} (ends i t outcome e) h = set_phase-IsSingle i (done outcome) net refl h
Step-IsSingle {net = net} (reads_refresh k e) h =
    refresh-IsSingle net h k (present net.tokens.refresh) e
Step-IsSingle {net = net} (replies k t reply e) h = refreshed-IsSingle net h k t reply e
Step-IsSingle {net = net} (settles k result e) h =
    settle-IsSingle net h k (finished result) result e
Step-IsSingle {net = net} (stores a r) h = send-IsSingle net h _ net.log
Step-IsSingle {net = net} clears h = send-IsSingle net h _ net.log

pub Reach-IsSingle :
    {url : ℕ → Text} {tokens : Tokens} {net : Net} → Reach url (start tokens) net → IsSingle net
Reach-IsSingle {tokens = tokens} here = start-IsSingle tokens
Reach-IsSingle (next r s) = Step-IsSingle s (Reach-IsSingle r)

-- However calls interleave, with one another and with the storing and clearing of tokens: two
-- refreshes that run are the same one, and it is the one of `refreshPromise`.
pub refresh-single :
    (url : ℕ → Text) (tokens : Tokens) (net : Net) (j k : ℕ) (q r : Refreshing)
    → Reach url (start tokens) net
    → net.running j ≡ some q
    → net.running k ≡ some r
    → (j ≡ k) × (net.promise ≡ some k)
refresh-single url tokens net j k q r reach e f =
    let h = Reach-IsSingle reach in
    let one = sym (h.promised j q e) ∙ h.promised k r f in (ground (arith, one), h.promised k r f)
