-- ===== src/Transport/Ending.antt =====
-- Every call of `authenticatedFetch` that has begun can end: no refresh is forgotten.
use foodler.Common.{
  ℕ, ◌≡◌, refl, sym, ap, ◌∙◌, ◌⊎◌, inl, inr, false, Option, none, some, arith, Option-cases,
  if◌then◌else◌,
}
use foodler.Text.{Text}
use foodler.Transport.Tokens.{
  Tokens, present, RefreshReply, unreachable, set_tokens, clear_tokens, tokens_of,
  stored_or_cleared, end_refresh,
}
use foodler.Transport.Network.{
  Phase, idle, reading, sent, waiting, resumed, retried, done, Refreshing, reads, requests,
  finished, Net, start, update, set_phase, send_first, resume, retry_with, refresh_with,
  read_refresh, on_refreshed, wake, settle, Step, calls, reads_token, throws, responds, resumes,
  ends, reads_refresh, replies, settles, stores, clears, Reach, here, next,
}
use foodler.Transport.SingleFlight.{IsSingle, Reach-IsSingle, is_waiting}

module _ (url : ℕ → Text) (i : ℕ) where
  -- The steps of call `i`, and those of the refresh that it waits for.
  abbrev pub Serves : {net after : Net} → Step url net after → Type 0
  Serves (calls j e) = j ≡ i
  Serves (reads_token j e) = j ≡ i
  Serves (throws j token e) = j ≡ i
  Serves (responds j status token e) = j ≡ i
  Serves (resumes j token e) = j ≡ i
  Serves (ends j token outcome e) = j ≡ i
  Serves {net} (reads_refresh k e) = net.phase i ≡ waiting k
  Serves {net} (replies k token reply e) = net.phase i ≡ waiting k
  Serves {net} (settles k result e) = net.phase i ≡ waiting k
  Serves (stores access refresh) = ⊥
  Serves clears = ⊥

  -- A run of such steps only.
  pub data Alone (after : Net) : Net → Type 0 where
    over : Alone after after
    begins : {net now : Net} (s : Step url net now) → Serves s → Alone after now → Alone after net

  -- Such a run leads to the end of the call.
  abbrev pub CanEnd : Net → Type 0
  CanEnd net =
      (after : Net) × (Alone after net × ((outcome : Option ℕ) × (after.phase i ≡ done outcome)))

  CanEnd-first : {net now : Net} (s : Step url net now) → Serves s → CanEnd now → CanEnd net
  CanEnd-first s own (after, (r, e)) = (after, (begins s own r, e))

  own : (p : Phase) (f : ℕ → Phase) → update i p f i ≡ p
  own p f = ground arith

  ended : (net : Net) (outcome : Option ℕ) → CanEnd (set_phase i (done outcome) net)
  ended net outcome =
      (set_phase i (done outcome) net, (over, (outcome, own (done outcome) net.phase)))

  retried-CanEnd : (net : Net) (t : Text) → net.phase i ≡ retried t → CanEnd net
  retried-CanEnd net t e = CanEnd-first (ends i t none e) refl (ended net none)

  retry-CanEnd : (net : Net) (token : Option Text) → CanEnd (retry_with i token net)
  retry-CanEnd net none = ended net (some 401)
  retry-CanEnd net (some t) =
      retried-CanEnd (retry_with i (some t) net) t (own (retried t) net.phase)

  resumed-CanEnd : (net : Net) (t : Option Text) → net.phase i ≡ resumed t → CanEnd net
  unfolding resume
  resumed-CanEnd net t e = CanEnd-first (resumes i t e) refl (retry-CanEnd net (present t))

  finished-CanEnd :
      (net : Net) (k : ℕ) (result : Option Text)
      → net.phase i ≡ waiting k
      → net.running k ≡ some (finished result)
      → CanEnd net
  unfolding settle
  finished-CanEnd net k result e r =
      CanEnd-first (settles k result r) e
        (resumed-CanEnd (settle k result net) result (ap (wake k result) e ∙ ground arith))

  requests-CanEnd :
      (net : Net) (k : ℕ) (t : Text)
      → net.phase i ≡ waiting k
      → net.running k ≡ some (requests t)
      → CanEnd net
  unfolding on_refreshed
  requests-CanEnd net k t e r = CanEnd-first (replies k t unreachable r) e (
      finished-CanEnd (on_refreshed k unreachable net) k (end_refresh unreachable).1 e
        (ground arith))

  reads-CanEnd :
      (net : Net) (k : ℕ) (token : Option Text)
      → net.phase i ≡ waiting k
      → CanEnd (refresh_with k token net)
  reads-CanEnd net k none e = finished-CanEnd (refresh_with k none net) k none e (ground arith)
  reads-CanEnd net k (some t) e = requests-CanEnd (refresh_with k (some t) net) k t e (ground arith)

  running-CanEnd :
      (net : Net) (k : ℕ) (r : Refreshing)
      → net.phase i ≡ waiting k
      → net.running k ≡ some r
      → CanEnd net
  unfolding read_refresh
  running-CanEnd net k reads e r =
      CanEnd-first (reads_refresh k r) e (reads-CanEnd net k (present net.tokens.refresh) e)
  running-CanEnd net k (requests t) e r = requests-CanEnd net k t e r
  running-CanEnd net k (finished result) e r = finished-CanEnd net k result e r

  reading-CanEnd : (net : Net) → net.phase i ≡ reading → CanEnd net
  unfolding send_first
  reading-CanEnd net e =
      let token = present net.tokens.access in
      CanEnd-first (reads_token i e) refl (
        CanEnd-first (throws i token (own (sent token) net.phase)) refl
          (ended (send_first i net) none))

  phase-CanEnd : (net : Net) (p : Phase) → IsSingle net → net.phase i ≡ p → CanEnd net
  phase-CanEnd net idle h e =
      CanEnd-first (calls i e) refl
        (reading-CanEnd (set_phase i reading net) (own reading net.phase))
  phase-CanEnd net reading h e = reading-CanEnd net e
  phase-CanEnd net (sent t) h e = CanEnd-first (throws i t e) refl (ended net none)
  phase-CanEnd net (waiting k) h e =
      let (r, runs) = h.runs k (h.awaited i k e) in running-CanEnd net k r e runs
  phase-CanEnd net (resumed t) h e = resumed-CanEnd net t e
  phase-CanEnd net (retried t) h e = retried-CanEnd net t e
  phase-CanEnd net (done outcome) h e = (net, (over, (outcome, e)))

Reach-append :
    {url : ℕ → Text} {net now after : Net}
    → Reach url net now
    → Reach url now after
    → Reach url net after
Reach-append r here = r
Reach-append r (next s t) = next (Reach-append r s) t

-- From every state that calls reach, however they interleaved, each call can be brought to its end by
-- steps of its own and of the refresh that it waits for, and by no others.
pub call-CanEnd :
    (url : ℕ → Text) (tokens : Tokens) (net : Net) (i : ℕ)
    → Reach url (start tokens) net
    → CanEnd url i net
call-CanEnd url tokens net i r = phase-CanEnd url i net (net.phase i) (Reach-IsSingle r) refl

-- What an answer to the refresh does to the tokens, with the result: they are replaced where the
-- answer has both, or else both are removed.
abbrev pub HasTokensOf : RefreshReply → Tokens → Option Text → Type 0
HasTokensOf reply tokens result =
    ((tokens_of reply ≡ none) × (tokens ≡ clear_tokens) × (result ≡ none))
    ⊎ ((pair : Text × Text) × ((tokens_of reply ≡ some pair)
          × (tokens ≡ set_tokens pair.0 pair.1)
          × (result ≡ some pair.0)))

end_refresh-IsRefreshed :
    (reply : RefreshReply) → HasTokensOf reply (end_refresh reply).0 (end_refresh reply).1
unfolding end_refresh
end_refresh-IsRefreshed reply = elim (Option-cases (tokens_of reply)) [
  | inl e ↦ inl (e, ap (λ o. (stored_or_cleared o).0) e, ap (λ o. (stored_or_cleared o).1) e)
  | inr (pair, e) ↦
      inr (pair, (e, ap (λ o. (stored_or_cleared o).0) e, ap (λ o. (stored_or_cleared o).1) e))
]

not_waiting : (p : Phase) → ((j : ℕ) → p ≡ waiting j → none ≡ some j) → is_waiting p ≡ false
not_waiting (waiting j) h = absurd (cc (h j refl))
not_waiting idle h = refl
not_waiting reading h = refl
not_waiting (sent t) h = refl
not_waiting (resumed t) h = refl
not_waiting (retried t) h = refl
not_waiting (done o) h = refl

wake-resumed :
    (k : ℕ) (result : Option Text) (p : Phase)
    → ((n : ℕ) → p ≡ waiting n → some k ≡ some n)
    → wake k result p ≡ (if is_waiting p then resumed result else p)
wake-resumed k result (waiting n) h = let one = h n refl in ground (arith, one)
wake-resumed k result idle h = refl
wake-resumed k result reading h = refl
wake-resumed k result (sent t) h = refl
wake-resumed k result (resumed t) h = refl
wake-resumed k result (retried t) h = refl
wake-resumed k result (done o) h = refl

-- When the server answers a refresh, in any state that calls reach, and the refresh settles: the
-- tokens are those of the answer, or none where it has no two tokens; no refresh is promised any more;
-- every call that waited goes on with the access token of the answer, or none, the others stay where
-- they are, and no call waits. Both are steps that can happen.
pub on_refreshed-wakes :
    (url : ℕ → Text) (tokens : Tokens) (net : Net) (k : ℕ) (token : Text) (reply : RefreshReply)
    → Reach url (start tokens) net
    → net.running k ≡ some (requests token)
    → Reach url net (settle k (end_refresh reply).1 (on_refreshed k reply net))
      × HasTokensOf reply
          (settle k (end_refresh reply).1 (on_refreshed k reply net)).tokens
          (end_refresh reply).1
      × ((settle k (end_refresh reply).1 (on_refreshed k reply net)).promise ≡ none)
      × ((i : ℕ)
          → (settle k (end_refresh reply).1 (on_refreshed k reply net)).phase i
            ≡ (if is_waiting (net.phase i) then resumed (end_refresh reply).1 else net.phase i))
      × ((i : ℕ)
          → is_waiting ((settle k (end_refresh reply).1 (on_refreshed k reply net)).phase i)
            ≡ false)
unfolding on_refreshed settle
on_refreshed-wakes url tokens net k token reply r e =
    let result = (end_refresh reply).1 in
    let after : Net = settle k result (on_refreshed k reply net) in
    let steps = next (next here (replies k token reply e)) (settles k result (ground arith)) in
    let h = Reach-IsSingle r in
    let settled = Reach-IsSingle (Reach-append r steps) in
    (
      steps,
      end_refresh-IsRefreshed reply,
      refl,
      λ i.
          wake-resumed k result (net.phase i)
            (λ n f. sym (h.promised k (requests token) e) ∙ h.awaited i n f),
      λ i. not_waiting (after.phase i) (λ j f. settled.awaited i j f),
    )
