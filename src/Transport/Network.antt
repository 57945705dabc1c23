-- ===== src/Transport/Network.antt =====
-- `authenticatedFetch` and `refreshAccessToken` of mobile/src/api/transport.ts as steps. A step is what the
-- code runs between two `await`s, and steps of different calls interleave. Calls of
-- `authenticatedFetch` have numbers; `url` gives their addresses.
use foodler.Common.{
  ℕ, suc, ◌≡◌, Bool, not, ◌||◌, Option, none, some, List, [], ◌∷◌, ◌++◌, if◌then◌else◌, ◌==◌,
}
use foodler.Text.{Text, codes, text_eq, is_empty}
use foodler.Transport.Tokens.{Tokens, set_tokens, clear_tokens, present, RefreshReply, end_refresh}

-- Where a call of `authenticatedFetch` is: before it, awaiting the token, awaiting the response,
-- awaiting a promise, after that promise was fulfilled, awaiting the second response, and after its
-- end, with the status of the response or none where it throws.
pub data Phase : Type 0 where
  idle reading : Phase
  sent : Option Text → Phase
  waiting : ℕ → Phase
  resumed : Option Text → Phase
  retried : Text → Phase
  done : Option ℕ → Phase

-- Where a call of `refreshAccessToken` is: awaiting the token, awaiting the response, and at its end.
pub data Refreshing : Type 0 where
  reads : Refreshing
  requests : Text → Refreshing
  finished : Option Text → Refreshing

-- The requests that leave the device.
pub data Sent : Type 0 where
  first : ℕ → Option Text → Sent
  retry : ℕ → Text → Sent
  refresh : ℕ → Text → Sent

-- `promise` is `refreshPromise`: the number of the call of `refreshAccessToken` that it stands for.
-- `running` gives the calls of `refreshAccessToken` that have not ended, and `made` counts them all.
pub record Net : Type 0 where
  pub tokens : Tokens
  pub promise : Option ℕ
  pub made : ℕ
  pub running : ℕ → Option Refreshing
  pub phase : ℕ → Phase
  pub log : List Sent

abbrev pub start : Tokens → Net
start tokens = record {
  tokens = tokens;
  promise = none;
  made = 0;
  running = λ k. none;
  phase = λ i. idle;
  log = [];
}

abbrev pub update : {A : Type 0} → ℕ → A → (ℕ → A) → ℕ → A
update i x f j = if j == i then x else f j

abbrev pub set_phase : ℕ → Phase → Net → Net
set_phase i p net = record net { phase = update i p net.phase }

abbrev pub send : Sent → Net → Net
send request net = record net { log = net.log ++ request ∷ [] }

unfoldable pub ends_with : Text → Text → Bool
ends_with s [] = is_empty s
ends_with s (c ∷ t) = let rest = ends_with s t in text_eq s (c ∷ t) || rest

-- The token is read, and the request is sent with it.
unfoldable pub send_first : ℕ → Net → Net
send_first i net =
    set_phase i (sent (present net.tokens.access)) (send (first i (present net.tokens.access)) net)

-- `refreshPromise ??= refreshAccessToken()`, and the wait for it.
abbrev pub await_refresh : ℕ → Option ℕ → Net → Net
await_refresh i (some k) net = set_phase i (waiting k) net
await_refresh i none net = set_phase i (waiting net.made) (record net {
  promise = some net.made;
  made = suc net.made;
  running = update net.made (some reads) net.running;
})

-- The first response.
unfoldable pub on_response : Text → ℕ → ℕ → Net → Net
unfolding ends_with
on_response url i status net =
    if not (status == 401) || ends_with (codes "/auth/refresh") url
    then set_phase i (done (some status)) net
    else await_refresh i net.promise net

abbrev pub retry_with : ℕ → Option Text → Net → Net
retry_with i none net = set_phase i (done (some 401)) net
retry_with i (some t) net = set_phase i (retried t) (send (retry i t) net)

-- The promise is fulfilled, the call goes on.
unfoldable pub resume : ℕ → Option Text → Net → Net
resume i token net = retry_with i (present token) net

abbrev pub set_running : ℕ → Option Refreshing → Net → Net
set_running k r net = record net { running = update k r net.running }

abbrev pub refresh_with : ℕ → Option Text → Net → Net
refresh_with k none net = set_running k (some (finished none)) net
refresh_with k (some t) net = set_running k (some (requests t)) (send (refresh k t) net)

-- `getRefreshToken` of a call of `refreshAccessToken`, and the request with it.
unfoldable pub read_refresh : ℕ → Net → Net
read_refresh k net = refresh_with k (present net.tokens.refresh) net

-- The answer of the server to the refresh: the tokens are stored or cleared.
unfoldable pub on_refreshed : ℕ → RefreshReply → Net → Net
unfolding end_refresh
on_refreshed k reply net =
    set_running k (some (finished (end_refresh reply).1))
      (record net { tokens = (end_refresh reply).0 })

abbrev pub wake : ℕ → Option Text → Phase → Phase
wake k result (waiting j) = if j == k then resumed result else waiting j
wake k result p = p

-- `finally`: the variable is reset, the promise is fulfilled.
unfoldable pub settle : ℕ → Option Text → Net → Net
settle k result net = record net {
  promise = none;
  running = update k none net.running;
  phase = λ i. wake k result (net.phase i);
}

-- What can happen. Others than these calls store and clear the tokens, at any time.
pub data Step (url : ℕ → Text) (net : Net) : Net → Type 0 where
  calls : (i : ℕ) → net.phase i ≡ idle → Step url net (set_phase i reading net)
  reads_token : (i : ℕ) → net.phase i ≡ reading → Step url net (send_first i net)
  throws :
      (i : ℕ) (token : Option Text)
      → net.phase i ≡ sent token
      → Step url net (set_phase i (done none) net)
  responds :
      (i status : ℕ) (token : Option Text)
      → net.phase i ≡ sent token
      → Step url net (on_response (url i) i status net)
  resumes :
      (i : ℕ) (token : Option Text)
      → net.phase i ≡ resumed token
      → Step url net (resume i token net)
  ends :
      (i : ℕ) (token : Text) (outcome : Option ℕ)
      → net.phase i ≡ retried token
      → Step url net (set_phase i (done outcome) net)
  reads_refresh : (k : ℕ) → net.running k ≡ some reads → Step url net (read_refresh k net)
  replies :
      (k : ℕ) (token : Text) (reply : RefreshReply)
      → net.running k ≡ some (requests token)
      → Step url net (on_refreshed k reply net)
  settles :
      (k : ℕ) (result : Option Text)
      → net.running k ≡ some (finished result)
      → Step url net (settle k result net)
  stores :
      (access refresh : Text) → Step url net (record net { tokens = set_tokens access refresh })
  clears : Step url net (record net { tokens = clear_tokens })

pub data Reach (url : ℕ → Text) (net : Net) : Net → Type 0 where
  here : Reach url net net
  next : {now later : Net} → Reach url net now → Step url now later → Reach url net later
