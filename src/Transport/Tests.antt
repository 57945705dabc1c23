-- ===== src/Transport/Tests.antt =====
-- Runs of mobile/src/api/transport.ts: two calls that both get 401 and wait for one refresh.
use foodler.Common.{ℕ, zero, ◌≡◌, refl, if◌then◌else◌, false, none, some}
use foodler.Text.{Text, codes, text_eq}
use foodler.Json.{string, object, field, end}
use foodler.Transport.Tokens.{Tokens, RefreshReply, replied, set_tokens, end_refresh}
use foodler.Transport.Network.{
  reading, resumed, requests, Net, start, set_phase, send_first, on_response, read_refresh,
  ends_with, on_refreshed, settle, calls, reads_token, responds, reads_refresh, Reach, here, next,
}
use foodler.Transport.SingleFlight.{is_waiting, refresh-single}
use foodler.Transport.Ending.{CanEnd, HasTokensOf, call-CanEnd, on_refreshed-wakes}

abbrev address : ℕ → Text
address i = codes "/ai/history"

abbrev tokens : Tokens
tokens = set_tokens (codes "old") (codes "again")

-- Call `i` until its first response.
abbrev unauthorized : ℕ → Net → Net
unfolding send_first on_response
unauthorized i net = on_response (address i) i 401 (send_first i (set_phase i reading net))

abbrev both_wait : Net
unfolding unauthorized read_refresh
both_wait = read_refresh 0 (unauthorized 1 (unauthorized 0 (start tokens)))

both_wait-Reach : Reach address (start tokens) both_wait
unfolding unauthorized send_first on_response ends_with text_eq read_refresh both_wait
both_wait-Reach =
    next
      (next
        (next
          (next
            (next (next (next here (calls 0 refl)) (reads_token 0 refl))
              (responds 0 401 (some (codes "old")) refl))
            (calls 1 refl))
          (reads_token 1 refl))
        (responds 1 401 (some (codes "old")) refl))
      (reads_refresh 0 refl)

refresh-single_example : (zero ≡ zero) × (both_wait.promise ≡ some 0)
unfolding both_wait read_refresh unauthorized send_first on_response ends_with text_eq
refresh-single_example =
    refresh-single address tokens both_wait 0 0 (requests (codes "again"))
      (requests (codes "again")) both_wait-Reach refl refl

call-CanEnd_example : CanEnd address 1 both_wait
call-CanEnd_example = call-CanEnd address tokens both_wait 1 both_wait-Reach

abbrev renewed : RefreshReply
renewed = replied (
    some (
      object (
        field (codes "accessToken") (string (codes "new"))
          (field (codes "refreshToken") (string (codes "next")) end))))

abbrev awake : Net
unfolding both_wait on_refreshed settle
awake = settle 0 (some (codes "new")) (on_refreshed 0 renewed both_wait)

on_refreshed-wakes_example :
    Reach address both_wait awake
    × HasTokensOf renewed awake.tokens (some (codes "new"))
    × (awake.promise ≡ none)
    × ((i : ℕ)
        → awake.phase i ≡ (
            if is_waiting (both_wait.phase i)
            then resumed (some (codes "new"))
            else both_wait.phase i))
    × ((i : ℕ) → is_waiting (awake.phase i) ≡ false)
unfolding awake both_wait read_refresh unauthorized send_first on_response ends_with text_eq
    on_refreshed settle end_refresh
on_refreshed-wakes_example =
    on_refreshed-wakes address tokens both_wait 0 (codes "again") renewed both_wait-Reach refl
