-- ===== src/Transport/Tokens.antt =====
-- The tokens that mobile/src/api/transport.ts keeps in AsyncStorage, and the end of
-- `refreshAccessToken`.
use foodler.Common.{Option, none, some, if◌then◌else◌}
use foodler.Text.{Text, codes, is_empty}
use foodler.Json.{Json, lookup_field, get_field, as_string}

pub record Tokens : Type 0 where
  pub access : Option Text
  pub refresh : Option Text

abbrev pub set_tokens : Text → Text → Tokens
set_tokens access refresh = record { access = some access; refresh = some refresh }

abbrev pub clear_tokens : Tokens
clear_tokens = record { access = none; refresh = none }

-- `if (token)`: what a missing or empty token does not pass.
abbrev pub present : Option Text → Option Text
present none = none
present (some t) = if is_empty t then none else some t

-- The server's answer to a refresh: no answer, one that is not `ok`, or one with a body, `none`
-- where it is no JSON.
pub data RefreshReply : Type 0 where
  unreachable refused : RefreshReply
  replied : Option Json → RefreshReply

abbrev pub both_texts : Option Text → Option Text → Option (Text × Text)
both_texts (some a) (some r) = some (a, r)
both_texts _ _ = none

-- The tokens of a body.
unfoldable pub body_tokens : Json → Option (Text × Text)
unfolding lookup_field
body_tokens body =
    both_texts (as_string (get_field (codes "accessToken") body))
      (as_string (get_field (codes "refreshToken") body))

abbrev pub tokens_of : RefreshReply → Option (Text × Text)
tokens_of (replied (some body)) = body_tokens body
tokens_of _ = none

abbrev pub stored_or_cleared : Option (Text × Text) → Tokens × Option Text
stored_or_cleared none = (clear_tokens, none)
stored_or_cleared (some (access, refresh)) = (set_tokens access refresh, some access)

-- The tokens after the answer, and what `refreshAccessToken` returns.
unfoldable pub end_refresh : RefreshReply → Tokens × Option Text
unfolding body_tokens
end_refresh reply = stored_or_cleared (tokens_of reply)
