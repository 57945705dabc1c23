-- ===== src/Transport/Results.antt =====
-- `extractErrorMessage` and `unwrap` of mobile/src/api/transport.ts. A status is the literal of the
-- number; `none` is undefined, also for a body.
use foodler.Common.{Option, none, some, ◌++◌, if◌then◌else◌}
use foodler.Text.{Text, codes, text_eq}
use foodler.Json.{Json, string, lookup_field, get_field, as_string}

pub record ApiError : Type 0 where
  pub message : Text
  pub status : Option Text
  pub details : Option Json

abbrev status_message : Option Text → Text
status_message none = codes "Network request failed"
status_message (some status) =
    if text_eq status (codes "0") then codes "Network request failed" else codes "HTTP " ++ status

abbrev message_or : Option Text → Option Text → Option Text → Text
message_or (some detail) message status = detail
message_or none (some message) status = message
message_or none none status = status_message status

unfoldable pub extract_error_message : Option Json → Option Text → Text
unfolding lookup_field
extract_error_message (some (string error)) status = error
extract_error_message (some error) status =
    message_or (as_string (get_field (codes "detail") error))
      (as_string (get_field (codes "message") error)) status
extract_error_message none status = status_message status

pub data Unwrapped (A : Type 0) : Type 0 where
  returned : A → Unwrapped A
  failed : ApiError → Unwrapped A

abbrev api_error : Option Json → Option Text → ApiError
unfolding extract_error_message
api_error error status = record {
  message = extract_error_message error status;
  status = status;
  details = error;
}

module _ {A : Type 0} where
  unfoldable pub unwrap : Option A → Option Json → Option Text → Unwrapped A
  unfolding api_error
  unwrap (some result) none status = returned result
  unwrap result error status = failed (api_error error status)
