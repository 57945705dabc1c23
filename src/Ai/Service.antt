-- ===== src/Ai/Service.antt =====
-- `generateAiResponse` of mobile/src/ai/llmService.ts: the parameters of the request, the result of
-- its answer, and the kind of error that it throws. `lower` is `toLowerCase`, `fresh` the made-up
-- identifier, and `at_least_500` compares the literal of a number.
use foodler.Common.{
  Bool, false, ◌||◌, Option, none, some, List, [], ◌∷◌, map, or_else, if◌then◌else◌,
}
use foodler.Text.{Text, codes, text_eq, is_empty, starts_with}
use foodler.Json.{Json, null, number, lookup_field, get_field, as_string}
use foodler.Ai.Types.{AiActionType, AiResult, AiSection, action_to_server, action_label}
use foodler.Ai.Sections.{parse_server_sections}
use foodler.Sync.Ids.{Answer, answered, thrown}
use foodler.Profile.{FamilyMember, UserProfile}
use foodler.Profile.Nutrition.{ApiMember, family_member_to_api_member, build_profile_context}

-- `text.includes(part)`
unfoldable pub includes : Text → Text → Bool
unfolding starts_with
includes part [] = is_empty part
includes part (c ∷ t) = let rest = includes part t in starts_with part (c ∷ t) || rest

pub record PurchaseContext : Type 0 where
  pub period_from : Option Text
  pub period_to : Option Text
  pub members : List FamilyMember

pub record Parameters : Type 0 where
  pub period_from : Option Text
  pub period_to : Option Text
  pub members : List ApiMember
  pub profile_context : Text

-- A value that is missing or empty is left out.
abbrev present : Option Text → Option Text
present none = none
present (some t) = if is_empty t then none else some t

-- Members that are none are left out, as an empty list.
unfoldable pub request_parameters : PurchaseContext → UserProfile → Parameters
unfolding family_member_to_api_member build_profile_context
request_parameters context profile = record {
  period_from = present context.period_from;
  period_to = present context.period_to;
  members = map family_member_to_api_member context.members;
  profile_context = build_profile_context profile;
}

pub data AiErrorKind : Type 0 where
  network server rate_limit unknown : AiErrorKind

-- The literal of a number, also of the first of three fields that is there.
abbrev or_nullish : Option Json → Option Json → Option Json
or_nullish none b = b
or_nullish (some null) b = b
or_nullish a b = a

abbrev as_number : Option Json → Option Text
as_number (some (number n)) = some n
as_number _ = none

pub record ErrorDetails : Type 0 where
  pub message : Text
  pub status : Option Text

module _ (lower : Text → Text) where
  unfoldable pub get_error_details : Json → ErrorDetails
  unfolding lookup_field
  get_error_details error = record {
    message = or_else (map_lower (as_string (get_field (codes "message") error))) [];
    status = as_number (
        or_nullish
          (or_nullish (get_field (codes "status") error) (get_field (codes "statusCode") error))
          (get_field (codes "code") error));
  }
    where
      map_lower : Option Text → Option Text
      map_lower none = none
      map_lower (some t) = some (lower t)

abbrev is_status : Text → Option Text → Bool
is_status status none = false
is_status status (some s) = text_eq s status

module _ (at_least_500 : Text → Bool) where
  abbrev is_server_status : Option Text → Bool
  is_server_status none = false
  is_server_status (some s) = at_least_500 s

  unfoldable pub error_kind : ErrorDetails → AiErrorKind
  unfolding includes
  error_kind details =
      if includes (codes "network") details.message || includes (codes "fetch") details.message
      then network
      else if includes (codes "429") details.message || is_status (codes "429") details.status
      then rate_limit
      else if includes (codes "server") details.message
          || includes (codes "502") details.message
          || includes (codes "503") details.message
          || includes (codes "504") details.message
          || is_server_status details.status
          || is_status (codes "401") details.status
      then server
      else unknown

unfoldable pub user_message : AiErrorKind → Text
user_message network = codes "Проблема с интернетом. Проверьте подключение и попробуйте снова."
user_message server = codes "Сервер сейчас недоступен. Попробуйте позже."
user_message rate_limit = codes "Закончились действия. Подождите или оформите подписку."
user_message unknown = codes "Что-то пошло не так. Попробуйте ещё раз."

-- The server's answer to `runAiAction`; `none` where the field is undefined or null.
pub record AiAnswer : Type 0 where
  pub id : Option Text
  pub sections : Option (List Json)

pub data AiOutcome : Type 0 where
  generated : AiResult → AiOutcome
  refused : AiErrorKind → Text → AiOutcome

module _ (lower : Text → Text) (at_least_500 : Text → Bool) (parse : Text → Option Json)
    (stringify show : Json → Text) (fresh : Text) where
  abbrev result_if : AiActionType → AiAnswer → Option (List AiSection) → Option AiOutcome
  unfolding action_label
  result_if action answer none = none
  result_if action answer (some sections) = some (
      generated (record {
        id = or_else (present answer.id) fresh;
        action = action;
        title = action_label action;
        summary = [];
        sections = sections;
      }))

  -- `none` where the fuel for the sections is spent.
  unfoldable pub generate_ai_response :
      (Text → Parameters → Answer AiAnswer)
      → UserProfile
      → AiActionType
      → PurchaseContext
      → Option AiOutcome
  unfolding result_if request_parameters action_to_server get_error_details error_kind user_message
  generate_ai_response run profile action context =
      elim (run (action_to_server action) (request_parameters context profile)) [
        | answered answer ↦
            result_if action answer
              (parse_server_sections parse stringify show (or_else answer.sections []))
        | thrown error ↦
            let kind = error_kind at_least_500 (get_error_details lower error) in
            some (refused kind (user_message kind))
      ]
