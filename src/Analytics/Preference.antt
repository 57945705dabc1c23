-- ===== src/Analytics/Preference.antt =====
-- The stored preference: what is written is read back, and what is read is always consistent.
use foodler.Common.{◌≡◌, refl, ◌↔◌, ◌⊎◌, inl, true, false, none, some, arith, is_some, ◌&&◌, not}
use foodler.Text.{text_eq}
use foodler.Json.{Raw}
use foodler.Analytics.Service.{Preference, parse_state, state_json}

-- Product analytics is on only with consent, and not while a change of preference waits.
abbrev pub IsSettled : Preference → Type 0
IsSettled s = (s.enabled ≡ false) ⊎ ((s.consent ≡ true) × (s.pending_preference ≡ none))

pub parse_state-IsSettled : (raw : Raw) → IsSettled (parse_state raw)
unfolding parse_state
parse_state-IsSettled none = inl refl
parse_state-IsSettled (some none) = inl refl
parse_state-IsSettled (some (some value)) = ground arith

-- Reading what was written gives it back exactly when it was consistent.
pub parse-state_json_iff :
    (s : Preference) → (parse_state (some (some (state_json s))) ≡ s) ↔ IsSettled s
unfolding parse_state state_json text_eq
parse-state_json_iff s = ground arith

-- What is read after a write, consistent or not.
pub read_written :
    (s : Preference)
    → parse_state (some (some (state_json s)))
      ≡ record s { enabled = s.consent && s.enabled && not (is_some s.pending_preference) }
unfolding parse_state state_json text_eq
read_written s = ground arith
