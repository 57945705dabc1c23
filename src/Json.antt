-- ===== src/Json.antt =====
-- JSON values, as `JSON.parse` gives them, and the tests that the code makes on a value of unknown
-- type. A number is kept as its literal. A string that is read from the device is `none` where nothing (or an empty string) is
-- stored, `some none` where `JSON.parse` throws, and `some (some value)` otherwise; what
-- `JSON.stringify` wrote is parsed to the same value.
use foodler.Common.{Bool, true, false, Option, none, some, List, [], ◌∷◌, if◌then◌else◌}
use foodler.Text.{Text, text_eq}

mutual
  pub data Json : Type 0 where
    null : Json
    boolean : Bool → Json
    number : Text → Json
    string : Text → Json
    array : Items → Json
    object : Fields → Json

  pub data Items : Type 0 where
    nil : Items
    cons : Json → Items → Items

  pub data Fields : Type 0 where
    end : Fields
    field : Text → Json → Fields → Fields

abbrev pub Raw : Type 0
Raw = Option (Option Json)

-- The elements of an array.
unfoldable pub elements : Items → List Json
elements nil = []
elements (cons v items) = v ∷ elements items

unfoldable pub to_items : List Json → Items
to_items [] = nil
to_items (v ∷ vs) = cons v (to_items vs)

-- `value.key`, where `none` is undefined.
unfoldable pub lookup_field : Text → Fields → Option Json
lookup_field key end = none
lookup_field key (field k v fields) = if text_eq k key then some v else lookup_field key fields

-- `typeof value === "object" && value !== null`: an array is one too.
abbrev pub is_record : Json → Bool
is_record (array items) = true
is_record (object fields) = true
is_record _ = false

abbrev pub get_field : Text → Json → Option Json
get_field key (object fields) = lookup_field key fields
get_field key _ = none

abbrev pub as_boolean : Option Json → Option Bool
as_boolean (some (boolean b)) = some b
as_boolean _ = none

abbrev pub as_string : Option Json → Option Text
as_string (some (string t)) = some t
as_string _ = none
