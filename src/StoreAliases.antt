-- ===== src/StoreAliases.antt =====
-- mobile/src/storeAliases.ts: names that the user gives to stores. The aliases are the object's own
-- keys and values, in their order, and `Raw` is the stored text.
pub mod Stored
mod Tests
use foodler.Common.{
  Bool, true, false, ◌||◌, not, Option, none, some, List, [], ◌∷◌, select, or_else, is_some,
  if◌then◌else◌,
}
use foodler.Text.{Text, text_eq, is_empty, trim, Locale}
use foodler.Json.{Json, Fields, string, object, end, field, Raw}
use foodler.Category.{lookup_text}
use foodler.Storage.Database.{upsert}

abbrev pub StoreAliases : Type 0
StoreAliases = List (Text × Text)

-- `JSON.stringify(aliases)`
abbrev pub to_fields : StoreAliases → Fields
to_fields [] = end
to_fields ((key, alias) ∷ aliases) = field key (string alias) (to_fields aliases)

abbrev pub aliases_json : StoreAliases → Raw
aliases_json aliases = some (some (object (to_fields aliases)))

module _ (locale : Locale) where
  unfoldable pub normalize_store_name : Text → Text
  normalize_store_name name = locale.lower (trim name)

  unfoldable pub get_store_display_name : Text → StoreAliases → Text
  unfolding lookup_text
  get_store_display_name name aliases =
      or_else (lookup_text (normalize_store_name name) aliases) name

  -- One entry of the stored object.
  abbrev pub collect_alias : Text → Text → StoreAliases → StoreAliases
  collect_alias key alias aliases =
      if is_empty (trim alias) || is_empty (normalize_store_name key)
      then aliases
      else upsert (normalize_store_name key) (trim alias) aliases

  abbrev pub collect_aliases : Fields → StoreAliases → StoreAliases
  collect_aliases end aliases = aliases
  collect_aliases (field key (string alias) fields) aliases =
      collect_aliases fields (collect_alias key alias aliases)
  collect_aliases (field key _ fields) aliases = collect_aliases fields aliases

  abbrev aliases_of : Json → StoreAliases
  aliases_of (object fields) = collect_aliases fields []
  aliases_of _ = []

  unfoldable pub parse_store_aliases : Raw → StoreAliases
  unfolding upsert normalize_store_name
  parse_store_aliases none = []
  parse_store_aliases (some none) = []
  parse_store_aliases (some (some value)) = aliases_of value

  -- The new aliases, and what is stored; `none` is the error that the function throws.
  unfoldable pub save_store_alias : StoreAliases → Text → Text → Option (StoreAliases × Raw)
  save_store_alias aliases store_name alias =
      let updated = upsert (normalize_store_name store_name) (trim alias) aliases in
      if is_empty (normalize_store_name store_name) || is_empty (trim alias)
      then none
      else some (updated, aliases_json updated)

  -- The last argument is what is stored before.
  unfoldable pub remove_store_alias : StoreAliases → Text → Raw → StoreAliases × Raw
  remove_store_alias aliases store_name stored =
      let key = normalize_store_name store_name in
      let updated = select (λ entry. not (text_eq entry.0 key)) aliases in
      if is_empty key || not (is_some (lookup_text key aliases))
      then (aliases, stored)
      else (updated, aliases_json updated)
