-- ===== src/StoreAliases/Tests.antt =====
-- Runs of mobile/src/storeAliases.ts: an alias for a store whose name is spelled in several ways.
use foodler.Common.{◌≡◌, refl, false, some, if◌then◌else◌, ◌||◌}
use foodler.Text.{Text, codes, text_eq, is_empty, trim, drop_spaces, is_space, lower_unit}
use foodler.Text.Russian.{russian}
use foodler.Json.{Raw, object, field, end, string, null}
use foodler.StoreAliases.{
  StoreAliases, normalize_store_name, get_store_display_name, parse_store_aliases, save_store_alias,
}
use foodler.StoreAliases.Stored.{IsNormal, parse_store_aliases-IsNormal, save_store_alias_lem}

-- Two spellings of one key, an empty alias, and a value that is no string.
abbrev untidy : Raw
untidy = some (
    some (
      object (
        field (codes " ООО Ромашка") (string (codes "Цветы ")) (
          field (codes "ооо ромашка") (string (codes "Ромашка"))
            (field (codes "Лента") (string (codes " ")) (field (codes "Дикси") null end))))))

abbrev read : StoreAliases
read = parse_store_aliases russian untidy

not_empty :
    (is_empty (normalize_store_name russian (codes " Лента ")) || is_empty (trim (codes "У дома")))
    ≡ false
unfolding normalize_store_name trim drop_spaces is_space lower_unit
not_empty = refl

parse_store_aliases-IsNormal_example : IsNormal russian (parse_store_aliases russian untidy)
parse_store_aliases-IsNormal_example = parse_store_aliases-IsNormal russian untidy

save_store_alias_lem_example :
    (updated : StoreAliases) × (stored : Raw) × (save_store_alias russian read
        (codes " Лента ")
        (codes "У дома")
      ≡ some (updated, stored))
    × (parse_store_aliases russian stored ≡ updated)
    × ((other : Text)
        → get_store_display_name russian other updated ≡ (
            if text_eq
              (normalize_store_name russian (codes " Лента "))
              (normalize_store_name russian other)
            then trim (codes "У дома")
            else get_store_display_name russian other read))
save_store_alias_lem_example =
    save_store_alias_lem russian read (codes " Лента ") (codes "У дома")
      (parse_store_aliases-IsNormal russian untidy) not_empty
