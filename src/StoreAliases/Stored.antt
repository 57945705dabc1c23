-- ===== src/StoreAliases/Stored.antt =====
-- The stored aliases are read as they were written, and every operation keeps them in normal form.
use mathlib.Core.List.{append-nil, append_assoc}
use foodler.Common.{
  ◌≡◌, refl, sym, ap, ◌∙◌, false, ◌||◌, none, some, [], ◌∷◌, ◌++◌, All, arith, Bool-cases, inl, inr,
  if◌then◌else◌,
}
use foodler.Text.{Text, text_eq, is_empty, trim, Locale}
use foodler.Text.Trim.{trim_idem}
use foodler.Json.{Fields, Raw, string, object, end, field}
use foodler.Keys.{has_key, HasDistinctKeys, any-append, text_eq_comm}
use foodler.Category.{lookup_text}
use foodler.Storage.Database.{upsert}
use foodler.Storage.Overrides.{lookup-upsert, upsert-absent}
use foodler.Storage.Validity.Updates.{HasDistinctKeys-upsert}
use foodler.StoreAliases.{
  StoreAliases, to_fields, aliases_json, normalize_store_name, get_store_display_name,
  collect_alias, collect_aliases, parse_store_aliases, save_store_alias,
}

module _ (locale : Locale) where
  -- A key that is its own normal form, and a trimmed alias; neither is empty.
  abbrev pub IsEntry : Text × Text → Type 0
  IsEntry entry =
      (normalize_store_name locale entry.0 ≡ entry.0)
      × (trim entry.1 ≡ entry.1)
      × (is_empty entry.0 ≡ false)
      × (is_empty entry.1 ≡ false)

  abbrev pub IsNormal : StoreAliases → Type 0
  IsNormal aliases = All IsEntry aliases × HasDistinctKeys (λ (e : Text × Text). e.0) aliases

  normalize_store_name_idem :
      (name : Text)
      → normalize_store_name locale (normalize_store_name locale name)
        ≡ normalize_store_name locale name
  unfolding normalize_store_name
  normalize_store_name_idem name =
      ap locale.lower (locale.lower_trim name) ∙ locale.lower_idem (trim name)

  All-upsert :
      (key alias : Text) (aliases : StoreAliases)
      → IsEntry (key, alias)
      → All IsEntry aliases
      → All IsEntry (upsert key alias aliases)
  unfolding upsert
  All-upsert key alias [] e h = (e, tt)
  All-upsert key alias ((k, a) ∷ aliases) e (p, h) =
      let ih = All-upsert key alias aliases e h in
      elim (Bool-cases (text_eq k key)) [
        | inl same ↦ rw same ((p.0, e.1, p.2, e.3), h)
        | inr other ↦ rw other (p, ih)
      ]

  pub upsert-IsNormal :
      (key alias : Text) (aliases : StoreAliases)
      → IsEntry (key, alias)
      → IsNormal aliases
      → IsNormal (upsert key alias aliases)
  upsert-IsNormal key alias aliases e (h, d) =
      (All-upsert key alias aliases e h, HasDistinctKeys-upsert key alias aliases d)

  -- What a name and an alias become is an entry in normal form, unless one is empty.
  alias-IsEntry :
      (name alias : Text)
      → (is_empty (normalize_store_name locale name) || is_empty (trim alias)) ≡ false
      → IsEntry (normalize_store_name locale name, trim alias)
  alias-IsEntry name alias h =
      (normalize_store_name_idem name, trim_idem alias, ground arith, ground arith)

  collect_alias-IsNormal :
      (key alias : Text) (aliases : StoreAliases)
      → IsNormal aliases
      → IsNormal (collect_alias locale key alias aliases)
  collect_alias-IsNormal key alias aliases h =
      elim (Bool-cases (is_empty (trim alias) || is_empty (normalize_store_name locale key))) [
        | inl skipped ↦ rw skipped h
        | inr taken ↦ rw taken (
            upsert-IsNormal (normalize_store_name locale key) (trim alias) aliases
              (alias-IsEntry key alias (ground arith)) h)
      ]

  collect_aliases-IsNormal :
      (fields : Fields) (aliases : StoreAliases)
      → IsNormal aliases
      → IsNormal (collect_aliases locale fields aliases)
  collect_aliases-IsNormal end aliases h = h
  collect_aliases-IsNormal (field key (string alias) fields) aliases h =
      collect_aliases-IsNormal fields _ (collect_alias-IsNormal key alias aliases h)
  collect_aliases-IsNormal (field key _ fields) aliases h =
      collect_aliases-IsNormal fields aliases h

  -- Whatever is stored, the aliases that are read have distinct, normalised, non-empty keys and
  -- trimmed, non-empty aliases.
  pub parse_store_aliases-IsNormal : (raw : Raw) → IsNormal (parse_store_aliases locale raw)
  unfolding parse_store_aliases
  parse_store_aliases-IsNormal none = (tt, tt)
  parse_store_aliases-IsNormal (some none) = (tt, tt)
  parse_store_aliases-IsNormal (some (some (object fields))) =
      collect_aliases-IsNormal fields [] (tt, tt)
  parse_store_aliases-IsNormal (some (some _)) = (tt, tt)

  collect_alias-entry :
      (key alias : Text) (aliases : StoreAliases)
      → IsEntry (key, alias)
      → lookup_text key aliases ≡ none
      → collect_alias locale key alias aliases ≡ aliases ++ (key, alias) ∷ []
  collect_alias-entry key alias aliases (k, a, ke, ae) h =
      rw (k, a, ke, ae) (upsert-absent key alias aliases h)

  lookup-fresh :
      (before : StoreAliases) (key alias : Text) (after : StoreAliases)
      → HasDistinctKeys (λ (e : Text × Text). e.0) (before ++ (key, alias) ∷ after)
      → lookup_text key before ≡ none
  unfolding lookup_text
  lookup-fresh [] key alias after h = refl
  lookup-fresh ((k, a) ∷ before) key alias after (p, h) = ground (
    arith,
    lookup-fresh before key alias after h,
    any-append (has_key (λ (e : Text × Text). e.0) k) before ((key, alias) ∷ after),
    text_eq_comm k key,
    p,
  )

  collect-to_fields :
      (aliases before : StoreAliases)
      → All IsEntry aliases
      → HasDistinctKeys (λ (e : Text × Text). e.0) (before ++ aliases)
      → collect_aliases locale (to_fields aliases) before ≡ before ++ aliases
  collect-to_fields [] before h d = sym (append-nil before)
  collect-to_fields ((key, alias) ∷ aliases) before (e, h) d =
      ap (collect_aliases locale (to_fields aliases))
        (collect_alias-entry key alias before e (lookup-fresh before key alias aliases d))
      ∙ collect-to_fields aliases (before ++ (key, alias) ∷ []) h
          (rw (append_assoc before ((key, alias) ∷ []) aliases) d)
      ∙ append_assoc before ((key, alias) ∷ []) aliases

  parse-aliases_json :
      (aliases : StoreAliases)
      → IsNormal aliases
      → parse_store_aliases locale (aliases_json aliases) ≡ aliases
  unfolding parse_store_aliases
  parse-aliases_json aliases (h, d) = collect-to_fields aliases [] h d

  -- Saving an alias for a store to aliases in normal form succeeds where neither the store's
  -- normalised name nor the trimmed alias is empty. What is stored is then read as the new aliases:
  -- the store shows under the trimmed alias in every spelling of its name, every other one as before.
  pub save_store_alias_lem :
      (aliases : StoreAliases) (name alias : Text)
      → IsNormal aliases
      → (is_empty (normalize_store_name locale name) || is_empty (trim alias)) ≡ false
      → (updated : StoreAliases) × (stored : Raw) × (save_store_alias locale aliases name alias
          ≡ some (updated, stored))
        × (parse_store_aliases locale stored ≡ updated)
        × ((other : Text)
            → get_store_display_name locale other updated ≡ (
                if text_eq (normalize_store_name locale name) (normalize_store_name locale other)
                then trim alias
                else get_store_display_name locale other aliases))
  unfolding save_store_alias get_store_display_name
  save_store_alias_lem aliases name alias h e = (
    upsert (normalize_store_name locale name) (trim alias) aliases,
    aliases_json (upsert (normalize_store_name locale name) (trim alias) aliases),
    rw e,
    parse-aliases_json _ (
        upsert-IsNormal (normalize_store_name locale name) (trim alias) aliases
          (alias-IsEntry name alias e) h),
    λ other.
        rw
          (lookup-upsert (normalize_store_name locale other) (normalize_store_name locale name)
            (trim alias) aliases)
          (ground arith),
  )
