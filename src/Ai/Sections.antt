-- ===== src/Ai/Sections.antt =====
-- `parseServerSections` of mobile/src/ai/llmService.ts. `parse` is `JSON.parse`, `none` where it
-- throws, `stringify` is `JSON.stringify` and `show` is `String`. A section may hold further
-- sections as the text of an array, to any depth: the recursion into such texts runs on fuel.
pub mod Ends
use foodler.Common.{
  ℕ, zero, suc, ◌+◌, Bool, true, false, ◌&&◌, not, Option, none, some, List, [], ◌∷◌, ◌++◌, map,
  all, length, or_else, is_some, if◌then◌else◌,
}
use foodler.Text.{Text, codes, text_eq, is_empty, starts_with, trim}
use foodler.Json.{
  Json, Fields, number, string, array, object, elements, lookup_field, is_record, get_field,
  as_string,
}
use foodler.Ai.Types.{
  AiSection, text_section, score_section, list_section, products_section, chart_section, ChartKind,
  bar, line, Product,
}

abbrev as_number : Option Json → Option Text
as_number (some (number n)) = some n
as_number _ = none

abbrev as_array : Option Json → Option (List Json)
as_array (some (array items)) = some (elements items)
as_array _ = none

-- Those of the values that are strings.
abbrev strings_of : List Json → List Text
strings_of [] = []
strings_of (string t ∷ vs) = t ∷ strings_of vs
strings_of (_ ∷ vs) = strings_of vs

abbrev numbers_of : List Json → List Text
numbers_of [] = []
numbers_of (number n ∷ vs) = n ∷ numbers_of vs
numbers_of (_ ∷ vs) = numbers_of vs

abbrev is_string : Json → Bool
is_string v = is_some (as_string (some v))

abbrev is_number : Json → Bool
is_number v = is_some (as_number (some v))

abbrev join_comma : List Text → Text
join_comma [] = []
join_comma (t ∷ []) = t
join_comma (t ∷ u ∷ us) = t ++ codes ", " ++ join_comma (u ∷ us)

abbrev unless_empty : Text → Text → Text
unless_empty before t = if is_empty t then [] else before ++ t

unfoldable pub section_title : Json → Text
section_title section = or_else (as_string (get_field (codes "title") section)) []

-- `name: ingredients — preparation`
abbrev item_text : Json → Text → Text
item_text item name =
    name
    ++ unless_empty (codes ": ")
        (join_comma (strings_of (or_else (as_array (get_field (codes "ingredients") item)) [])))
    ++ unless_empty (codes " — ") (or_else (as_string (get_field (codes "preparation") item)) [])

module _ (stringify show : Json → Text) where
  unfoldable pub list_item_to_text : Json → Text
  unfolding elements lookup_field
  list_item_to_text (string t) = t
  list_item_to_text item =
      let name = or_else (as_string (get_field (codes "name") item)) [] in
      if not (is_record item)
      then show item
      else if is_empty name
      then stringify item
      else item_text item name

abbrev product_of : Option Text → Option Text → Option Text → List Product
product_of (some name) (some reason) price =
    record { name = name; reason = reason; price = price } ∷ []
product_of _ _ price = []

unfoldable pub products_of : List Json → List Product
unfolding lookup_field
products_of [] = []
products_of (v ∷ vs) =
    product_of (as_string (get_field (codes "name") v)) (as_string (get_field (codes "reason") v))
      (as_number (get_field (codes "price") v))
    ++ products_of vs

abbrev kind_of : Option Text → ChartKind
kind_of none = bar
kind_of (some kind) = if text_eq kind (codes "line") then line else bar

abbrev chart_if : Text → Option (List Json) → Option (List Json) → ChartKind → List AiSection
chart_if title (some labels) (some values) kind =
    if all is_string labels && all is_number values
    then chart_section title (strings_of labels) (numbers_of values) kind ∷ []
    else []
chart_if title _ _ kind = []

module _ (stringify show : Json → Text) where
  abbrev text_if : Text → Option Text → List AiSection
  text_if title none = []
  text_if title (some text) = text_section title text ∷ []

  abbrev list_if : Text → Option (List Json) → List AiSection
  list_if title none = []
  list_if title (some items) =
      list_section title (map (list_item_to_text stringify show) items) ∷ []

  abbrev score_if : Text → Option Text → Option Text → List AiSection
  score_if title none max = []
  score_if title (some value) max = score_section title value max ∷ []

  abbrev products_if : Text → Option (List Json) → List AiSection
  products_if title none = []
  products_if title (some products) = products_section title (products_of products) ∷ []

  -- A section that is not expanded, by its type; at most one section comes of it.
  unfoldable pub plain_section : Text → Json → List AiSection
  unfolding lookup_field elements section_title list_item_to_text products_of
  plain_section type section =
      let title = section_title section in
      if text_eq type (codes "text")
      then text_if title (as_string (get_field (codes "text") section))
      else if text_eq type (codes "list")
      then list_if title (as_array (get_field (codes "items") section))
      else if text_eq type (codes "score")
      then score_if title (as_number (get_field (codes "value") section))
          (as_number (get_field (codes "max") section))
      else if text_eq type (codes "products")
      then products_if title (as_array (get_field (codes "products") section))
      else if text_eq type (codes "chart")
      then chart_if title (as_array (get_field (codes "labels") section))
          (as_array (get_field (codes "values") section))
          (kind_of (as_string (get_field (codes "kind") section)))
      else []

abbrev pub section_text : Json → Text
section_text section = or_else (as_string (get_field (codes "text") section)) []

module _ (parse : Text → Option Json) where
  -- The sections that a text of type `text` holds, where it is an array.
  unfoldable pub nested_sections : Text → Json → Option (List Json)
  unfolding lookup_field elements starts_with
  nested_sections type section =
      if text_eq type (codes "text") && starts_with (codes "[") (trim (section_text section))
      then as_array (parse (section_text section))
      else none

-- What the loop makes of a section.
pub data Part : Type 0 where
  plain : List AiSection → Part
  nested : List Json → Part

abbrev pub both : Option (List AiSection) → Option (List AiSection) → Option (List AiSection)
both (some xs) (some ys) = some (xs ++ ys)
both _ _ = none

-- One more than all texts together.
abbrev pub fuel_for : List Json → ℕ
fuel_for [] = 1
fuel_for (s ∷ ss) = fuel_for ss + length (section_text s)

module _ (parse : Text → Option Json) (stringify show : Json → Text) where
  -- A section by itself, or the sections in its text.
  abbrev expanded : Text → Json → Option (List Json) → Part
  expanded type section none = plain (plain_section stringify show type section)
  expanded type section (some sections) = nested sections

  abbrev typed : Json → Option Text → Part
  typed section none = plain []
  typed section (some type) = expanded type section (nested_sections parse type section)

  unfoldable pub part_of : Json → Part
  unfolding lookup_field plain_section nested_sections
  part_of section = typed section (as_string (get_field (codes "type") section))

  -- `none` where the fuel is spent.
  unfoldable pub parse_sections : ℕ → List Json → Option (List AiSection)
  parse_sections fuel [] = some []
  parse_sections zero (s ∷ ss) = none
  parse_sections (suc fuel) (s ∷ ss) =
      let rest = parse_sections (suc fuel) ss in
      elim (part_of s) [
        | plain sections ↦ both (some sections) rest
        | nested sections ↦ both (parse_sections fuel sections) rest
      ]

  unfoldable pub parse_server_sections : List Json → Option (List AiSection)
  parse_server_sections sections = parse_sections (fuel_for sections) sections
