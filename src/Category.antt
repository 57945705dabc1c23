-- ===== src/Category.antt =====
-- mobile/src/category.ts: the labels of categories, `normalizeCategory` and
-- `normalizeServerCategory`. The detection by rules is in the files below.
-- A label is looked up among the table's own keys; the names that every JavaScript object inherits
-- (`constructor`, `__proto__`) are no keys here.
pub mod Regex
pub mod Rules
pub mod Detect
pub mod Normal
mod Tests
use foodler.Common.{
  ◌≡◌, Bool, true, false, ◌&&◌, Option, none, some, List, [], ◌∷◌, or_else, if◌then◌else◌,
}
use foodler.Text.{Text, codes, text_eq, is_empty, trim, Locale}

abbrev pub fallback_category : Text
fallback_category = codes "прочее"

unfoldable pub category_labels : List (Text × Text)
category_labels =
    (codes "алкоголь", codes "Алкоголь")
    ∷ (codes "бакалея", codes "Бакалея")
    ∷ (codes "бытовые товары", codes "Бытовые товары")
    ∷ (codes "бытовая химия", codes "Бытовые товары")
    ∷ (codes "готовая еда", codes "Готовая еда")
    ∷ (codes "заморозка", codes "Замороженные продукты")
    ∷ (codes "замороженные продукты", codes "Замороженные продукты")
    ∷ (codes "кондитерские", codes "Кондитерские изделия")
    ∷ (codes "кондитерские изделия", codes "Кондитерские изделия")
    ∷ (codes "колбасы", codes "Колбасы")
    ∷ (codes "молочные", codes "Молочные продукты")
    ∷ (codes "молочные продукты", codes "Молочные продукты")
    ∷ (codes "молоченые", codes "Молочные продукты")
    ∷ (codes "мясо", codes "Мясо")
    ∷ (codes "напитки", codes "Напитки")
    ∷ (codes "овощи", codes "Овощи")
    ∷ (codes "прочее", fallback_category)
    ∷ (codes "рыба", codes "Рыба и морепродукты")
    ∷ (codes "рыба и морепродукты", codes "Рыба и морепродукты")
    ∷ (codes "сладости", codes "Сладости")
    ∷ (codes "соусы", codes "Соусы")
    ∷ (codes "снеки", codes "Снеки")
    ∷ (codes "фрукты", codes "Фрукты")
    ∷ (codes "хлеб", codes "Хлеб и выпечка")
    ∷ (codes "хлеб и выпечка", codes "Хлеб и выпечка")
    ∷ (codes "яйца", codes "Яйца")
    ∷ []

unfoldable pub built_in_categories : List Text
built_in_categories =
    codes "Алкоголь"
    ∷ codes "Бакалея"
    ∷ codes "Бытовые товары"
    ∷ codes "Готовая еда"
    ∷ codes "Замороженные продукты"
    ∷ codes "Кондитерские изделия"
    ∷ codes "Колбасы"
    ∷ codes "Молочные продукты"
    ∷ codes "Мясо"
    ∷ codes "Напитки"
    ∷ codes "Овощи"
    ∷ codes "Рыба и морепродукты"
    ∷ codes "Сладости"
    ∷ codes "Соусы"
    ∷ codes "Снеки"
    ∷ codes "Фрукты"
    ∷ codes "Хлеб и выпечка"
    ∷ codes "Яйца"
    ∷ []

-- `table[key]`
unfoldable pub lookup_text : Text → List (Text × Text) → Option Text
lookup_text key [] = none
lookup_text key ((k, v) ∷ table) = if text_eq k key then some v else lookup_text key table

-- The label of a trimmed, lowercased name.
unfoldable pub label_of : Text → Text
unfolding lookup_text category_labels
label_of normalized =
    if is_empty normalized
    then fallback_category
    else or_else (lookup_text normalized category_labels) normalized

module _ (locale : Locale) where
  unfoldable pub normalize_category : Option Text → Text
  normalize_category none = fallback_category
  normalize_category (some category) = label_of (locale.lower (trim category))

  unfoldable pub normalize_server_category : Option Text → Option Text
  normalize_server_category none = none
  normalize_server_category (some category) =
      if is_empty category then none else lookup_text (locale.lower (trim category)) category_labels
