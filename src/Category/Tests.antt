-- ===== src/Category/Tests.antt =====
-- Runs of the category functions: the cases of mobile/src/__tests__/category.test.ts, and the
-- theorems at concrete inputs.
use foodler.Common.{◌≡◌, refl, none, some, any, true, ◌∷◌}
use foodler.Text.{codes, text_eq}
use foodler.Text.Russian.{russian}
use foodler.Category.{
  fallback_category, built_in_categories, normalize_category, normalize_server_category,
}
use foodler.Category.Detect.{detect_category}
use foodler.Category.Normal.{detect_category-offered}
use foodler.Text.{trim, lower_unit, is_space}
use foodler.Category.{label_of}

normal : Unit {0}
unfolding normalize_category normalize_server_category label_of trim is_space lower_unit text_eq
normal = tt

detected : Unit {0}
unfolding detect_category lower_unit is_space
detected = tt

detect_tests :
    (detect_category russian (codes "неизвестный товар") ≡ fallback_category)
    × (detect_category russian (codes "Шоколад молочный") ≡ codes "Сладости")
    × (detect_category russian (codes "Печенье овсяное") ≡ codes "Кондитерские изделия")
    × (detect_category russian (codes "ЧЕРЕШНЯ 1кг") ≡ codes "Фрукты")
    × (detect_category russian (codes "KITEKAT Корм д/кош желе курица 85г") ≡ fallback_category)
    × (detect_category russian (codes "МАГНИТ Салфетки бум 2сл 50шт") ≡ codes "Бытовая химия")
    × (detect_category russian (codes "Сыр Пармезан Гранд 45%") ≡ codes "Молочные продукты")
    × (detect_category russian (codes "Крупа гречневая ядрица") ≡ codes "Бакалея")
unfolding detected
detect_tests = (refl, refl, refl, refl, refl, refl, refl, refl)

bean : detect_category russian (codes "Фасоль продовольственная 500г") ≡ codes "Бакалея"
unfolding detected
bean = refl

normalize_tests :
    (normalize_category russian (some (codes "Прочее")) ≡ fallback_category)
    × (normalize_category russian none ≡ fallback_category)
    × (normalize_category russian (some (codes "МОЛОЧНЫЕ ПРОДУКТЫ")) ≡ codes "Молочные продукты")
    × (normalize_server_category russian (some (codes "unknown")) ≡ none)
    × (normalize_server_category russian (some (codes " ФРУКТЫ")) ≡ some (codes "Фрукты"))
unfolding normal
normalize_tests = (refl, refl, refl, refl, refl)

detect_category-offered_example :
    any
      (text_eq (normalize_category russian (some (detect_category russian (codes "Губка")))))
      (fallback_category ∷ built_in_categories)
    ≡ true
detect_category-offered_example = detect_category-offered russian (codes "Губка")
