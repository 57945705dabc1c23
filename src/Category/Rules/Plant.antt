-- ===== src/Category/Rules/Plant.antt =====
-- Vegetables, fruits, grocery and sauces: the patterns of
-- mobile/src/categories/.
use foodler.Common.{[], ◌∷◌, ◌++◌}
use foodler.Text.{codes}
use foodler.Category.Regex.{anything, lit, CategoryRule}

-- categories/vegetables.ts
unfoldable pub rule_vegetables : CategoryRule
rule_vegetables = record {
  category = codes "Овощи";
  patterns =
      lit "огурц"
      ∷ lit "помид"
      ∷ lit "томат"
      ∷ lit "картоф"
      ∷ lit "морков"
      ∷ lit "лук"
      ∷ lit "капуст"
      ∷ lit "овощ"
      ∷ lit "зелень"
      ∷ lit "свекл"
      ∷ lit "редиск"
      ∷ lit "редьк"
      ∷ lit "кабач"
      ∷ lit "баклажан"
      ∷ lit "перец"
      ∷ lit "тыкв"
      ∷ lit "чеснок"
      ∷ lit "имбир"
      ∷ lit "горох"
      ∷ lit "кукуруз"
      ∷ lit "броккол"
      ∷ (lit "цветн" ++ anything ∷ (lit "капуст"))
      ∷ (lit "пекин" ++ anything ∷ (lit "капуст"))
      ∷ (lit "салат" ++ anything ∷ (lit "лист"))
      ∷ lit "шпинат"
      ∷ lit "руккол"
      ∷ lit "сельдер"
      ∷ lit "авокадо"
      ∷ lit "гриб"
      ∷ lit "шампиньон"
      ∷ lit "маслин"
      ∷ lit "оливк"
      ∷ [];
}

-- categories/fruits.ts
unfoldable pub rule_fruits : CategoryRule
rule_fruits = record {
  category = codes "Фрукты";
  patterns =
      lit "яблок"
      ∷ lit "банан"
      ∷ lit "апельс"
      ∷ lit "груш"
      ∷ lit "виноград"
      ∷ lit "фрукт"
      ∷ lit "ягод"
      ∷ lit "мандарин"
      ∷ lit "лимон"
      ∷ lit "лайм"
      ∷ lit "грейпфрут"
      ∷ lit "помел"
      ∷ lit "киви"
      ∷ lit "ананас"
      ∷ lit "манго"
      ∷ lit "персик"
      ∷ lit "нектарин"
      ∷ lit "абрикос"
      ∷ lit "слив"
      ∷ lit "вишн"
      ∷ lit "черешн"
      ∷ lit "клубник"
      ∷ lit "малин"
      ∷ lit "смородин"
      ∷ lit "ежевик"
      ∷ lit "черник"
      ∷ lit "клюкв"
      ∷ lit "брусник"
      ∷ lit "гранат"
      ∷ lit "хурм"
      ∷ lit "дын"
      ∷ lit "арбуз"
      ∷ lit "кокос"
      ∷ lit "финик"
      ∷ lit "инжир"
      ∷ lit "изюм"
      ∷ [];
}

-- categories/grocery.ts
unfoldable pub rule_grocery : CategoryRule
rule_grocery = record {
  category = codes "Бакалея";
  patterns =
      lit "круп"
      ∷ lit "рис"
      ∷ lit "греч"
      ∷ lit "макарон"
      ∷ lit "мук"
      ∷ lit "сахар"
      ∷ lit "соль"
      ∷ lit "спец"
      ∷ lit "приправа"
      ∷ lit "соус"
      ∷ lit "кетчуп"
      ∷ lit "майонез"
      ∷ lit "уксус"
      ∷ lit "горчиц"
      ∷ lit "хрен"
      ∷ (lit "томатн" ++ anything ∷ (lit "паст"))
      ∷ lit "консерв"
      ∷ lit "тушенк"
      ∷ (lit "оливков" ++ anything ∷ (lit "масл"))
      ∷ (lit "масл" ++ anything ∷ (lit "оливков"))
      ∷ (lit "подсолнечн" ++ anything ∷ (lit "масл"))
      ∷ (lit "масл" ++ anything ∷ (lit "подсолнеч"))
      ∷ (lit "растительн" ++ anything ∷ (lit "масл"))
      ∷ lit "манк"
      ∷ lit "овсян"
      ∷ (lit "пшеничн" ++ anything ∷ (lit "круп"))
      ∷ lit "перлов"
      ∷ lit "ячнев"
      ∷ lit "пшено"
      ∷ lit "кус-кус"
      ∷ lit "кускус"
      ∷ lit "лапш"
      ∷ lit "вермишел"
      ∷ lit "мук"
      ∷ lit "крахмал"
      ∷ lit "дрожж"
      ∷ lit "желатин"
      ∷ lit "мед"
      ∷ lit "мёд"
      ∷ lit "варень"
      ∷ lit "джем"
      ∷ (lit "арахис" ++ anything ∷ (lit "паст"))
      ∷ (lit "орех" ++ anything ∷ (lit "паст"))
      ∷ lit "семеч"
      ∷ [];
}

-- categories/sauces.ts
unfoldable pub rule_sauces : CategoryRule
rule_sauces = record {
  category = codes "Соусы";
  patterns = lit "кетчуп" ∷ lit "майонез" ∷ lit "горчиц" ∷ lit "соус" ∷ lit "аджик" ∷ [];
}
