-- ===== src/Category/Rules/Animal.antt =====
-- Meat, sausages, fish and dairy: the patterns of
-- mobile/src/categories/.
use foodler.Common.{[], ◌∷◌, ◌++◌}
use foodler.Text.{codes}
use foodler.Category.Regex.{anything, group, lit, spaces, CategoryRule}

-- categories/dairy.ts
unfoldable pub rule_dairy : CategoryRule
rule_dairy = record {
  category = codes "Молочные продукты";
  patterns =
      lit "молок"
      ∷ lit "йогурт"
      ∷ lit "кефир"
      ∷ lit "творог"
      ∷ lit "сыр"
      ∷ (lit "масло" ++ spaces ∷ group (codes "сливоч" ∷ codes "82" ∷ []) ∷ [])
      ∷ lit "сливк"
      ∷ lit "сметан"
      ∷ lit "ряжанк"
      ∷ lit "простокваш"
      ∷ lit "бифидок"
      ∷ lit "айран"
      ∷ lit "тан"
      ∷ lit "катык"
      ∷ lit "мацун"
      ∷ lit "варенец"
      ∷ (lit "крем" ++ anything ∷ (lit "сыр"))
      ∷ lit "молочн"
      ∷ lit "кисломолоч"
      ∷ lit "брынз"
      ∷ lit "моцарелл"
      ∷ lit "пармезан"
      ∷ lit "чеддер"
      ∷ lit "маскарпон"
      ∷ lit "рикотт"
      ∷ (lit "глазированн" ++ anything ∷ (lit "сырок"))
      ∷ lit "сырок"
      ∷ (lit "пудинг" ++ anything ∷ (lit "молоч"))
      ∷ lit "лактоз"
      ∷ [];
}

-- categories/fish.ts
unfoldable pub rule_fish : CategoryRule
rule_fish = record {
  category = codes "Рыба и морепродукты";
  patterns =
      lit "рыб"
      ∷ lit "лосос"
      ∷ lit "форел"
      ∷ lit "скумбр"
      ∷ lit "кревет"
      ∷ lit "тунец"
      ∷ lit "семг"
      ∷ lit "сёмг"
      ∷ lit "горбуш"
      ∷ lit "кижуч"
      ∷ lit "палтус"
      ∷ lit "треск"
      ∷ lit "сельд"
      ∷ lit "сардин"
      ∷ lit "шпрот"
      ∷ lit "икр"
      ∷ lit "мид"
      ∷ lit "кальмар"
      ∷ lit "осьминог"
      ∷ lit "краб"
      ∷ lit "ракуш"
      ∷ lit "морепродукт"
      ∷ lit "анчоус"
      ∷ lit "минтай"
      ∷ lit "хек"
      ∷ lit "камбал"
      ∷ lit "угор"
      ∷ lit "карп"
      ∷ lit "судак"
      ∷ [];
}

-- categories/meat.ts
unfoldable pub rule_meat : CategoryRule
rule_meat = record {
  category = codes "Мясо";
  patterns =
      lit "говядин"
      ∷ lit "свинин"
      ∷ lit "куриц"
      ∷ lit "индейк"
      ∷ lit "фарш"
      ∷ lit "мяс"
      ∷ lit "бедр"
      ∷ lit "бёдр"
      ∷ lit "голен"
      ∷ lit "крылышк"
      ∷ lit "филе"
      ∷ lit "грудк"
      ∷ lit "телятина"
      ∷ lit "баранин"
      ∷ lit "кролик"
      ∷ lit "утк"
      ∷ lit "курин"
      ∷ lit "свин"
      ∷ lit "говяж"
      ∷ (lit "мясн" ++ anything ∷ (lit "полуфабрикат"))
      ∷ lit "котлет"
      ∷ lit "стейк"
      ∷ lit "антрекот"
      ∷ lit "эскалоп"
      ∷ lit "ростбиф"
      ∷ lit "гуляш"
      ∷ lit "ребр"
      ∷ lit "рульк"
      ∷ lit "язык"
      ∷ [];
}

-- categories/sausages.ts
unfoldable pub rule_sausages : CategoryRule
rule_sausages = record {
  category = codes "Колбасы";
  patterns =
      lit "колбас"
      ∷ lit "сервелат"
      ∷ lit "сосиск"
      ∷ lit "сардельк"
      ∷ lit "ветчин"
      ∷ lit "балык"
      ∷ lit "бекон"
      ∷ lit "карбонад"
      ∷ lit "грудин"
      ∷ lit "корейк"
      ∷ lit "шейк"
      ∷ lit "грудинк"
      ∷ lit "паштет"
      ∷ lit "хамон"
      ∷ lit "салями"
      ∷ lit "пепперон"
      ∷ lit "чоризо"
      ∷ lit "мортадел"
      ∷ lit "шпикач"
      ∷ lit "купат"
      ∷ (lit "нарезк" ++ anything ∷ (lit "мяс"))
      ∷ (lit "мяс" ++ anything ∷ (lit "нарезк"))
      ∷ [];
}
