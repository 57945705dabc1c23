-- ===== src/Category/Rules/Other.antt =====
-- Alcohol, drinks, frozen food, household goods and pets: the patterns of
-- mobile/src/categories/.
use foodler.Common.{[], ◌∷◌, ◌++◌}
use foodler.Text.{codes}
use foodler.Category.Regex.{anything, lit, one_of, spaces, word_units, CategoryRule}

-- categories/alcohol.ts
unfoldable pub rule_alcohol : CategoryRule
rule_alcohol = record {
  category = codes "Алкоголь";
  patterns =
      lit "пиво"
      ∷ (lit "вин" ++ one_of (codes "оа") ∷ [])
      ∷ lit "водк"
      ∷ lit "виски"
      ∷ lit "коньяк"
      ∷ lit "сидр"
      ∷ lit "шампан"
      ∷ [];
}

-- categories/drinks.ts
unfoldable pub rule_drinks : CategoryRule
rule_drinks = record {
  category = codes "Напитки";
  patterns =
      lit "вода"
      ∷ lit "сок"
      ∷ lit "морс"
      ∷ lit "чай"
      ∷ lit "кофе"
      ∷ lit "лимонад"
      ∷ lit "газиров"
      ∷ lit "напит"
      ∷ lit "компот"
      ∷ lit "нектар"
      ∷ lit "квас"
      ∷ lit "энергетик"
      ∷ lit "тоник"
      ∷ lit "кола"
      ∷ lit "спрайт"
      ∷ lit "фанта"
      ∷ lit "пепси"
      ∷ lit "тархун"
      ∷ lit "смузи"
      ∷ lit "какао"
      ∷ lit "капучин"
      ∷ lit "латт"
      ∷ lit "эспрессо"
      ∷ lit "раф"
      ∷ lit "матч"
      ∷ lit "каркад"
      ∷ lit "улун"
      ∷ lit "пуэр"
      ∷ lit "минерал"
      ∷ lit "питьев"
      ∷ lit "безалког"
      ∷ (lit "виноградн" ++ anything ∷ (lit "напит"))
      ∷ [];
}

-- categories/frozen.ts
unfoldable pub rule_frozen : CategoryRule
rule_frozen = record {
  category = codes "Замороженные продукты";
  patterns =
      lit "заморож"
      ∷ lit "пельмен"
      ∷ lit "вареник"
      ∷ lit "морожен"
      ∷ lit "фри"
      ∷ lit "наггетс"
      ∷ (lit "блин" ++ anything ∷ (lit "заморож"))
      ∷ lit "блинчик"
      ∷ (lit "смесь" ++ anything ∷ (lit "овощ"))
      ∷ (lit "овощн" ++ anything ∷ (lit "смесь"))
      ∷ (lit "ягод" ++ anything ∷ (lit "заморож"))
      ∷ (lit "фрукт" ++ anything ∷ (lit "заморож"))
      ∷ (lit "тесто" ++ anything ∷ (lit "заморож"))
      ∷ (lit "слоен" ++ anything ∷ (lit "тесто"))
      ∷ (lit "рыбн" ++ anything ∷ (lit "палоч"))
      ∷ (lit "крабов" ++ anything ∷ (lit "палоч"))
      ∷ (lit "пицц" ++ anything ∷ (lit "заморож"))
      ∷ (lit "лазань" ++ anything ∷ (lit "заморож"))
      ∷ lit "хинкал"
      ∷ lit "манты"
      ∷ (lit "чебурек" ++ anything ∷ (lit "заморож"))
      ∷ (lit "котлет" ++ anything ∷ (lit "заморож"))
      ∷ lit "мороженое"
      ∷ lit "сорбет"
      ∷ lit "эскимо"
      ∷ lit "пломбир"
      ∷ lit "лед"
      ∷ [];
}

-- categories/household.ts
unfoldable pub rule_household : CategoryRule
rule_household = record {
  category = codes "Бытовая химия";
  patterns =
      lit "порош"
      ∷ lit "средств"
      ∷ lit "гель"
      ∷ lit "шампун"
      ∷ lit "мыло"
      ∷ lit "моющ"
      ∷ lit "чистящ"
      ∷ lit "отбелив"
      ∷ (lit "кондиционер" ++ anything ∷ (lit "бель"))
      ∷ lit "ополаскив"
      ∷ lit "пятновывод"
      ∷ lit "освежител"
      ∷ lit "антисептик"
      ∷ lit "дезодорант"
      ∷ lit "губк"
      ∷ lit "салфетк"
      ∷ lit "перчатк"
      ∷ (lit "мешк" ++ anything ∷ (lit "мусор"))
      ∷ (lit "туалетн" ++ anything ∷ (lit "бумаг"))
      ∷ (lit "бумаг" ++ anything ∷ (lit "туалет"))
      ∷ (lit "полотенц" ++ anything ∷ (lit "бумаг"))
      ∷ lit "фольг"
      ∷ (lit "пленк" ++ anything ∷ (lit "пищ"))
      ∷ (lit "пакет" ++ anything ∷ (lit "пищ"))
      ∷ (lit "средств" ++ anything ∷ (lit "посуд"))
      ∷ lit "посудомоеч"
      ∷ (lit "таблетк" ++ anything ∷ (lit "посуд"))
      ∷ (lit "капсул" ++ anything ∷ (lit "стир"))
      ∷ (lit "уход" ++ anything ∷ (lit "волос"))
      ∷ (lit "зубн" ++ anything ∷ (lit "паст"))
      ∷ (lit "зубн" ++ anything ∷ (lit "щетк"))
      ∷ lit "бритв"
      ∷ [];
}

-- categories/pet.ts
unfoldable pub rule_pet : CategoryRule
rule_pet = record {
  category = codes "прочее";
  patterns =
      (lit "корм" ++ word_units ∷ [])
      ∷ (lit "кошач" ++ word_units ∷ [])
      ∷ (lit "собач" ++ word_units ∷ [])
      ∷ lit "kitekat"
      ∷ lit "whiskas"
      ∷ lit "felix"
      ∷ lit "purina"
      ∷ (lit "royal" ++ spaces ∷ (lit "canin"))
      ∷ [];
}
