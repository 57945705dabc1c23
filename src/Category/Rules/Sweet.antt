-- ===== src/Category/Rules/Sweet.antt =====
-- Bread, confectionery, sweets, eggs, snacks and ready food: the patterns of
-- mobile/src/categories/.
use foodler.Common.{[], ◌∷◌, ◌++◌}
use foodler.Text.{codes}
use foodler.Category.Regex.{anything, anything_once, lit, CategoryRule}

-- categories/bread.ts
unfoldable pub rule_bread : CategoryRule
rule_bread = record {
  category = codes "Хлеб и выпечка";
  patterns =
      lit "хлеб"
      ∷ lit "батон"
      ∷ lit "булоч"
      ∷ lit "лаваш"
      ∷ lit "пирож"
      ∷ lit "выпеч"
      ∷ lit "багет"
      ∷ lit "лепеш"
      ∷ lit "лепёш"
      ∷ lit "булк"
      ∷ lit "сдоба"
      ∷ lit "круассан"
      ∷ lit "плюшк"
      ∷ lit "ватрушк"
      ∷ lit "расстега"
      ∷ lit "беляш"
      ∷ lit "самс"
      ∷ lit "хачапур"
      ∷ lit "донат"
      ∷ lit "пончик"
      ∷ lit "маффин"
      ∷ lit "капкейк"
      ∷ lit "бисквит"
      ∷ lit "чиабатт"
      ∷ lit "фокачч"
      ∷ lit "ржан"
      ∷ lit "бородин"
      ∷ lit "тостов"
      ∷ lit "сухар"
      ∷ lit "гренк"
      ∷ lit "хлебц"
      ∷ [];
}

-- categories/confectionery.ts
unfoldable pub rule_confectionery : CategoryRule
rule_confectionery = record {
  category = codes "Кондитерские изделия";
  patterns =
      lit "печен"
      ∷ lit "торт"
      ∷ lit "вафл"
      ∷ lit "мармел"
      ∷ lit "десерт"
      ∷ lit "пирожн"
      ∷ lit "кекс"
      ∷ lit "пряник"
      ∷ lit "бисквит"
      ∷ lit "рулет"
      ∷ lit "эклер"
      ∷ lit "тарт"
      ∷ lit "чизкейк"
      ∷ lit "суфле"
      ∷ lit "паннакот"
      ∷ lit "пудинг"
      ∷ lit "крем"
      ∷ lit "желе"
      ∷ lit "мусс"
      ∷ lit "драже"
      ∷ lit "халв"
      ∷ lit "козинак"
      ∷ lit "сгущ"
      ∷ lit "топпинг"
      ∷ lit "десертн"
      ∷ lit "кондитер"
      ∷ lit "сдобн"
      ∷ lit "кремов"
      ∷ [];
}

-- categories/sweets.ts
unfoldable pub rule_sweets : CategoryRule
rule_sweets = record {
  category = codes "Сладости";
  patterns =
      lit "шоколад"
      ∷ lit "конфет"
      ∷ lit "карамел"
      ∷ lit "ирис"
      ∷ lit "зефир"
      ∷ lit "пастил"
      ∷ lit "трюфел"
      ∷ lit "марс"
      ∷ lit "сникерс"
      ∷ lit "твикс"
      ∷ lit "баунти"
      ∷ (lit "кит" ++ anything_once ∷ (lit "кат"))
      ∷ (lit "милк" ++ anything_once ∷ (lit "вей"))
      ∷ lit "рафаэлл"
      ∷ lit "ферреро"
      ∷ lit "леденец"
      ∷ lit "леденц"
      ∷ (lit "жевательн" ++ anything ∷ (lit "резин"))
      ∷ lit "жвачк"
      ∷ lit "маршмелл"
      ∷ lit "помадк"
      ∷ lit "пралине"
      ∷ lit "нуг"
      ∷ lit "карамельк"
      ∷ lit "шоколадн"
      ∷ lit "шоколадк"
      ∷ lit "конфетн"
      ∷ lit "сладк"
      ∷ (lit "сахарн" ++ anything ∷ (lit "издел"))
      ∷ lit "драже"
      ∷ [];
}

-- categories/receipt.ts
unfoldable pub egg_rule : CategoryRule
egg_rule = record { category = codes "Яйца"; patterns = lit "яйц" ∷ [] }

-- categories/receipt.ts
unfoldable pub snack_rule : CategoryRule
snack_rule = record {
  category = codes "Снеки";
  patterns = lit "чипс" ∷ lit "снек" ∷ lit "крекер" ∷ lit "попкорн" ∷ lit "семечк" ∷ [];
}

-- categories/receipt.ts
unfoldable pub ready_rule : CategoryRule
ready_rule = record {
  category = codes "Готовая еда";
  patterns =
      lit "пицц"
      ∷ lit "суши"
      ∷ lit "ролл"
      ∷ lit "бургер"
      ∷ lit "сэндвич"
      ∷ (lit "готов" ++ anything ∷ (lit "блюд"))
      ∷ [];
}
