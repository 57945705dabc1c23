-- ===== src/Ai/Types.antt =====
-- mobile/src/ai/types.ts: actions, sections, results and reports. A number of a section is kept as
-- the literal that it has in the server's answer.
use foodler.Common.{ℕ, Bool, Option, List, [], ◌∷◌}
use foodler.Text.{Text, codes}

pub data AiActionType : Type 0 where
  analysis save_money health recipe cart ingredients habits diet ask : AiActionType

-- ACTION_TO_SERVER
unfoldable pub action_to_server : AiActionType → Text
action_to_server analysis = codes "overall-analysis"
action_to_server save_money = codes "save-money"
action_to_server health = codes "healthy-food"
action_to_server recipe = codes "recipes"
action_to_server cart = codes "shopping-cart"
action_to_server ingredients = codes "ingredients"
action_to_server habits = codes "habits"
action_to_server diet = codes "diet"
action_to_server ask = codes "ask"

-- The keys of ACTION_TO_SERVER, in its order.
abbrev pub actions : List AiActionType
actions = analysis ∷ save_money ∷ health ∷ recipe ∷ cart ∷ ingredients ∷ habits ∷ diet ∷ ask ∷ []

-- ACTION_LABELS
unfoldable pub action_label : AiActionType → Text
action_label analysis = codes "Общий анализ покупок"
action_label save_money = codes "Как сэкономить"
action_label health = codes "Полезность покупок"
action_label recipe = codes "Что приготовить"
action_label cart = codes "Корзина продуктов"
action_label ingredients = codes "Состав продуктов"
action_label habits = codes "Привычки питания"
action_label diet = codes "Рацион питания"
action_label ask = codes "Задать вопрос"

pub data ChartKind : Type 0 where
  bar line : ChartKind

pub record Product : Type 0 where
  pub name : Text
  pub reason : Text
  pub price : Option Text

pub data AiSection : Type 0 where
  text_section : (title text : Text) → AiSection
  score_section : (title value : Text) → Option Text → AiSection
  list_section : Text → List Text → AiSection
  products_section : Text → List Product → AiSection
  chart_section : Text → List Text → List Text → ChartKind → AiSection

pub record AiResult : Type 0 where
  pub id : Text
  pub action : AiActionType
  pub title : Text
  pub summary : Text
  pub sections : List AiSection

pub record AiReportSnapshot : Type 0 where
  pub receipt_count : ℕ
  pub period_from : Option Text
  pub period_to : Option Text
  pub total_spent : Option Text
  pub receipt_ids : List Text

pub record AiReport : Type 0 where
  pub id : Text
  pub action : AiActionType
  pub created_at : ℕ
  pub snapshot : AiReportSnapshot
  pub response : AiResult
  pub pinned : Bool
