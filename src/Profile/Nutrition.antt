-- ===== src/Profile/Nutrition.antt =====
-- mobile/src/profileNutrition.ts: what the assistant is told of a member. `locale.lower` is
-- `toLocaleLowerCase()`.
use foodler.Common.{
  ◌≡◌, false, ◌||◌, not, Option, none, some, List, [], ◌∷◌, ◌++◌, any, select, All, arith,
  Bool-cases, inl, inr, if◌then◌else◌,
}
use foodler.Text.{Text, codes, text_eq, is_empty, trim, Locale}
use foodler.Text.Trim.{trim_idem}
use foodler.Keys.{HasDistinctKeys, HasDistinctKeys-concat}
use foodler.Profile.{
  Gender, male, female, NutritionGoal, balance, healthy, cheaper, lose_weight, gain_weight,
  ActivityLevel, low, medium, high, FamilyMember, UserProfile,
}

abbrev pub nutrition_goal_label : NutritionGoal → Text
nutrition_goal_label balance = codes "Сбалансированное питание"
nutrition_goal_label healthy = codes "Питаться полезнее"
nutrition_goal_label cheaper = codes "Экономить на продуктах"
nutrition_goal_label lose_weight = codes "Снизить вес"
nutrition_goal_label gain_weight = codes "Набрать вес"

abbrev pub activity_level_label : ActivityLevel → Text
activity_level_label low = codes "Низкая"
activity_level_label medium = codes "Средняя"
activity_level_label high = codes "Высокая"

-- `texts.join(separator)`
abbrev join_with : Text → List Text → Text
join_with separator [] = []
join_with separator (t ∷ []) = t
join_with separator (t ∷ u ∷ us) = t ++ separator ++ join_with separator (u ∷ us)

abbrev foods_part : Text → List Text → Text
foods_part before [] = []
foods_part before (f ∷ fs) = before ++ join_with (codes ", ") (f ∷ fs)

abbrev info_part : Option Text → Text
unfolding trim
info_part none = []
info_part (some info) = trim info

unfoldable pub build_additional_info : FamilyMember → Text
unfolding info_part
build_additional_info member = join_with (codes ". ") (
    select (λ part. not (is_empty part))
      (foods_part (codes "Любимые продукты: ") member.liked_foods
        ∷ foods_part (codes "Не любит: ") member.disliked_foods
        ∷ (codes "Цель питания: " ++ nutrition_goal_label member.nutrition_goal)
        ∷ (codes "Уровень физической нагрузки: " ++ activity_level_label member.activity_level)
        ∷ info_part member.additional_info
        ∷ []))

pub record ApiMember : Type 0 where
  pub name : Text
  pub age : Text
  pub height : Text
  pub weight : Text
  pub gender : Text
  pub additional_info : Text

abbrev api_gender : Gender → Text
api_gender male = codes "Мужской"
api_gender female = codes "Женский"

unfoldable pub family_member_to_api_member : FamilyMember → ApiMember
unfolding build_additional_info
family_member_to_api_member member = record {
  name = member.name;
  age = member.age;
  height = member.height_cm;
  weight = member.weight_kg;
  gender = api_gender member.gender;
  additional_info = build_additional_info member;
}

abbrev pub owner_to_family_member : UserProfile → FamilyMember
owner_to_family_member profile = profile.owner

unfoldable pub build_profile_context : UserProfile → Text
unfolding build_additional_info
build_profile_context profile = build_additional_info (owner_to_family_member profile)

module _ (locale : Locale) where
  unfoldable pub add_food_value : List Text → Text → List Text
  unfolding trim
  add_food_value values value =
      let food = trim value in
      if is_empty food || any (λ item. text_eq (locale.lower item) (locale.lower food)) values
      then values
      else values ++ food ∷ []

  -- Trimmed foods that are not empty and differ in lower case.
  abbrev pub AreFoods : List Text → Type 0
  AreFoods values =
      All (λ food. (is_empty food ≡ false) × (trim food ≡ food)) values
      × HasDistinctKeys (λ food. locale.lower food) values

  All-add :
      (values : List Text) (food : Text)
      → All (λ f. (is_empty f ≡ false) × (trim f ≡ f)) values
      → is_empty food ≡ false
      → trim food ≡ food
      → All (λ f. (is_empty f ≡ false) × (trim f ≡ f)) (values ++ food ∷ [])
  All-add [] food h e t = ((e, t), tt)
  All-add (v ∷ values) food (p, h) e t = (p, All-add values food h e t)

  -- Adding a food to foods that are trimmed, not empty and different up to case keeps them so,
  -- whatever the user types.
  pub add_food_value-AreFoods :
      (values : List Text) (value : Text) → AreFoods values → AreFoods (add_food_value values value)
  unfolding add_food_value
  add_food_value-AreFoods values value (foods, distinct) =
      elim (Bool-cases (
        is_empty (trim value)
        || any (λ item. text_eq (locale.lower item) (locale.lower (trim value))) values)) [
          | inl kept ↦ rw kept (foods, distinct)
          | inr added ↦ rw added (
            All-add values (trim value) foods (ground arith) (trim_idem value),
            HasDistinctKeys-concat (λ food. locale.lower food) values (trim value) distinct
                (ground arith),
          )
        ]
