-- ===== src/Profile.antt =====
-- mobile/src/profileStorage.ts and mobile/src/profileNutrition.ts over the types of
-- mobile/src/types.ts. A number is kept as the literal that it has in JSON, so it is finite.
pub mod Stored
pub mod Nutrition
mod Tests
use foodler.Common.{
  ◌≡◌, refl, Bool, true, false, ◌||◌, Option, none, some, List, [], ◌∷◌, ◌++◌, map, any, or_else,
  if◌then◌else◌,
}
use foodler.Text.{Text, codes, text_eq, is_empty, trim}
use foodler.Json.{
  Json, null, boolean, number, string, array, object, Raw, Fields, field, end, elements, to_items,
  lookup_field, get_field, as_string, as_boolean,
}

pub data Gender : Type 0 where
  male female : Gender

pub data NutritionGoal : Type 0 where
  balance healthy cheaper lose_weight gain_weight : NutritionGoal

pub data ActivityLevel : Type 0 where
  low medium high : ActivityLevel

pub record FamilyMember : Type 0 where
  pub name : Text
  pub age : Text
  pub gender : Gender
  pub height_cm : Text
  pub weight_kg : Text
  pub liked_foods : List Text
  pub disliked_foods : List Text
  pub nutrition_goal : NutritionGoal
  pub activity_level : ActivityLevel
  pub additional_info : Option Text

-- A profile is its owner and the further fields.
pub record UserProfile : Type 0 where
  pub owner : FamilyMember
  pub family_size : Text
  pub has_children : Bool
  pub family_members : List FamilyMember

abbrev pub default_profile : UserProfile
default_profile = record {
  owner = record {
    name = [];
    age = codes "30";
    gender = male;
    height_cm = codes "170";
    weight_kg = codes "70";
    liked_foods = [];
    disliked_foods = [];
    nutrition_goal = balance;
    activity_level = low;
    additional_info = none;
  };
  family_size = codes "1";
  has_children = false;
  family_members = [];
}

abbrev pub as_number : Option Json → Option Text
as_number (some (number n)) = some n
as_number _ = none

abbrev pub as_array : Option Json → Option (List Json)
as_array (some (array items)) = some (elements items)
as_array _ = none

abbrev pub strings_of : List Json → List Text
strings_of [] = []
strings_of (string t ∷ vs) = t ∷ strings_of vs
strings_of (_ ∷ vs) = strings_of vs

unfoldable pub gender_of : Option Text → Gender
gender_of none = male
gender_of (some t) = if text_eq t (codes "female") then female else male

unfoldable pub goal_of : Option Text → NutritionGoal
goal_of none = balance
goal_of (some t) =
    if text_eq t (codes "healthy")
    then healthy
    else if text_eq t (codes "cheaper")
    then cheaper
    else if text_eq t (codes "lose_weight")
    then lose_weight
    else if text_eq t (codes "gain_weight")
    then gain_weight
    else balance

unfoldable pub level_of : Option Text → ActivityLevel
level_of none = low
level_of (some t) =
    if text_eq t (codes "medium") then medium else if text_eq t (codes "high") then high else low

abbrev pub foods_of : Option Json → List Text
foods_of v = strings_of (or_else (as_array v) [])

-- A value that is no object has none of the fields.
unfoldable pub normalize_member : Json → FamilyMember
unfolding gender_of goal_of level_of lookup_field elements
normalize_member value = record {
  name = or_else (as_string (get_field (codes "name") value)) [];
  age = or_else (as_number (get_field (codes "age") value)) (codes "0");
  gender = gender_of (as_string (get_field (codes "gender") value));
  height_cm = or_else (as_number (get_field (codes "heightCm") value)) (codes "0");
  weight_kg = or_else (as_number (get_field (codes "weightKg") value)) (codes "0");
  liked_foods = foods_of (get_field (codes "likedFoods") value);
  disliked_foods = foods_of (get_field (codes "dislikedFoods") value);
  nutrition_goal = goal_of (as_string (get_field (codes "nutritionGoal") value));
  activity_level = level_of (as_string (get_field (codes "activityLevel") value));
  additional_info = as_string (get_field (codes "additionalInfo") value);
}

-- Reading a field of null throws, which is caught.
abbrev pub parsed_profile : Json → UserProfile
unfolding normalize_member lookup_field elements
parsed_profile null = default_profile
parsed_profile value = record {
  owner = normalize_member value;
  family_size = or_else (as_number (get_field (codes "familySize") value)) (codes "1");
  has_children = or_else (as_boolean (get_field (codes "hasChildren") value)) false;
  family_members =
      map normalize_member (or_else (as_array (get_field (codes "familyMembers") value)) []);
}

unfoldable pub load_profile : Raw → UserProfile
unfolding parsed_profile
load_profile none = default_profile
load_profile (some none) = default_profile
load_profile (some (some value)) = parsed_profile value

abbrev gender_text : Gender → Text
gender_text male = codes "male"
gender_text female = codes "female"

abbrev goal_text : NutritionGoal → Text
goal_text balance = codes "balance"
goal_text healthy = codes "healthy"
goal_text cheaper = codes "cheaper"
goal_text lose_weight = codes "lose_weight"
goal_text gain_weight = codes "gain_weight"

abbrev level_text : ActivityLevel → Text
level_text low = codes "low"
level_text medium = codes "medium"
level_text high = codes "high"

abbrev texts_json : List Text → Json
unfolding to_items
texts_json ts = array (to_items (map string ts))

-- A field that is undefined is left out.
abbrev info_fields : Option Text → Fields → Fields
info_fields none rest = rest
info_fields (some t) rest = field (codes "additionalInfo") (string t) rest

-- The fields of a member, and what follows them.
unfoldable pub member_fields : FamilyMember → Fields → Fields
unfolding texts_json
member_fields m rest = field (codes "name") (string m.name) (
    field (codes "age") (number m.age) (
      field (codes "gender") (string (gender_text m.gender)) (
        field (codes "heightCm") (number m.height_cm) (
          field (codes "weightKg") (number m.weight_kg) (
            field (codes "likedFoods") (texts_json m.liked_foods) (
              field (codes "dislikedFoods") (texts_json m.disliked_foods) (
                field (codes "nutritionGoal") (string (goal_text m.nutrition_goal)) (
                  field (codes "activityLevel") (string (level_text m.activity_level))
                    (info_fields m.additional_info rest)))))))))

abbrev pub member_json : FamilyMember → Json
unfolding member_fields
member_json m = object (member_fields m end)

-- `JSON.stringify(profile)`: what `saveProfile` stores.
unfoldable pub save_profile : UserProfile → Raw
unfolding member_json to_items
save_profile p = some (
    some (
      object (
        member_fields p.owner (
          field (codes "familySize") (number p.family_size) (
            field (codes "hasChildren") (boolean p.has_children) (
              field (codes "familyMembers") (array (to_items (map member_json p.family_members)))
                end))))))
