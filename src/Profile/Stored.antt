-- ===== src/Profile/Stored.antt =====
-- A profile that is stored is read back.
use foodler.Common.{◌≡◌, false, refl, ap, ap₂, ◌∙◌, Option, none, some, List, [], ◌∷◌, map}
use foodler.Text.{Text, codes, text_eq}
use foodler.Json.{
  Json, string, array, number, boolean, object, Fields, field, end, elements, to_items,
  lookup_field,
}
use foodler.Profile.{
  Gender, male, female, NutritionGoal, balance, healthy, cheaper, lose_weight, gain_weight,
  ActivityLevel, low, medium, high, FamilyMember, UserProfile, strings_of, gender_of, goal_of,
  level_of, gender_text, goal_text, level_text, info_fields, normalize_member, load_profile,
  member_fields, member_json, save_profile,
}

elements-to_items : (vs : List Json) → elements (to_items vs) ≡ vs
unfolding elements to_items
elements-to_items [] = refl
elements-to_items (v ∷ vs) = ap (λ rest. v ∷ rest) (elements-to_items vs)

strings_of-string : (ts : List Text) → strings_of (map string ts) ≡ ts
strings_of-string [] = refl
strings_of-string (t ∷ ts) = ap (λ rest. t ∷ rest) (strings_of-string ts)

foods-stored : (ts : List Text) → strings_of (elements (to_items (map string ts))) ≡ ts
foods-stored ts = ap strings_of (elements-to_items (map string ts)) ∙ strings_of-string ts

gender-stored : (g : Gender) → gender_of (some (gender_text g)) ≡ g
unfolding gender_of text_eq
gender-stored male = refl
gender-stored female = refl

goal-stored : (g : NutritionGoal) → goal_of (some (goal_text g)) ≡ g
unfolding goal_of text_eq
goal-stored balance = refl
goal-stored healthy = refl
goal-stored cheaper = refl
goal-stored lose_weight = refl
goal-stored gain_weight = refl

level-stored : (l : ActivityLevel) → level_of (some (level_text l)) ≡ l
unfolding level_of text_eq
level-stored low = refl
level-stored medium = refl
level-stored high = refl

-- No further field is the additional information.
abbrev HasNoInfo : Fields → Type 0
HasNoInfo rest = lookup_field (codes "additionalInfo") rest ≡ none

member-stored :
    (m : FamilyMember) (info : Option Text) (rest : Fields)
    → HasNoInfo rest
    → normalize_member (object (member_fields (record m { additional_info = info }) rest))
      ≡ record m { additional_info = info }
unfolding normalize_member member_fields lookup_field text_eq
member-stored m none rest h =
    rw
      (
        gender-stored m.gender,
        goal-stored m.nutrition_goal,
        level-stored m.activity_level,
        foods-stored m.liked_foods,
        foods-stored m.disliked_foods,
        h,
      )
      refl
member-stored m (some t) rest h =
    rw
      (
        gender-stored m.gender,
        goal-stored m.nutrition_goal,
        level-stored m.activity_level,
        foods-stored m.liked_foods,
        foods-stored m.disliked_foods,
      )
      refl

members-stored : (ms : List FamilyMember) → map normalize_member (map member_json ms) ≡ ms
unfolding member_json lookup_field
members-stored [] = refl
members-stored (m ∷ ms) =
    ap₂ (λ (x : FamilyMember) (xs : List FamilyMember). x ∷ xs)
      (member-stored m m.additional_info end refl) (members-stored ms)

lookup-info :
    (key : Text) (info : Option Text) (rest : Fields)
    → text_eq (codes "additionalInfo") key ≡ false
    → lookup_field key (info_fields info rest) ≡ lookup_field key rest
unfolding lookup_field
lookup-info key none rest h = refl
lookup-info key (some t) rest h = rw h refl

-- What is left of the profile beside its owner.
abbrev further_fields : UserProfile → Fields
further_fields p = field (codes "familySize") (number p.family_size) (
    field (codes "hasChildren") (boolean p.has_children)
      (field (codes "familyMembers") (array (to_items (map member_json p.family_members))) end))

-- Every profile that is saved is loaded as it was, with its owner, members, foods and the information
-- that may be missing.
pub load_profile-save_profile : (p : UserProfile) → load_profile (save_profile p) ≡ p
unfolding load_profile save_profile lookup_field text_eq
load_profile-save_profile p =
    let rest = further_fields p in
    let info = p.owner.additional_info in
    rw
      (
        member-stored p.owner info rest refl,
        lookup-info (codes "familySize") info rest refl,
        lookup-info (codes "hasChildren") info rest refl,
        lookup-info (codes "familyMembers") info rest refl,
        elements-to_items (map member_json p.family_members),
        members-stored p.family_members,
      )
      refl
