-- ===== src/Category/Rules.antt =====
-- The list `RULES` of mobile/src/category.ts, in its order; the rules are in the files below.
mod Animal
mod Plant
mod Sweet
mod Other
unfoldable pub use Animal.{rule_dairy, rule_fish, rule_meat, rule_sausages}
unfoldable pub use Plant.{rule_vegetables, rule_fruits, rule_grocery, rule_sauces}
unfoldable pub use Sweet.{
  rule_bread, rule_confectionery, rule_sweets, egg_rule, ready_rule, snack_rule,
}
unfoldable pub use Other.{rule_alcohol, rule_drinks, rule_frozen, rule_household, rule_pet}
use foodler.Common.{List, [], ◌∷◌}
use foodler.Category.Regex.{CategoryRule}

unfoldable pub rules : List CategoryRule
unfolding rule_dairy rule_fish rule_meat rule_sausages rule_vegetables rule_fruits rule_grocery
    rule_sauces rule_bread rule_confectionery rule_sweets egg_rule ready_rule snack_rule
    rule_alcohol rule_drinks rule_frozen rule_household rule_pet
rules =
    rule_alcohol ∷ egg_rule ∷ ready_rule ∷ snack_rule ∷ rule_sauces ∷ rule_pet ∷ rule_sausages
    ∷ rule_meat ∷ rule_fish ∷ rule_sweets ∷ rule_confectionery ∷ rule_dairy ∷ rule_bread
    ∷ rule_vegetables ∷ rule_fruits ∷ rule_drinks ∷ rule_grocery ∷ rule_frozen ∷ rule_household ∷ []
