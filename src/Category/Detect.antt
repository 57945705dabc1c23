-- ===== src/Category/Detect.antt =====
-- `detectCategory` of mobile/src/category.ts: the first rule with a matching pattern decides.
use foodler.Common.{ℕ, Bool, [], ◌∷◌, ◌++◌, Option, none, some, map, ◌==◌, any, find, if◌then◌else◌}
use foodler.Text.{Text, codes, Locale}
use foodler.Category.{fallback_category}
use foodler.Category.Regex.{CategoryRule, test_regex}
use foodler.Category.Rules.{rules}

-- The class of `detectCategory`'s replacement: brackets, points and quotes.
abbrev pub punctuation : Text
punctuation = codes "()[]{}.,;:!?'`" ++ b'"' ∷ []

abbrev pub blank_punctuation : ℕ → ℕ
blank_punctuation c = if any (λ p. p == c) punctuation then 32 else c

abbrev pub category_or_fallback : Option CategoryRule → Text
category_or_fallback none = fallback_category
category_or_fallback (some rule) = rule.category

module _ (locale : Locale) where
  unfoldable pub matches_rule : Text → CategoryRule → Bool
  unfolding test_regex
  matches_rule text rule = any (λ pattern. test_regex locale.fold pattern text) rule.patterns

  unfoldable pub detect_category : Text → Text
  unfolding matches_rule rules
  detect_category name =
      let normalized = map blank_punctuation (locale.lower name) in
      category_or_fallback (find (matches_rule normalized) rules)
