-- ===== src/Category/Normal.antt =====
-- The normal form of a category: `normalizeCategory` is stable, it agrees with the server's labels,
-- and what the rules detect becomes a category that the editor offers.
use foodler.Common.{
  ◌≡◌, refl, inl, inr, Bool, true, false, ◌&&◌, Option, none, some, List, [], ◌∷◌, map, arith, any,
  all, find, Bool-cases, Option-cases, All, leb, ◌||◌,
}
use foodler.Text.{Text, text_eq, is_empty, is_space, trim, lower_unit, Locale, IsPlain}
use foodler.Text.Laws.{text_eq_iff}
use foodler.Category.{
  fallback_category, category_labels, built_in_categories, lookup_text, label_of,
  normalize_category, normalize_server_category,
}
use foodler.Category.Regex.{CategoryRule}
use foodler.Category.Rules.{rules}
use foodler.Category.Detect.{matches_rule, detect_category, category_or_fallback, blank_punctuation}

-- A test that holds of every label holds of the label that a lookup returns.
lookup_text-all :
    (test : Text → Bool) (key v : Text) (table : List (Text × Text))
    → all (λ e. test e.1) table ≡ true
    → lookup_text key table ≡ some v
    → test v ≡ true
unfolding lookup_text
lookup_text-all test key v [] h e = absurd (cc e)
lookup_text-all test key v ((k, w) ∷ table) h e = ground (arith, lookup_text-all test key v table)

find-all {ℓ} :
    {A : Type ℓ} (test good : A → Bool) (xs : List A) (x : A)
    → all good xs ≡ true
    → find test xs ≡ some x
    → good x ≡ true
find-all test good [] x h e = absurd (cc e)
find-all test good (y ∷ xs) x h e = ground (arith, find-all test good xs x)

abbrev is_plain : Text → Bool
is_plain t = all (λ c. leb c 0x7f || (leb 0x400 c && leb c 0x45f)) t

All-of_is_plain : (t : Text) → is_plain t ≡ true → All IsPlain t
All-of_is_plain [] h = tt
All-of_is_plain (c ∷ t) h = let ih = All-of_is_plain t in ground (arith, ih)

-- A concrete text whose normal form can be computed in every locale.
abbrev settles : Text → Text → Bool
settles t u = is_plain (trim t) && text_eq (label_of (map lower_unit (trim t))) u

-- The editor's categories and the fallback.
offered : Text → Bool
offered t = any (settles t) (fallback_category ∷ built_in_categories)

rules-offered : all (λ r. offered r.category) rules ≡ true
unfolding offered rules trim label_of text_eq lower_unit category_labels is_space
    built_in_categories
rules-offered = refl

fallback_offered : offered fallback_category ≡ true
unfolding offered trim label_of text_eq lower_unit category_labels is_space built_in_categories
fallback_offered = refl

offered-find :
    (test : CategoryRule → Bool) → offered (category_or_fallback (find test rules)) ≡ true
offered-find test = elim (Option-cases (find test rules)) [
  | inl e ↦ rw e fallback_offered
  | inr (rule, e) ↦ rw e (find-all test (λ r. offered r.category) rules rule rules-offered e)
]

label_of_lookup :
    (key label : Text) → lookup_text key category_labels ≡ some label → label_of key ≡ label
unfolding label_of lookup_text text_eq category_labels
label_of_lookup [] label h = absurd (cc h)
label_of_lookup (c ∷ key) label h = rw h

or_right : (a b : Bool) → b ≡ true → (a || b) ≡ true
or_right a b h = ground arith

module _ (locale : Locale) where
  settles_lem : (t u : Text) → settles t u ≡ true → normalize_category locale (some t) ≡ u
  unfolding normalize_category
  settles_lem t u h =
      rw (locale.lower_plain (trim t) (All-of_is_plain (trim t) (ground arith)))
        ((text_eq_iff _ u).0 (ground arith))

  labels_settle : all (λ e. settles e.1 e.1) category_labels ≡ true
  unfolding category_labels trim label_of text_eq lower_unit is_space
  labels_settle = refl

  fallback_settles : settles fallback_category fallback_category ≡ true
  unfolding trim label_of text_eq lower_unit category_labels is_space
  fallback_settles = refl

  label_of-known :
      (k v : Text) → is_empty k ≡ false → lookup_text k category_labels ≡ some v → label_of k ≡ v
  unfolding label_of
  label_of-known k v n e = rw (n, e)

  label_of-unknown :
      (k : Text) → is_empty k ≡ false → lookup_text k category_labels ≡ none → label_of k ≡ k
  unfolding label_of
  label_of-unknown k n e = rw (n, e)

  -- The label of a text in lower case, with no space at its ends, is its own normal form.
  label_of-fixed :
      (k : Text)
      → trim k ≡ k
      → locale.lower k ≡ k
      → normalize_category locale (some (label_of k)) ≡ label_of k
  label_of-fixed [] t l =
      unfold label_of in settles_lem fallback_category fallback_category fallback_settles
  label_of-fixed (c ∷ k) t l = elim (Option-cases (lookup_text (c ∷ k) category_labels)) [
    | inl e ↦
        rw (label_of-unknown (c ∷ k) refl e)
          (unfold normalize_category in rw (t, l, label_of-unknown (c ∷ k) refl e))
    | inr (v, e) ↦ rw (label_of-known (c ∷ k) v refl e) (
        settles_lem v v
          (lookup_text-all (λ w. settles w w) (c ∷ k) v category_labels labels_settle e))
  ]

  -- Normalising a category a second time changes nothing, for every input and in every locale.
  pub normalize_category_idem :
      (category : Option Text)
      → normalize_category locale (some (normalize_category locale category))
        ≡ normalize_category locale category
  unfolding normalize_category label_of
  normalize_category_idem none = settles_lem fallback_category fallback_category fallback_settles
  normalize_category_idem (some c) =
      label_of-fixed (locale.lower (trim c)) (locale.lower_trim c) (locale.lower_idem (trim c))

  -- A category with a server label is normalised to that label.
  pub server_label-agrees :
      (category label : Text)
      → normalize_server_category locale (some category) ≡ some label
      → normalize_category locale (some category) ≡ label
  unfolding normalize_server_category normalize_category
  server_label-agrees category label h =
      label_of_lookup (locale.lower (trim category)) label (ground arith)

  any-settles :
      (t : Text) (us : List Text)
      → any (settles t) us ≡ true
      → any (text_eq (normalize_category locale (some t))) us ≡ true
  any-settles t [] h = h
  any-settles t (u ∷ us) h = elim (Bool-cases (settles t u)) [
    | inl e ↦ rw ((text_eq_iff _ u).1 (settles_lem t u e))
    | inr e ↦ or_right _ _ (any-settles t us (rw e at h))
  ]

  -- Whatever the name of the product, the category that the rules detect is normalised to one that
  -- the category editor offers, or to the fallback.
  pub detect_category-offered :
      (name : Text)
      → any
          (text_eq (normalize_category locale (some (detect_category locale name))))
          (fallback_category ∷ built_in_categories)
        ≡ true
  unfolding detect_category
  detect_category-offered name =
      any-settles (detect_category locale name) (fallback_category ∷ built_in_categories) (
        unfold offered in
        offered-find (matches_rule locale (map blank_punctuation (locale.lower name))))
