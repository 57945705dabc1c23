-- ===== src/Ai/Sections/Ends.antt =====
-- The expansion of nested sections ends, and gives what the recursion of the source gives.
use foodler.Common.{
  ℕ, zero, suc, ◌+◌, ◌-◌, ◌≤◌, ◌<◌, ◌≡◌, refl, ap, ap₂, ◌∙◌, Option, some, List, [], ◌∷◌, ◌++◌, All,
  arith, length, inl, inr, ◌⊎◌,
}
use foodler.Text.{Text}
use foodler.Json.{Json, Items, array, elements}
use foodler.Keys.{All-map_to}
use foodler.Ai.Types.{AiSection}
use foodler.Ai.Sections.{
  section_text, nested_sections, Part, plain, nested, part_of, parse_sections, both, fuel_for,
  parse_server_sections,
}

-- A string inside of a value is shorter than the text that the value was read from.
abbrev pub IsShortening : (Text → Option Json) → Type 0
IsShortening parse =
    (t : Text) (items : Items)
    → parse t ≡ some (array items)
    → All (λ e. length (section_text e) < length t) (elements items)

-- All texts are shorter than `n`.
abbrev IsBelow : ℕ → List Json → Type 0
IsBelow n ss = All (λ s. length (section_text s) < n) ss

Part-cases :
    (p : Part)
    → ((own : List AiSection) × (p ≡ plain own)) ⊎ ((inner : List Json) × (p ≡ nested inner))
Part-cases (plain own) = inl (own, refl)
Part-cases (nested inner) = inr (inner, refl)

IsBelow-more : (m n : ℕ) (ss : List Json) → m ≤ n → IsBelow m ss → IsBelow n ss
IsBelow-more m n ss h below = All-map_to ss (λ x b. omega (arith, b, h)) below

fuel_for-positive : (ss : List Json) → 0 < fuel_for ss
fuel_for-positive [] = omega arith
fuel_for-positive (s ∷ ss) = omega (arith, fuel_for-positive ss)

fuel_for-IsBelow : (ss : List Json) → IsBelow (fuel_for ss) ss
fuel_for-IsBelow [] = tt
fuel_for-IsBelow (s ∷ ss) = (
  omega (arith, fuel_for-positive ss),
  IsBelow-more (fuel_for ss) (fuel_for ss + length (section_text s)) ss (omega arith)
      (fuel_for-IsBelow ss),
)

before_suc : (n : ℕ) → n ≡ suc n - 1
before_suc n = omega arith

module _ (parse : Text → Option Json) (stringify show : Json → Text) where
  nested_sections-array :
      (s : Json) (inner : List Json)
      → part_of parse stringify show s ≡ nested inner
      → (items : Items) × (parse (section_text s) ≡ some (array items)) × (inner ≡ elements items)
  unfolding part_of nested_sections
  nested_sections-array s inner h = ground arith

  part_of-IsBelow :
      (s : Json) (inner : List Json)
      → IsShortening parse
      → part_of parse stringify show s ≡ nested inner
      → IsBelow (length (section_text s)) inner
  unfolding part_of nested_sections
  part_of-IsBelow s inner shorter h =
      let (items, read, e) = nested_sections-array s inner h in
      rw e (shorter (section_text s) items read)

  inner-IsBelow :
      (s : Json) (inner : List Json) (fuel : ℕ)
      → IsShortening parse
      → length (section_text s) < suc fuel
      → part_of parse stringify show s ≡ nested inner
      → IsBelow fuel inner
  inner-IsBelow s inner fuel shorter p is =
      IsBelow-more (length (section_text s)) fuel inner (omega (arith, p))
        (part_of-IsBelow s inner shorter is)

  parse_sections-total :
      (fuel : ℕ) (ss : List Json)
      → IsShortening parse
      → IsBelow fuel ss
      → (result : List AiSection) × (parse_sections parse stringify show fuel ss ≡ some result)
  unfolding parse_sections
  parse_sections-total fuel [] shorter h = ([], refl)
  parse_sections-total zero (s ∷ ss) shorter (p, h) = absurd (omega (arith, p))
  parse_sections-total (suc fuel) (s ∷ ss) shorter (p, h) =
      let (rest, e) = parse_sections-total (suc fuel) ss shorter h in
      elim (Part-cases (part_of parse stringify show s)) [
        | inl (sections, is) ↦ (sections ++ rest, rw (parse_sections, is, e))
        | inr (inner, is) ↦
            let (sections, f) =
              parse_sections-total fuel inner shorter (inner-IsBelow s inner fuel shorter p is) in
            (sections ++ rest, rw (parse_sections, is, e, f))
      ]

  parse_sections-fuel :
      (m n : ℕ) (ss : List Json)
      → IsShortening parse
      → IsBelow m ss
      → IsBelow n ss
      → parse_sections parse stringify show m ss ≡ parse_sections parse stringify show n ss
  unfolding parse_sections
  parse_sections-fuel m n [] shorter h k = refl
  parse_sections-fuel zero n (s ∷ ss) shorter (p, h) k = absurd (omega (arith, p))
  parse_sections-fuel (suc m) zero (s ∷ ss) shorter h (p, k) = absurd (omega (arith, p))
  parse_sections-fuel (suc m) (suc n) (s ∷ ss) shorter (p, h) (q, k) =
      let rest = parse_sections-fuel (suc m) (suc n) ss shorter h k in
      elim (Part-cases (part_of parse stringify show s)) [
        | inl (sections, is) ↦ rw (parse_sections, is) (ap (both (some sections)) rest)
        | inr (inner, is) ↦
            rw (parse_sections, is)
              (ap₂ both
                (parse_sections-fuel m n inner shorter (inner-IsBelow s inner m shorter p is)
                  (inner-IsBelow s inner n shorter q is))
                rest)
      ]

  step-plain :
      (f : ℕ) (s : Json) (ss : List Json) (own : List AiSection)
      → 0 < f
      → part_of parse stringify show s ≡ plain own
      → parse_sections parse stringify show f (s ∷ ss)
        ≡ both (some own) (parse_sections parse stringify show f ss)
  unfolding parse_sections
  step-plain zero s ss own h is = absurd (omega (arith, h))
  step-plain (suc f) s ss own h is = rw (parse_sections, is)

  step-nested :
      (f : ℕ) (s : Json) (ss inner : List Json)
      → 0 < f
      → part_of parse stringify show s ≡ nested inner
      → parse_sections parse stringify show f (s ∷ ss)
        ≡ both
            (parse_sections parse stringify show (f - 1) inner)
            (parse_sections parse stringify show f ss)
  unfolding parse_sections
  step-nested zero s ss inner h is = absurd (omega (arith, h))
  step-nested (suc f) s ss inner h is =
      rw (parse_sections, is)
        (ap
          (λ n.
            both (parse_sections parse stringify show n inner)
              (parse_sections parse stringify show (suc f) ss))
          (before_suc f))

  next-fuel :
      (s : Json) (ss : List Json)
      → IsShortening parse
      → parse_sections parse stringify show (fuel_for (s ∷ ss)) ss
        ≡ parse_sections parse stringify show (fuel_for ss) ss
  next-fuel s ss shorter =
      parse_sections-fuel (fuel_for (s ∷ ss)) (fuel_for ss) ss shorter
        (IsBelow-more (fuel_for ss) (fuel_for (s ∷ ss)) ss (omega arith) (fuel_for-IsBelow ss))
        (fuel_for-IsBelow ss)

  -- What a part of the list stands for.
  abbrev pub sections_of : Part → Option (List AiSection)
  sections_of (plain own) = some own
  sections_of (nested inner) = parse_server_sections parse stringify show inner

  recursion :
      IsShortening parse
      → (s : Json) (ss : List Json) (p : Part) → part_of parse stringify show s ≡ p
      → parse_server_sections parse stringify show (s ∷ ss)
        ≡ both (sections_of p) (parse_server_sections parse stringify show ss)
  unfolding parse_server_sections
  recursion shorter s ss (plain own) is =
      step-plain (fuel_for (s ∷ ss)) s ss own (fuel_for-positive (s ∷ ss)) is
      ∙ ap (both (some own)) (next-fuel s ss shorter)
  recursion shorter s ss (nested inner) is =
      step-nested (fuel_for (s ∷ ss)) s ss inner (fuel_for-positive (s ∷ ss)) is
      ∙ ap₂ both
          (parse_sections-fuel (fuel_for (s ∷ ss) - 1) (fuel_for inner) inner shorter
            (IsBelow-more (length (section_text s)) (fuel_for (s ∷ ss) - 1) inner
              (omega (arith, fuel_for-positive ss)) (part_of-IsBelow s inner shorter is))
            (fuel_for-IsBelow inner))
          (next-fuel s ss shorter)

  -- Where the texts in a value are shorter than the text that it was read from, the expansion ends
  -- on every list of sections, and it obeys the recursion of the source: a section by itself gives
  -- what it is, one that holds sections gives what those give, and the next ones follow.
  pub parse_server_sections-recursion :
      IsShortening parse
      → (ss : List Json)
      → ((result : List AiSection) × (parse_server_sections parse stringify show ss ≡ some result))
        × ((s : Json)
            → parse_server_sections parse stringify show (s ∷ ss)
              ≡ both
                  (sections_of (part_of parse stringify show s))
                  (parse_server_sections parse stringify show ss))
  unfolding parse_server_sections
  parse_server_sections-recursion shorter ss = (
    parse_sections-total (fuel_for ss) ss shorter (fuel_for-IsBelow ss),
    λ s. recursion shorter s ss (part_of parse stringify show s) refl,
  )
