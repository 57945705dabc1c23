-- ===== src/Sync/Pull/Pages.antt =====
-- The loop over the pages ends, and lists everything that the server has.
use foodler.Common.{
  ℕ, zero, suc, ◌+◌, ◌*◌, ◌≤◌, ◌<◌, ◌≡◌, refl, sym, ap, ◌∙◌, List, [], ◌∷◌, length, take, drop, ltb,
  arith, length-drop, take-append-drop, Bool-cases, inl, inr,
}
use foodler.Sync.Ids.{Answer, answered}
use foodler.Sync.Pull.{listed, receipt_page_size, list_pages}

module _ {A : Type 0} where
  -- A server that answers each request with a slice of one list.
  abbrev pub slices : List A → ℕ → Answer (List A)
  slices all offset = answered (take receipt_page_size (drop offset all))

  length-take : (n : ℕ) (xs : List A) → length xs < n → length (take n xs) ≡ length xs
  length-take zero xs h = omega (arith, h)
  length-take (suc n) [] h = refl
  length-take (suc n) (x ∷ xs) h = omega (arith, length-take n xs (omega (arith, h)))

  length-take_full : (n : ℕ) (xs : List A) → n ≤ length xs → length (take n xs) ≡ n
  length-take_full zero xs h = refl
  length-take_full (suc n) [] h = omega (arith, h)
  length-take_full (suc n) (x ∷ xs) h = omega (arith, length-take_full n xs (omega (arith, h)))

  take-short : (n : ℕ) (xs : List A) → length xs < n → take n xs ≡ xs
  take-short zero xs h = absurd (omega (arith, h))
  take-short (suc n) [] h = refl
  take-short (suc n) (x ∷ xs) h = ap (λ (ys : List A). x ∷ ys) (take-short n xs (omega (arith, h)))

  abbrev no_elements : List A
  no_elements = []

  drop-none : (n : ℕ) → drop n no_elements ≡ no_elements
  drop-none zero = refl
  drop-none (suc n) = refl

  drop-drop : (m n : ℕ) (xs : List A) → drop m (drop n xs) ≡ drop (n + m) xs
  drop-drop m zero xs = ap (λ k. drop k xs) (omega arith)
  drop-drop m (suc n) [] = drop-none m ∙ sym (drop-none (suc n + m))
  drop-drop m (suc n) (x ∷ xs) = drop-drop m n xs ∙ ap (λ k. drop k (x ∷ xs)) (shift m n)
    where
      shift : (m n : ℕ) → suc (n + m) ≡ suc n + m
      shift m n = omega arith

  list_pages-slices :
      (all : List A) (fuel offset : ℕ)
      → offset ≤ length all
      → length all < offset + fuel * receipt_page_size
      → list_pages (slices all) fuel offset ≡ listed (drop offset all)
  unfolding list_pages
  list_pages-slices all zero offset h k = absurd (omega (arith, h, k))
  list_pages-slices all (suc fuel) offset h k =
      let rest : List A = drop offset all in
      let size = length-drop offset all in
      elim (Bool-cases (ltb (length rest) receipt_page_size)) [
        | inl last ↦ rw (take-short receipt_page_size rest (ground arith), last)
        | inr more ↦
            let full : receipt_page_size ≤ length rest = ground arith in
            rw (
              length-take_full receipt_page_size rest full,
              list_pages-slices all fuel (offset + receipt_page_size) (omega (arith, size, full, h))
                  (omega (arith, k)),
              sym (drop-drop receipt_page_size offset all),
              take-append-drop receipt_page_size rest,
            )
      ]

  -- A server that has a list of receipts is asked until all of them are listed, in order: fuel for
  -- one page more than the list fills is enough.
  pub list_pages_complete :
      (all : List A) (fuel : ℕ)
      → length all < fuel * receipt_page_size
      → list_pages (slices all) fuel 0 ≡ listed all
  list_pages_complete all fuel h = list_pages-slices all fuel 0 (omega arith) (omega (arith, h))
