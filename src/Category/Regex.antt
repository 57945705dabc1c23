-- ===== src/Category/Regex.antt =====
-- The regular expressions of mobile/src/categories/*.ts, as data, and `pattern.test(text)`.
-- The syntax is what those files use: literals, a class, `.*`, `.?`, `\s+`, `\w*` and a group of
-- alternatives. Every pattern has the flag `i`, so units are compared after case folding.
use Prim.Native.String.{String}
use foodler.Common.{ℕ, Bool, true, false, ◌&&◌, ◌||◌, not, List, [], ◌∷◌, map, leb, ◌==◌, any}
use foodler.Text.{Text, codes, is_space}

pub data Piece : Type 0 where
  unit : ℕ → Piece
  one_of : Text → Piece
  group : List Text → Piece
  anything anything_once spaces word_units : Piece

abbrev pub Regex : Type 0
Regex = List Piece

abbrev pub lit : String → Regex
lit s = map unit (codes s)

-- categories/types.ts
pub record CategoryRule : Type 0 where
  pub category : Text
  pub patterns : List Regex

-- `.` matches no line terminator.
abbrev pub is_dot : ℕ → Bool
is_dot c = not (c == 10 || c == 13 || c == 0x2028 || c == 0x2029)

-- `\w`
abbrev pub is_word : ℕ → Bool
is_word c =
    (leb b'a' c && leb c b'z')
    || (leb b'A' c && leb c b'Z')
    || (leb b'0' c && leb c b'9')
    || c == b'_'

-- The rest of a match is a test of the text that remains, tried at each way to match the piece.
module _ (test : ℕ → Bool) (next : Text → Bool) where
  unfoldable pub once : Text → Bool
  once [] = false
  once (c ∷ t) = test c && next t

  unfoldable pub star : Text → Bool
  star [] = next []
  star (c ∷ t) = next (c ∷ t) || (test c && star t)

module _ (fold : ℕ → ℕ) where
  abbrev pub same_unit : ℕ → ℕ → Bool
  same_unit c d = fold c == fold d

  unfoldable pub word : Text → (Text → Bool) → Text → Bool
  word [] next t = next t
  word (c ∷ w) next [] = false
  word (c ∷ w) next (d ∷ t) = same_unit c d && word w next t

  unfoldable pub match_piece : Piece → (Text → Bool) → Text → Bool
  unfolding once star word
  match_piece (unit c) next t = once (same_unit c) next t
  match_piece (one_of cs) next t = once (λ d. any (λ c. same_unit c d) cs) next t
  match_piece (group words) next t = any (λ w. word w next t) words
  match_piece anything next t = star is_dot next t
  match_piece anything_once next t = once is_dot next t || next t
  match_piece spaces next t = once is_space (star is_space next) t
  match_piece word_units next t = star is_word next t

  unfoldable pub match_here : Regex → Text → Bool
  unfolding match_piece
  match_here [] t = true
  match_here (p ∷ r) t = match_piece p (match_here r) t

  -- `pattern.test(text)`: a match may begin anywhere.
  unfoldable pub test_regex : Regex → Text → Bool
  unfolding match_here
  test_regex r [] = match_here r []
  test_regex r (c ∷ t) = match_here r (c ∷ t) || test_regex r t
