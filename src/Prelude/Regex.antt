-- ===== src/Prelude/Regex.antt =====
-- The regular expressions of the source: `RegExp.prototype.test` with the flag `i`, on the codes of a
-- text. Only the letters A to Z have another case.
use Prim.Native.Char.{code}
use Prim.Native.Nat.{ℕ, zero, suc, ◌+◌}
use Prim.Native.String.{String}
use mathlib.Core.Bool.{Bool, true, false, not, ◌&&◌, ◌||◌}
use mathlib.Core.Option.{Option, none, some}
use mathlib.Core.List.{List, [], ◌∷◌, ◌++◌, map}
use muslimrentals.Prelude.Tests.{if◌then◌else◌, leb, eqb}
use muslimrentals.Prelude.Lists.{flatten, any}

unfoldable pub codes : String → List ℕ
codes String.[] = []
codes (String.◌∷◌ c s) = code c ∷ codes s

unfoldable pub lower_code : ℕ → ℕ
lower_code c = if leb b'A' c && leb c b'Z' then c + 32 else c

unfoldable pub is_word_code : ℕ → Bool
is_word_code c =
    let l = lower_code c in (leb b'a' l && leb l b'z') || ((leb b'0' c && leb c b'9') || eqb c b'_')

-- `\s`.
unfoldable pub is_space_code : ℕ → Bool
is_space_code c =
    (leb 9 c && leb c 13)
    || (any (λ s. eqb c s) (32 ∷ 160 ∷ 5760 ∷ 8232 ∷ 8233 ∷ 8239 ∷ 8287 ∷ 12288 ∷ 65279 ∷ [])
        || (leb 8192 c && leb c 8202))

pub data Regex : Type 0 where
  empty : Regex
  one : (ℕ → Bool) → Regex
  at_boundary : Regex
  many : (ℕ → Bool) → Regex
  up_to : ℕ → (ℕ → Bool) → Regex
  followed_by either : Regex → Regex → Regex

-- The code before a place in the text, and the codes from the place on.
pub record Place : Type 0 where
  pub before : Option ℕ
  pub rest : List ℕ

abbrev word_before : Option ℕ → Bool
word_before none = false
word_before (some c) = is_word_code c

abbrev word_after : List ℕ → Bool
word_after [] = false
word_after (c ∷ cs) = is_word_code c

abbrev is_boundary : Place → Bool
is_boundary place =
    if word_before place.before then not (word_after place.rest) else word_after place.rest

abbrev step_over : (ℕ → Bool) → List ℕ → List Place
step_over p [] = []
step_over p (c ∷ cs) = if p c then record { before = some c; rest = cs } ∷ [] else []

-- The places after one or more codes that pass a test.
unfoldable pub over_many : (ℕ → Bool) → List ℕ → List Place
over_many p [] = []
over_many p (c ∷ cs) =
    let further = over_many p cs in
    if p c then record { before = some c; rest = cs } ∷ further else []

-- The places after at most so many codes that pass a test.
unfoldable pub over_up_to : (ℕ → Bool) → ℕ → Place → List Place
over_up_to p zero place = place ∷ []
over_up_to p (suc n) place =
    place ∷ flatten (map (λ next. over_up_to p n next) (step_over p place.rest))

-- The places where a match that starts at a place can end.
unfoldable pub ends : Regex → Place → List Place
ends empty place = place ∷ []
ends (one p) place = step_over p place.rest
ends at_boundary place = if is_boundary place then place ∷ [] else []
ends (many p) place = over_many p place.rest
ends (up_to n p) place = over_up_to p n place
ends (followed_by r s) place = flatten (map (λ next. ends s next) (ends r place))
ends (either r s) place = ends r place ++ ends s place

abbrev pub is_match : Regex → Place → Bool
is_match r place = any (λ p. true) (ends r place)

unfoldable pub matches_from : Regex → Option ℕ → List ℕ → Bool
matches_from r before [] = is_match r (record { before = before; rest = [] })
matches_from r before (c ∷ cs) =
    is_match r (record { before = before; rest = c ∷ cs }) || matches_from r (some c) cs

-- `regex.test(text)`.
unfoldable pub test : Regex → String → Bool
test r text = matches_from r none (codes text)

-- Notation for the patterns of the source.
abbrev pub lower_is : ℕ → ℕ → Bool
lower_is l c = eqb (lower_code c) l

unfoldable pub literal_codes : List ℕ → Regex
literal_codes [] = empty
literal_codes (c ∷ cs) = followed_by (one (lower_is c)) (literal_codes cs)

-- A text in lower case, letter by letter.
unfoldable pub literal : String → Regex
literal s = literal_codes (codes s)

unfoldable pub sequence : List Regex → Regex
sequence [] = empty
sequence (r ∷ rs) = followed_by r (sequence rs)

unfoldable pub choice : List Regex → Regex
choice [] = empty
choice (r ∷ []) = r
choice (r ∷ s ∷ rs) = either r (choice (s ∷ rs))

unfoldable pub optional : Regex → Regex
optional r = either r empty

unfoldable pub words_of : List String → Regex
words_of ws = choice (map literal ws)

-- `\s+` and `\s*`.
unfoldable pub spaces : Regex
spaces = many is_space_code

unfoldable pub maybe_spaces : Regex
maybe_spaces = optional spaces

-- `[^.]{0,40}`.
unfoldable pub gap : Regex
gap = up_to 40 (λ c. not (eqb c b'.'))
