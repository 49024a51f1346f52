-- ===== src/Processes/Stat.antt =====
-- Reading the start time of a process back from its line in `/proc`
-- (orchestrator/src/process/liveness.ts), as the kernel writes it.
use muslimrentals.Prelude.{
  ◌≡◌, refl, ◌∙◌, ap, sym, ℕ, Bool, true, false, not, ◌&&◌, none, some, List, [], ◌∷◌, ◌++◌, all,
  get_elem?, eqb, arith, append_assoc, append-nil,
}
use muslimrentals.Prelude.Regex.{is_space_code}
use muslimrentals.Processes.{Text, after_last_paren, after_comm, emit, split_fields, start_ticks_in}

-- A character of a field: neither white space nor `)`.
abbrev pub is_plain : ℕ → Bool
is_plain c = not (is_space_code c) && not (eqb c 41)

abbrev is_word : Text → Bool
is_word [] = false
is_word (c ∷ word) = all is_plain (c ∷ word)

-- Every field is a word.
abbrev pub are_words : List Text → Bool
are_words fields = all is_word fields

-- The fields with blanks between them, and the end of the line.
unfoldable pub spaced : List Text → Text
spaced [] = 10 ∷ []
spaced (field ∷ []) = field ++ 10 ∷ []
spaced (field ∷ next ∷ fields) = field ++ 32 ∷ spaced (next ∷ fields)

-- `pid (comm) field field …`.
unfoldable pub stat_line : Text → Text → List Text → Text
stat_line pid comm fields = (pid ++ (32 ∷ 40 ∷ comm)) ++ (41 ∷ 32 ∷ spaced fields)

no_paren : (text : Text) → all (λ c. not (eqb c 41)) text ≡ true → after_last_paren text ≡ none
unfolding after_last_paren
no_paren [] h = refl
no_paren (c ∷ text) h = rw (no_paren text (ground (arith, h))) (ground (arith, h))

last_paren :
    (front back : Text)
    → after_last_paren back ≡ none
    → after_last_paren (front ++ 41 ∷ back) ≡ some back
unfolding after_last_paren
last_paren [] back h = rw h refl
last_paren (c ∷ front) back h = rw (last_paren front back h) refl

all-append : (p : ℕ → Bool) (xs ys : Text) → all p (xs ++ ys) ≡ (all p xs && all p ys)
all-append p [] ys = refl
all-append p (x ∷ xs) ys = ground (arith, all-append p xs ys)

plain-no_paren : (word : Text) → all is_plain word ≡ true → all (λ c. not (eqb c 41)) word ≡ true
plain-no_paren [] h = refl
plain-no_paren (c ∷ word) h = ground (arith, h, plain-no_paren word)

word-plain : (word : Text) → is_word word ≡ true → all is_plain word ≡ true
word-plain [] h = cc
word-plain (c ∷ word) h = h

spaced-no_paren :
    (fields : List Text)
    → are_words fields ≡ true
    → all (λ c. not (eqb c 41)) (spaced fields) ≡ true
unfolding spaced
spaced-no_paren [] h = refl
spaced-no_paren (field ∷ []) h =
    all-append (λ c. not (eqb c 41)) field (10 ∷ [])
    ∙ ground (arith, plain-no_paren field (word-plain field (ground (arith, h))))
spaced-no_paren (field ∷ next ∷ fields) h =
    all-append (λ c. not (eqb c 41)) field (32 ∷ spaced (next ∷ fields))
    ∙ ground (
      arith,
      plain-no_paren field (word-plain field (ground (arith, h))),
      spaced-no_paren (next ∷ fields) (ground (arith, h)),
    )

-- A word up to the white space behind it.
split_fields-word :
    (word field : Text) (space : ℕ) (rest : Text)
    → all is_plain field ≡ true
    → is_space_code space ≡ true
    → split_fields word (field ++ space ∷ rest) ≡ emit (word ++ field) (split_fields [] rest)
unfolding split_fields
split_fields-word word [] space rest h s =
    rw s (ap (λ w. emit w (split_fields [] rest)) (sym (append-nil word)))
split_fields-word word (c ∷ field) space rest h s =
    let solid : is_space_code c ≡ false = ground (arith, h) in
    rw solid (
      split_fields-word (word ++ c ∷ []) field space rest (ground (arith, h)) s
      ∙ ap (λ w. emit w (split_fields [] rest)) (append_assoc word (c ∷ []) field))

emit-word :
    (word : Text) (fields : List Text) → is_word word ≡ true → emit word fields ≡ word ∷ fields
emit-word [] fields h = cc
emit-word (c ∷ word) fields h = refl

split_fields-spaced :
    (fields : List Text) → are_words fields ≡ true → split_fields [] (spaced fields) ≡ fields
unfolding spaced split_fields is_space_code
split_fields-spaced [] h = refl
split_fields-spaced (field ∷ []) h =
    let word : is_word field ≡ true = ground (arith, h) in
    split_fields-word [] field 10 [] (word-plain field word) refl ∙ emit-word field [] word
split_fields-spaced (field ∷ next ∷ fields) h =
    let word : is_word field ≡ true = ground (arith, h) in
    split_fields-word [] field 32 (spaced (next ∷ fields)) (word-plain field word) refl
    ∙ (emit-word field _ word
        ∙ ap (λ f. field ∷ f) (split_fields-spaced (next ∷ fields) (ground (arith, h))))

-- The start time is read back from the line of a process, whatever stands in the name of its
-- command, blanks and parentheses too: it is the twentieth field behind the name.
pub start_ticks_in-stat_line :
    (pid comm : Text) (fields : List Text)
    → are_words fields ≡ true
    → start_ticks_in (stat_line pid comm fields) ≡ get_elem? fields 19
unfolding start_ticks_in stat_line after_comm
start_ticks_in-stat_line pid comm fields h =
    let behind : all (λ c. not (eqb c 41)) (32 ∷ spaced fields) ≡ true =
      ground (arith, spaced-no_paren fields h) in
    let found : after_last_paren ((pid ++ (32 ∷ 40 ∷ comm)) ++ (41 ∷ 32 ∷ spaced fields))
        ≡ some (32 ∷ spaced fields) =
      last_paren (pid ++ (32 ∷ 40 ∷ comm)) (32 ∷ spaced fields)
        (no_paren (32 ∷ spaced fields) behind) in
    rw found (ap (λ f. get_elem? f 19) (split_fields-spaced fields h))
