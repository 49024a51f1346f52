-- ===== src/Gate.antt =====
-- The founder approval gate (orchestrator/src/approval/founderGate.ts). The contents of CLAUDE.md,
-- which the source reads from the disk, are an argument.
pub mod Required
mod Examples
use Prim.Native.Char.{Char, code}
use Prim.Native.String
use muslimrentals.Prelude.{
  ℕ, String, Bool, true, false, not, ◌&&◌, ◌||◌, Option, none, some, List, [], ◌∷◌, ◌++◌, find,
  filter, map, any, or_default, eqb, if◌then◌else◌, template,
}
use muslimrentals.Prelude.Regex.{
  Regex, empty, at_boundary, one, many, codes, is_space_code, is_match, test, lower_code, literal,
  literal_codes, sequence, optional, words_of, spaces, maybe_spaces, gap, matches_from, choice,
}
use muslimrentals.Planner.{FounderGateResult}

pub record Category : Type 0 where
  pub key : String
  pub bullet_substring : String
  pub fallback_label : String
  pub patterns : List Regex

-- `\bW\b`.
abbrev bounded : Regex → Regex
bounded r = sequence (at_boundary ∷ r ∷ at_boundary ∷ [])

abbrev lit : String → Regex
lit s = literal s

-- A word with an optional ending, `bas(e|f)?`.
abbrev ending : String → List String → Regex
ending stem ends = sequence (literal stem ∷ optional (words_of ends) ∷ [])

unfoldable pub production_deployment : Category
production_deployment = record {
  key = "production_deployment";
  bullet_substring = "production deployment";
  fallback_label = "production deployment";
  patterns =
      bounded (ending "deploy" ("ment" ∷ "ing" ∷ "s" ∷ []))
      ∷ sequence
          (at_boundary ∷ ending "ship" ("ping" ∷ []) ∷ spaces ∷ lit "to" ∷ spaces ∷ lit "prod" ∷ [])
      ∷ bounded (sequence (lit "release" ∷ spaces ∷ lit "to" ∷ spaces ∷ lit "production" ∷ []))
      ∷ bounded (sequence (lit "go" ∷ spaces ∷ lit "live" ∷ []))
      ∷ [];
}

unfoldable pub irreversible_production_changes : Category
irreversible_production_changes = record {
  key = "irreversible_production_changes";
  bullet_substring = "irreversible production changes";
  fallback_label = "irreversible production changes";
  patterns = bounded (lit "irreversible") ∷ [];
}

unfoldable pub deleting_production_data : Category
deleting_production_data = record {
  key = "deleting_production_data";
  bullet_substring = "deleting production data";
  fallback_label = "deleting production data";
  patterns =
      sequence (
        at_boundary
        ∷ lit "delete"
        ∷ gap
        ∷ bounded (words_of ("production" ∷ "prod" ∷ "user" ∷ []))
        ∷ gap
        ∷ bounded (lit "data")
        ∷ [])
      ∷ bounded (sequence (lit "drop" ∷ spaces ∷ words_of ("table" ∷ "column" ∷ []) ∷ []))
      ∷ sequence (bounded (lit "purge") ∷ gap ∷ bounded (lit "data") ∷ [])
      ∷ sequence (bounded (lit "wipe") ∷ gap ∷ bounded (words_of ("database" ∷ "data" ∷ [])) ∷ [])
      ∷ [];
}

unfoldable pub permanent_account_bans : Category
permanent_account_bans = record {
  key = "permanent_account_bans";
  bullet_substring = "permanent account bans";
  fallback_label = "permanent account bans";
  patterns =
      bounded (ending "ban" ("s" ∷ "ned" ∷ "ning" ∷ []))
      ∷ sequence (at_boundary ∷ ending "permanent" ("ly" ∷ []) ∷ spaces ∷ lit "suspend" ∷ [])
      ∷ [];
}

unfoldable pub publishing_legal_policies : Category
publishing_legal_policies = record {
  key = "publishing_legal_policies";
  bullet_substring = "publishing legal policies";
  fallback_label = "publishing legal policies";
  patterns =
      sequence (
        bounded (lit "publish")
        ∷ gap
        ∷ bounded (words_of ("terms" ∷ "privacy" ∷ "policy" ∷ "policies" ∷ []))
        ∷ [])
      ∷ bounded (sequence (lit "legal" ∷ spaces ∷ words_of ("policy" ∷ "policies" ∷ []) ∷ []))
      ∷ bounded (sequence (lit "terms" ∷ spaces ∷ lit "of" ∷ spaces ∷ lit "service" ∷ []))
      ∷ [];
}

unfoldable pub spending_money : Category
spending_money = record {
  key = "spending_money";
  bullet_substring = "spending money";
  fallback_label = "spending money";
  patterns =
      bounded (sequence (ending "spend" ("ing" ∷ []) ∷ spaces ∷ lit "money" ∷ []))
      ∷ bounded (lit "purchase")
      ∷ bounded (lit "payment")
      ∷ bounded (lit "billing")
      ∷ bounded (lit "subscription")
      ∷ bounded (sequence (lit "paid" ∷ spaces ∷ words_of ("plan" ∷ "tier" ∷ []) ∷ []))
      ∷ [];
}

abbrev auth : Regex
auth = bounded (ending "auth" ("entication" ∷ []))

unfoldable pub major_auth_security_changes : Category
major_auth_security_changes = record {
  key = "major_auth_security_changes";
  bullet_substring = "authentication/security changes";
  fallback_label = "major authentication/security changes";
  patterns =
      sequence (
        bounded (words_of ("rewrite" ∷ "overhaul" ∷ "redesign" ∷ "replace" ∷ [])) ∷ gap ∷ auth ∷ [])
      ∷ sequence (auth ∷ gap ∷ bounded (words_of ("rewrite" ∷ "overhaul" ∷ "redesign" ∷ [])) ∷ [])
      ∷ sequence (
          bounded (lit "security")
          ∷ gap
          ∷ bounded (words_of ("overhaul" ∷ "rewrite" ∷ "redesign" ∷ []))
          ∷ [])
      ∷ [];
}

unfoldable pub major_architecture_rewrites : Category
major_architecture_rewrites = record {
  key = "major_architecture_rewrites";
  bullet_substring = "architecture rewrites";
  fallback_label = "major architecture rewrites";
  patterns =
      sequence (bounded (lit "rewrite") ∷ gap ∷ bounded (lit "architecture") ∷ [])
      ∷ sequence (bounded (lit "architecture") ∷ gap ∷ bounded (lit "rewrite") ∷ [])
      ∷ sequence (
          bounded (lit "migrate")
          ∷ gap
          ∷ bounded (words_of ("framework" ∷ "database engine" ∷ "stack" ∷ []))
          ∷ [])
      ∷ [];
}

unfoldable pub categories : List Category
categories =
    production_deployment ∷ irreversible_production_changes ∷ deleting_production_data
    ∷ permanent_account_bans ∷ publishing_legal_policies ∷ spending_money
    ∷ major_auth_security_changes ∷ major_architecture_rewrites ∷ []

unfoldable pub chars : String → List Char
chars String.[] = []
chars (String.◌∷◌ c s) = c ∷ chars s

unfoldable pub text_of : List Char → String
text_of [] = ""
text_of (c ∷ cs) = String.◌∷◌ c (text_of cs)

-- `md.split('\n')`, with the line that is being read.
unfoldable pub split_lines : List Char → List Char → List (List Char)
split_lines line [] = line ∷ []
split_lines line (c ∷ cs) =
    let rest = split_lines [] cs in
    let longer = split_lines (line ++ c ∷ []) cs in
    if eqb (code c) b'\n' then line ∷ rest else longer

unfoldable pub trim_start : List Char → List Char
trim_start [] = []
trim_start (c ∷ cs) = let rest = trim_start cs in if is_space_code (code c) then rest else c ∷ cs

unfoldable pub trim_end : List Char → List Char
trim_end [] = []
trim_end (c ∷ cs) = elim (trim_end cs) [
  | [] ↦ if is_space_code (code c) then [] else c ∷ []
  | d ∷ ds ↦ c ∷ d ∷ ds
]

unfoldable pub trim : List Char → List Char
trim cs = trim_end (trim_start cs)

-- A match of a pattern that is anchored by `^`.
abbrev starts : Regex → List Char → Bool
starts r line = is_match r (record { before = none; rest = map code line })

unfoldable pub is_founder_heading : List Char → Bool
is_founder_heading line =
    starts (sequence (lit "##" ∷ spaces ∷ lit "founder authority" ∷ [])) (trim line)

unfoldable pub is_heading : List Char → Bool
is_heading line = starts (sequence (lit "##" ∷ spaces ∷ [])) (trim line)

-- `.` matches no line terminator.
abbrev is_terminator : Char → Bool
is_terminator c = any (λ t. eqb (code c) t) (10 ∷ 13 ∷ 8232 ∷ 8233 ∷ [])

-- `/^\s*-\s+(.*)$/`, and the group of it trimmed: spaces are taken as far as they go, and what
-- follows must hold no line terminator.
abbrev after_dash : List Char → Option (List Char)
after_dash [] = none
after_dash (c ∷ cs) =
    if is_space_code (code c)
    then (if any is_terminator (trim_start cs) then none else some (trim cs))
    else none

unfoldable pub bullet : List Char → Option (List Char)
bullet line = elim (trim_start line) [
  | [] ↦ none
  | c ∷ cs ↦ if eqb (code c) b'-' then after_dash cs else none
]

-- The lines up to the next heading.
unfoldable pub section_bullets : List (List Char) → List (List Char)
section_bullets [] = []
section_bullets (line ∷ lines) =
    let rest = section_bullets lines in
    if is_heading line then [] else elim (bullet line) [ none ↦ rest | some b ↦ b ∷ rest ]

unfoldable pub after_heading : List (List Char) → List (List Char)
after_heading [] = []
after_heading (line ∷ lines) =
    let rest = after_heading lines in
    if is_founder_heading line then section_bullets lines else rest

unfoldable pub parse_founder_authority_bullets : String → List String
parse_founder_authority_bullets claude_md =
    map text_of (after_heading (split_lines [] (chars claude_md)))

-- `toLowerCase`, for the letters A to Z, and `includes`.
unfoldable pub has_part : String → String → Bool
has_part part text = test (literal part) text

unfoldable pub find_bullet : List String → String → Option String
find_bullet bullets substring = find (has_part substring) bullets

abbrev pub is_matched : String → Category → Bool
is_matched text category = any (λ p. test p text) category.patterns

unfoldable pub reason_for : List String → Category → String
reason_for bullets category = or_default (find_bullet bullets category.bullet_substring) (
    template (
      category.fallback_label ∷ " (CLAUDE.md wording not found verbatim — using built-in category)"
      ∷ []))

abbrev pub is_non_empty_list {ℓ} : {A : Type ℓ} → List A → Bool
is_non_empty_list [] = false
is_non_empty_list (x ∷ xs) = true

unfoldable pub evaluate_founder_gate : String → String → FounderGateResult
evaluate_founder_gate text claude_md =
    let bullets = parse_founder_authority_bullets claude_md in
    let reasons = map (reason_for bullets) (filter (is_matched text) categories) in
    record { required = is_non_empty_list reasons; reasons = reasons }
