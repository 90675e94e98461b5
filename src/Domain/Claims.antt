-- ===== src/Domain/Claims.antt =====
-- unica/pkg/domain/claims.go: the tags by which the model states facts. The regular expressions are
-- matched by hand, as those of the escalation tag are.
pub mod Tidy
mod Tests
use lurus_unica.Common.{
  ℕ, zero, suc, ◌+◌, Bool, true, false, not, Option, none, some, List, [], ◌∷◌, ◌++◌, length, ◌==◌,
  if◌then◌else◌,
}
use lurus_unica.Common.Text.{Text, codes, trim_space, is_empty}
use lurus_unica.Common.Tags.{find_all, erase_all, collapse}
use lurus_unica.Domain.Escalation.{after_word, until_bracket}

pub record Claim : Type 0 where
  pub qualifiers : List Text
  pub property : Text
  pub value : Text

unfoldable pub qualified : Claim → Bool
qualified c = elim c.qualifiers [ [] ↦ false | q ∷ qs ↦ true ]

-- `[^\]=]*` up to an equals sign, and what follows it.
unfoldable pub until_equals : Text → Option (Text × Text)
until_equals [] = none
until_equals (c ∷ s) =
    let rest = until_equals s in
    if c == 61
    then some ([], s)
    else if c == 93
    then none
    else elim rest [ none ↦ none | some (k, r) ↦ some (c ∷ k, r) ]

abbrev tag_value : Text → Text → Option ((Text × Text) × ℕ)
tag_value key r = elim (until_bracket r) [
  | none ↦ none
  | some v ↦ some ((key, v), length key + length v + 7)
]

-- `(?i)\[FACT:([^\]=]+)=([^\]]*)\]` at the start of a text: the two groups, and the length.
unfoldable pub fact_at : Text → Option ((Text × Text) × ℕ)
unfolding after_word until_equals until_bracket is_empty
fact_at s = elim (after_word s (codes "[fact:")) [
  | none ↦ none
  | some r ↦ elim (until_equals r) [
    | none ↦ none
    | some (key, r') ↦ if is_empty key then none else tag_value key r'
  ]
]

-- `(?i)\[FACT:[^\]]*\]` at the start of a text.
unfoldable pub fact_tag_at : Text → Option ℕ
unfolding after_word until_bracket
fact_tag_at s = elim (after_word s (codes "[fact:")) [
  | none ↦ none
  | some r ↦ elim (until_bracket r) [ none ↦ none | some v ↦ some (length v + 6) ]
]

abbrev push_char : ℕ → List Text → List Text
push_char c [] = (c ∷ []) ∷ []
push_char c (w ∷ ws) = (c ∷ w) ∷ ws

-- `strings.Split(key, ".")`.
unfoldable pub split_dots : Text → List Text
split_dots [] = [] ∷ []
split_dots (c ∷ s) = let rest = split_dots s in if c == 46 then [] ∷ rest else push_char c rest

-- The loop of `splitKey` over the parts.
unfoldable pub keep_parts : List Text → List Text
unfolding is_empty trim_space
keep_parts [] = []
keep_parts (part ∷ ps) =
    let rest = keep_parts ps in if is_empty (trim_space part) then rest else trim_space part ∷ rest

unfoldable pub split_key : Text → List Text
unfolding split_dots keep_parts
split_key key = keep_parts (split_dots key)

-- `segments[:len-1]` and `segments[len-1]`, where there are any.
unfoldable pub unsnoc : List Text → Option (List Text × Text)
unsnoc [] = none
unsnoc (x ∷ xs) = elim (unsnoc xs) [ none ↦ some ([], x) | some (i, l) ↦ some (x ∷ i, l) ]

-- The loop of `ParseClaims` over the matches.
unfoldable pub claims_of : List (Text × Text) → List Claim
unfolding is_empty split_key unsnoc
claims_of [] = []
claims_of ((key, v) ∷ ms) =
    let rest = claims_of ms in
    let value = trim_space v in
    if is_empty value then rest else elim (unsnoc (split_key key)) [
      | none ↦ rest
      | some (qualifiers, property) ↦
          record { qualifiers = qualifiers; property = property; value = value } ∷ rest
    ]

-- `ReplaceAll(s, " \n", "\n")`.
unfoldable pub pull_breaks : Text → Text
pull_breaks [] = []
pull_breaks (c ∷ s) =
    let rest = pull_breaks s in
    if c == 32
    then elim s [ [] ↦ c ∷ rest | d ∷ ds ↦ if d == 10 then rest else c ∷ rest ]
    else c ∷ rest

unfoldable pub tidy : Text → Text
unfolding pull_breaks
tidy s = pull_breaks (collapse (trim_space s))

pub record ClaimResult : Type 0 where
  pub cleaned_answer : Text
  pub claims : List Claim

unfoldable pub parse_claims : Text → ClaimResult
unfolding claims_of tidy
parse_claims answer = record {
  cleaned_answer = tidy (erase_all fact_tag_at 0 answer);
  claims = claims_of (find_all fact_at 0 answer);
}
