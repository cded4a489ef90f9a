-- ===== src/Config/Service/Assignment.antt =====
-- src/config/service/assignment.rs: the first rule, by ascending `ord`, that matches the claims.
pub mod Laws
use cli_framework.Prelude.{
  String, Bool, true, false, List, [], ◌∷◌, Option, none, some, ltb_ℤ, find, any, is_some,
  if◌then◌else◌,
}
use cli_framework.Prelude.Maps.{lookup}
use cli_framework.Prelude.Text.{split}
use cli_framework.Json.{Value, array, items, as_object, eq_value}
use cli_framework.Config.Service.Types.{
  AssignmentRule, RuleOperator, equals, contains, exists, default,
}

descend : Value → List String → Option Value
descend current [] = some current
descend current (segment ∷ path) = elim (as_object current) [
  | none ↦ none
  | some m ↦ elim (lookup segment m) [ none ↦ none | some inner ↦ descend inner path ]
]

unfoldable pub claim_at_path : Value → String → Option Value
unfolding descend
claim_at_path claims path = descend claims (split b'.' path)

-- `expected.is_some_and(|e| actual == e)`
equals_expected : Value → Option Value → Bool
equals_expected actual none = false
equals_expected actual (some expected) = eq_value actual expected

contains_expected : Option Value → Option Value → Bool
contains_expected (some (array vs)) (some expected) = any (λ v. eq_value v expected) (items vs)
contains_expected _ _ = false

matches_operator : RuleOperator → Option Value → Option Value → Bool
unfolding equals_expected contains_expected
matches_operator default actual expected = true
matches_operator exists actual expected = is_some actual
matches_operator equals none expected = false
matches_operator equals (some actual) expected = equals_expected actual expected
matches_operator contains actual expected = contains_expected actual expected

unfoldable pub rule_matches : AssignmentRule → Value → Bool
unfolding matches_operator
rule_matches rule claims =
    matches_operator rule.operator (claim_at_path claims rule.claim_path) rule.value

-- `sort_by_key(|r| r.ord)`, which is stable.
insert_by_ord : AssignmentRule → List AssignmentRule → List AssignmentRule
insert_by_ord r [] = r ∷ []
insert_by_ord r (s ∷ rules) = if ltb_ℤ r.ord s.ord then r ∷ s ∷ rules else s ∷ insert_by_ord r rules

sort_by_ord : List AssignmentRule → List AssignmentRule → List AssignmentRule
sort_by_ord sorted [] = sorted
sort_by_ord sorted (r ∷ rules) = sort_by_ord (insert_by_ord r sorted) rules

unfoldable pub resolve_profile : List AssignmentRule → Value → Option AssignmentRule
unfolding sort_by_ord insert_by_ord
resolve_profile rules claims = find (λ rule. rule_matches rule claims) (sort_by_ord [] rules)
