-- ===== src/Config/Service/State.antt =====
-- src/config/service/state.rs: the lookup of a caller's policy, with its cache.
pub mod Cache
pub mod Served
use cli_framework.Prelude.{
  ℕ, String, ℤ, Bool, true, false, ◌&&◌, List, [], ◌∷◌, Option, none, some, Map, Result, ok, err,
  eqb, if◌then◌else◌, ◌==◌,
}
use cli_framework.Json.{Value}
use cli_framework.Config.Service.Types.{
  StoredPolicy, Policy, AssignmentRule, RuleOperator, InheritanceError, StaleAction,
}
use cli_framework.Config.Service.Assignment.{resolve_profile}
use cli_framework.Config.Service.Inherit.{resolve_chain, combined_chain_version, flatten}
use cli_framework.Config.Service.Validate.{PolicyStore, by_profile}

pub data LookupFault : Type 0 where
  storage : (message : String) → LookupFault
  inheritance : InheritanceError → LookupFault
  -- the panic of `chain[0]` on an empty chain
  index_out_of_bounds : LookupFault

pub data PolicyLookupError : Type 0 where
  unmanaged : PolicyLookupError
  internal : LookupFault → PolicyLookupError

-- (application, profile, combined version)
pub record CacheKey : Type 0 where
  pub app : String
  pub profile : String
  pub version : ℕ

abbrev pub eq_key : CacheKey → CacheKey → Bool
eq_key a b = a.app == b.app && a.profile == b.profile && eqb a.version b.version

abbrev pub Cache : Type 0
Cache = List (CacheKey × Policy)

pub cached : CacheKey → Cache → Option Policy
cached key [] = none
cached key ((k, p) ∷ cache) = if eq_key k key then some p else cached key cache

pub record ConfigServiceState : Type 0 where
  pub policy_store : PolicyStore
  pub cache : Cache

pub record MatchedRule : Type 0 where
  pub ord : ℤ
  pub claim_path : Option String
  pub operator : RuleOperator
  pub value : Option Value

pub record ResolveDiagnostic : Type 0 where
  pub profile : String
  pub matched_rule : MatchedRule

reported_path : RuleOperator → String → Option String
reported_path RuleOperator.default path = none
reported_path _ path = some path

unfoldable pub resolve_diagnostic :
    ConfigServiceState → String → Value → Result PolicyLookupError ResolveDiagnostic
unfolding reported_path
resolve_diagnostic s app claims = elim (s.policy_store.assignment_rules app) [
  | err e ↦ err (internal (storage e))
  | ok rules ↦ elim (resolve_profile rules claims) [
    | none ↦ err unmanaged
    | some rule ↦ ok (record {
      profile = rule.profile;
      matched_rule = record {
        ord = rule.ord;
        claim_path = reported_path rule.operator rule.claim_path;
        operator = rule.operator;
        value = rule.value;
      };
    })
  ]
]

module _ (hash : List (String × ℕ) → ℕ) where
  -- The document built from a chain; `leaf` is its first policy.
  pub build : String → String → StoredPolicy → List StoredPolicy → Policy
  build app profile leaf chain = record {
    contract_version = 1;
    app = app;
    profile = profile;
    policy_version = combined_chain_version hash chain;
    max_cache_age_secs = leaf.max_cache_age_secs;
    stale_action = leaf.stale_action;
    enforced = (flatten chain).0;
    recommended = (flatten chain).1;
  }

  pub key_of : String → String → List StoredPolicy → CacheKey
  key_of app profile chain = record {
    app = app;
    profile = profile;
    version = combined_chain_version hash chain;
  }

  -- From the cache, or built and stored there.
  pub serve_chain :
      String → String → List StoredPolicy → Cache → Result PolicyLookupError Policy × Cache
  serve_chain app profile [] cache = (err (internal index_out_of_bounds), cache)
  serve_chain app profile (leaf ∷ rest) cache =
      elim (cached (key_of app profile (leaf ∷ rest)) cache) [
        | some p ↦ (ok p, cache)
        | none ↦ (
          ok (build app profile leaf (leaf ∷ rest)),
          (key_of app profile (leaf ∷ rest), build app profile leaf (leaf ∷ rest)) ∷ cache,
        )
      ]

  pub serve_resolved :
      String
      → String
      → Result InheritanceError (List StoredPolicy)
      → Cache
      → Result PolicyLookupError Policy × Cache
  serve_resolved app profile (ok chain) cache = serve_chain app profile chain cache
  serve_resolved app profile (err (InheritanceError.profile_not_found p)) cache =
      (err unmanaged, cache)
  serve_resolved app profile (err e) cache = (err (internal (inheritance e)), cache)

  pub serve_profile :
      PolicyStore → String → String → Cache → Result PolicyLookupError Policy × Cache
  serve_profile store app profile cache = elim (store.policies_for_app app) [
    | err e ↦ (err (internal (storage e)), cache)
    | ok policies ↦
        serve_resolved app profile (resolve_chain (by_profile policies []) profile) cache
  ]

  -- What the lookup answers, and the cache that it leaves.
  pub lookup_in : PolicyStore → String → Value → Cache → Result PolicyLookupError Policy × Cache
  lookup_in store app claims cache = elim (store.assignment_rules app) [
    | err e ↦ (err (internal (storage e)), cache)
    | ok rules ↦ elim (resolve_profile rules claims) [
      | none ↦ (err unmanaged, cache)
      | some rule ↦ serve_profile store app rule.profile cache
    ]
  ]

  unfoldable pub lookup_policy :
      ConfigServiceState → String → Value → Result PolicyLookupError Policy × ConfigServiceState
  unfolding lookup_in serve_profile serve_resolved serve_chain cached build key_of
  lookup_policy s app claims =
      let (answer, cache) = lookup_in s.policy_store app claims s.cache in
      (answer, record s { cache = cache })
