-- ===== src/Config/Service/State/Cache.antt =====
-- The cache of resolved policies is transparent (src/config/service/state.rs).
use cli_framework.Prelude.{
  ℕ, String, ◌≡◌, refl, ◌∙◌, ap, subst, true, List, [], ◌∷◌, some, map, Result, ok, err, All,
  All-In, In, here, there, arith, eq_iff, Bool-cases, Option-cases, inl, inr,
}
use mathlib.Core.Path.{ap₂}
use cli_framework.Json.{Value}
use cli_framework.Config.Service.Types.{StoredPolicy, Policy, AssignmentRule, InheritanceError}
use cli_framework.Config.Service.Assignment.{resolve_profile}
use cli_framework.Config.Service.Inherit.{resolve_chain}
use cli_framework.Config.Service.Validate.{PolicyStore, by_profile}
use cli_framework.Config.Service.State.{
  CacheKey, eq_key, Cache, cached, ConfigServiceState, PolicyLookupError, build, key_of,
  serve_chain, serve_resolved, serve_profile, lookup_in, lookup_policy,
}

eq_key_sound : (a b : CacheKey) → eq_key a b ≡ true → a ≡ b
eq_key_sound a b h = ground (arith, eq_iff a.app b.app, eq_iff a.profile b.profile)

cached-In :
    (key : CacheKey) (cache : Cache) (p : Policy) → cached key cache ≡ some p → In (key, p) cache
unfolding cached
cached-In key [] p h = cc
cached-In key ((k, q) ∷ cache) p h = elim (Bool-cases (eq_key k key)) [
  | inl e ↦ here (ground (arith, eq_key_sound k key e))
  | inr e ↦ there (cached-In key cache p (rw (e, cached) at h))
]

module _ (hash : List (String × ℕ) → ℕ) (store : PolicyStore) where
  -- An entry of the cache holds what the lookup would build.
  pub record IsFresh (key : CacheKey) (policy : Policy) : Type 0 where
    pub policies : List StoredPolicy
    pub leaf : StoredPolicy
    pub rest : List StoredPolicy
    pub stored : store.policies_for_app key.app ≡ ok policies
    pub chain : resolve_chain (by_profile policies []) key.profile ≡ ok (leaf ∷ rest)
    pub built : policy ≡ build hash key.app key.profile leaf (leaf ∷ rest)

  abbrev pub IsCoherent : Cache → Type 0
  IsCoherent cache = All (λ e. IsFresh e.0 e.1) cache

  entry_is_built :
      (app profile : String) (policies : List StoredPolicy) (leaf : StoredPolicy)
      (rest : List StoredPolicy) (p : Policy)
      → store.policies_for_app app ≡ ok policies
      → resolve_chain (by_profile policies []) profile ≡ ok (leaf ∷ rest)
      → IsFresh (key_of hash app profile (leaf ∷ rest)) p
      → p ≡ build hash app profile leaf (leaf ∷ rest)
  unfolding key_of
  entry_is_built app profile policies leaf rest p s c f =
      let same : f.policies ≡ policies = cc (s, f.stored) in
      let chains =
        subst (λ ps. resolve_chain (by_profile ps []) profile ≡ ok (f.leaf ∷ f.rest)) same
          f.chain in
      let l : f.leaf ≡ leaf = cc (chains, c) in
      let r : f.rest ≡ rest = cc (chains, c) in
      f.built ∙ ap₂ (λ a b. build hash app profile a (a ∷ b)) l r

  serve_chain-IsCoherent :
      (app profile : String) (policies chain : List StoredPolicy) (cache : Cache)
      → store.policies_for_app app ≡ ok policies
      → resolve_chain (by_profile policies []) profile ≡ ok chain
      → IsCoherent cache
      → ((serve_chain hash app profile chain cache).0 ≡ (serve_chain hash app profile chain []).0)
        × IsCoherent (serve_chain hash app profile chain cache).1
  unfolding serve_chain cached
  serve_chain-IsCoherent app profile policies [] cache s c h = (refl, h)
  serve_chain-IsCoherent app profile policies (leaf ∷ rest) cache s c h =
      elim (Option-cases (cached (key_of hash app profile (leaf ∷ rest)) cache)) [
        | inl e ↦
            rw (e, serve_chain)
              (
                refl,
                (
                  record {
                    policies = policies;
                    leaf = leaf;
                    rest = rest;
                    stored = unfold key_of in s;
                    chain = unfold key_of in c;
                    built = unfold key_of in refl;
                  },
                  h,
                ),
              )
        | inr (p, e) ↦
            rw (e, serve_chain)
              (
                ap ok (
                    entry_is_built app profile policies leaf rest p s c (
                      All-In (λ x. IsFresh x.0 x.1) cache (key_of hash app profile (leaf ∷ rest), p)
                        h (cached-In _ cache p e))),
                h,
              )
      ]

  serve_resolved-IsCoherent :
      (app profile : String) (policies : List StoredPolicy) (cache : Cache)
      → store.policies_for_app app ≡ ok policies
      → (r : Result InheritanceError (List StoredPolicy))
      → resolve_chain (by_profile policies []) profile ≡ r
      → IsCoherent cache
      → ((serve_resolved hash app profile r cache).0 ≡ (serve_resolved hash app profile r []).0)
        × IsCoherent (serve_resolved hash app profile r cache).1
  unfolding serve_resolved
  serve_resolved-IsCoherent app profile policies cache s (ok chain) c h =
      serve_chain-IsCoherent app profile policies chain cache s c h
  serve_resolved-IsCoherent app profile policies cache s
        (err (InheritanceError.profile_not_found p)) c h =
      (refl, h)
  serve_resolved-IsCoherent app profile policies cache s (err (InheritanceError.missing_parent p q))
        c h =
      (refl, h)
  serve_resolved-IsCoherent app profile policies cache s (err (InheritanceError.cycle p)) c h =
      (refl, h)

  serve_profile-IsCoherent :
      (app profile : String) (cache : Cache) (r : Result String (List StoredPolicy))
      → store.policies_for_app app ≡ r
      → IsCoherent cache
      → ((serve_profile hash store app profile cache).0
          ≡ (serve_profile hash store app profile []).0)
        × IsCoherent (serve_profile hash store app profile cache).1
  unfolding serve_profile
  serve_profile-IsCoherent app profile cache (ok policies) s h =
      rw (s, serve_profile)
        (serve_resolved-IsCoherent app profile policies cache s
          (resolve_chain (by_profile policies []) profile) refl h)
  serve_profile-IsCoherent app profile cache (err e) s h = rw (s, serve_profile) (refl, h)

  pub lookup_in-IsCoherent :
      (app : String) (claims : Value) (cache : Cache) (r : Result String (List AssignmentRule))
      → store.assignment_rules app ≡ r
      → IsCoherent cache
      → ((lookup_in hash store app claims cache).0 ≡ (lookup_in hash store app claims []).0)
        × IsCoherent (lookup_in hash store app claims cache).1
  unfolding lookup_in
  lookup_in-IsCoherent app claims cache (err e) s h = rw (s, lookup_in) (refl, h)
  lookup_in-IsCoherent app claims cache (ok rules) s h =
      elim (Option-cases (resolve_profile rules claims)) [
        | inl e ↦ rw (s, e, lookup_in) (refl, h)
        | inr (rule, e) ↦
            rw (s, e, lookup_in)
              (serve_profile-IsCoherent app rule.profile cache (store.policies_for_app app) refl h)
      ]

-- The answers of a sequence of lookups, one after the other.
pub run :
    (List (String × ℕ) → ℕ)
    → ConfigServiceState
    → List (String × Value)
    → List (Result PolicyLookupError Policy)
run hash s [] = []
run hash s ((app, claims) ∷ requests) =
    (lookup_policy hash s app claims).0 ∷ run hash (lookup_policy hash s app claims).1 requests

abbrev pub uncached :
    (List (String × ℕ) → ℕ) → PolicyStore → String × Value → Result PolicyLookupError Policy
uncached hash store request = (lookup_in hash store request.0 request.1 []).0

-- While the store does not change, any sequence of lookups, starting from a cache whose entries
-- were built from that store, answers each request as a lookup without a cache does.
pub run-eq-uncached :
    (hash : List (String × ℕ) → ℕ) (s : ConfigServiceState) (requests : List (String × Value))
    → IsCoherent hash s.policy_store s.cache
    → run hash s requests ≡ map (uncached hash s.policy_store) requests
unfolding run lookup_policy
run-eq-uncached hash s [] h = refl
run-eq-uncached hash s ((app, claims) ∷ requests) h =
    let (same, kept) =
      lookup_in-IsCoherent hash s.policy_store app claims s.cache
        (s.policy_store.assignment_rules app) refl h in
    ap₂ (λ a b. a ∷ b) same (run-eq-uncached hash (lookup_policy hash s app claims).1 requests kept)
