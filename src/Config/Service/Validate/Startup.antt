-- ===== src/Config/Service/Validate/Startup.antt =====
-- What a successful validation at startup establishes (src/config/service/validate.rs).
use cli_framework.Prelude.{
  String, ℤ, ◌≡◌, refl, sym, ◌∙◌, subst, ◌↔◌, Bool, true, false, not, ◌&&◌, List, [], ◌∷◌, Option,
  none, some, Map, Result, ok, err, keep, map, All, All-In, All-of-In, In, not-In-nil, here, there,
  ◌⊎◌, is_some, append-eq-nil, ltb_ℤ, eqb_ℤ, eqb_ℤ_iff, ◌≤ℤ◌, ≤ℤ-refl, ≤ℤ-trans, <ℤ-le, ≤ℤ-antisym,
  arith, Bool-cases, Option-cases, inl, inr, ◌==◌, eq_iff,
}
use cli_framework.Prelude.Maps.{lookup, insert, lookup-insert}
use cli_framework.Json.{Value, Float}
use cli_framework.Config.Manifest.{ConfigManifest}
use cli_framework.Config.Service.Types.{
  StoredPolicy, AssignmentRule, RuleOperator, PolicyValidationError, InheritanceError,
}
use cli_framework.Config.Service.Inherit.{resolve_chain}
use cli_framework.Config.Service.Inherit.Chain.{resolve_chain-not_found}
use cli_framework.Config.Service.Validate.{
  PolicyStore, by_profile, max_ord, is_default, default_rule_not_last_errors,
  assignment_rule_missing_profile_errors, rules_errors, chain_error, chain_errors,
  missing_manifests, stored_errors, policies_errors, loaded_errors, manifest_errors, app_errors,
  apps_errors, validated, validate_all,
}

module _ {A B : Type 0} (p : A → Bool) (f : A → B) where
  map-keep-nil : (xs : List A) → map f (keep p xs) ≡ [] → All (λ a. p a ≡ false) xs
  map-keep-nil [] h = tt
  map-keep-nil (x ∷ xs) h = elim (Bool-cases (p x)) [
    | inl e ↦ cc (rw e at h)
    | inr e ↦ (e, map-keep-nil xs (rw e at h))
  ]

  map-keep-of_All : (xs : List A) → All (λ a. p a ≡ false) xs → map f (keep p xs) ≡ []
  map-keep-of_All [] h = refl
  map-keep-of_All (x ∷ xs) (e, h) = rw e (map-keep-of_All xs h)

max_ord-nil : (rules : List AssignmentRule) → max_ord rules ≡ none → rules ≡ []
unfolding max_ord
max_ord-nil [] h = refl
max_ord-nil (r ∷ rules) h = ground arith

max_ord-greatest :
    (rules : List AssignmentRule) (m : ℤ)
    → max_ord rules ≡ some m
    → All (λ r. r.ord ≤ℤ m) rules × ((r : AssignmentRule) × In r rules × (r.ord ≡ m))
unfolding max_ord
max_ord-greatest [] m h = cc
max_ord-greatest (r ∷ rules) m h = elim (Option-cases (max_ord rules)) [
  | inl e ↦
      let same : r.ord ≡ m = ground arith in
      (
        (subst (λ x. r.ord ≤ℤ x) same (≤ℤ-refl r.ord), rw (max_ord-nil rules e) tt),
        (r, here refl, same),
      )
  | inr (k, e) ↦
      let (bound, (top, m', at_top)) = max_ord-greatest rules k e in
      elim (Bool-cases (ltb_ℤ k r.ord)) [
        | inl lt ↦
            let same : r.ord ≡ m = ground arith in
            let up : k ≤ℤ m = subst (λ x. k ≤ℤ x) same (<ℤ-le k r.ord lt) in
            (
              (
                subst (λ x. r.ord ≤ℤ x) same (≤ℤ-refl r.ord),
                All-of-In _ rules (λ x i. ≤ℤ-trans x.ord k m (All-In _ rules x bound i) up),
              ),
              (r, here refl, same),
            )
        | inr ge ↦
            let same : k ≡ m = ground arith in
            (
              (
                subst (λ x. r.ord ≤ℤ x) same ge,
                subst (λ y. All (λ x. x.ord ≤ℤ y) rules) same bound,
              ),
              (top, there m', at_top ∙ same),
            )
      ]
]

is_default_sound : (o : RuleOperator) → is_default o ≡ true → o ≡ RuleOperator.default
is_default_sound RuleOperator.default h = refl
is_default_sound RuleOperator.equals h = cc
is_default_sound RuleOperator.contains h = cc
is_default_sound RuleOperator.exists h = cc

-- The check of the default rules passes exactly when no rule is ordered after a default rule.
pub default_rule_not_last_errors-nil_iff :
    (app : String) (rules : List AssignmentRule)
    → (default_rule_not_last_errors app rules ≡ []) ↔ (
        (rule other : AssignmentRule)
        → In rule rules
        → rule.operator ≡ RuleOperator.default
        → In other rules
        → other.ord ≤ℤ rule.ord)
unfolding default_rule_not_last_errors
default_rule_not_last_errors-nil_iff app rules = elim (Option-cases (max_ord rules)) [
  | inl e ↦
      rw (e, default_rule_not_last_errors)
        (λ _ rule other m. absurd (not-In-nil (subst (In rule) (max_ord-nil rules e) m)), λ _. refl)
  | inr (k, e) ↦
      let (bound, (top, at_top, is_top)) = max_ord-greatest rules k e in
      rw (e, default_rule_not_last_errors)
        (
          λ h rule other m d i.
              let out =
                All-In _ rules rule
                  (map-keep-nil (λ r. is_default r.operator && not (eqb_ℤ r.ord k)) _ rules h) m in
              let same : rule.ord ≡ k = (eqb_ℤ_iff rule.ord k).0 (ground arith) in
              subst (λ x. other.ord ≤ℤ x) (sym same) (All-In _ rules other bound i),
          λ h.
              map-keep-of_All (λ r. is_default r.operator && not (eqb_ℤ r.ord k)) _ rules
                (All-of-In _ rules (λ r m. elim (Bool-cases (is_default r.operator)) [
                  | inr f ↦ rw f refl
                  | inl d ↦
                      let same : r.ord ≡ k = ≤ℤ-antisym r.ord k (All-In _ rules r bound m) (
                        subst (λ x. x ≤ℤ r.ord) is_top
                          (h r top m (is_default_sound r.operator d) at_top)) in
                      rw (d, (eqb_ℤ_iff r.ord k).1 same) refl
                ])),
        )
]

module _ (as_f64 : Value → Option Float) (store : PolicyStore) where
  apps_errors-nil :
      (app : String) (apps : List String)
      → apps_errors as_f64 store apps ≡ []
      → In app apps
      → app_errors as_f64 store app ≡ []
  unfolding apps_errors
  apps_errors-nil app (x ∷ apps) h (here e) =
      subst (λ a. app_errors as_f64 store a ≡ []) e
        (append-eq-nil (app_errors as_f64 store x) _ h).0
  apps_errors-nil app (x ∷ apps) h (there m) =
      apps_errors-nil app apps (append-eq-nil (app_errors as_f64 store x) _ h).1 m
  apps_errors-nil app [] h m = elim m [ ]

chain_errors-nil :
    (app : String) (profiles : Map StoredPolicy) (ps : List StoredPolicy) (p : StoredPolicy)
    → chain_errors app profiles ps ≡ []
    → In p ps
    → chain_error app (resolve_chain profiles p.profile) ≡ []
unfolding chain_errors
chain_errors-nil app profiles [] p h m = elim m [ ]
chain_errors-nil app profiles (q ∷ ps) p h (here e) =
    subst (λ x. chain_error app (resolve_chain profiles x.profile) ≡ []) e
      (append-eq-nil (chain_error app (resolve_chain profiles q.profile)) _ h).0
chain_errors-nil app profiles (q ∷ ps) p h (there m) =
    chain_errors-nil app profiles ps p
      (append-eq-nil (chain_error app (resolve_chain profiles q.profile)) _ h).1 m

by_profile-In :
    (ps : List StoredPolicy) (m : Map StoredPolicy) (name : String)
    → is_some (lookup name (by_profile ps m)) ≡ true
    → ((p : StoredPolicy) × In p ps × (p.profile ≡ name)) ⊎ (is_some (lookup name m) ≡ true)
unfolding by_profile
by_profile-In [] m name h = inr h
by_profile-In (p ∷ ps) m name h = elim (by_profile-In ps (insert p.profile p m) name h) [
  | inl (q, i, e) ↦ inl (q, there i, e)
  | inr k ↦ elim (Bool-cases (p.profile == name)) [
    | inl e ↦ inl (p, here refl, (eq_iff p.profile name).0 e)
    | inr e ↦ inr (ground (arith, lookup-insert p.profile name p m))
  ]
]

chain_error-nil :
    (app : String) (profiles : Map StoredPolicy) (profile : String)
    → is_some (lookup profile profiles) ≡ true
    → (r : Result InheritanceError (List StoredPolicy)) → resolve_chain profiles profile ≡ r
    → chain_error app r ≡ []
    → (chain : List StoredPolicy) × (r ≡ ok chain)
unfolding chain_error
chain_error-nil app profiles profile found (ok chain) e h = (chain, refl)
chain_error-nil app profiles profile found (err (InheritanceError.profile_not_found q)) e h =
    cc (resolve_chain-not_found profiles profile q e, found)
chain_error-nil app profiles profile found (err (InheritanceError.missing_parent c q)) e h = cc
chain_error-nil app profiles profile found (err (InheritanceError.cycle q)) e h = cc

missing_profile-nil :
    (app : String) (rules : List AssignmentRule) (profiles : Map StoredPolicy)
    (rule : AssignmentRule)
    → assignment_rule_missing_profile_errors app rules profiles ≡ []
    → In rule rules
    → is_some (lookup rule.profile profiles) ≡ true
unfolding assignment_rule_missing_profile_errors
missing_profile-nil app rules profiles rule h m =
    let out =
      All-In _ rules rule (map-keep-nil (λ r. not (is_some (lookup r.profile profiles))) _ rules h)
        m in
    ground arith

nothing_in : (profile : String) → ¬ (is_some (lookup {V = StoredPolicy} profile []) ≡ true)
unfolding lookup
nothing_in profile h = cc

nothing : (profile : String) → is_some (lookup profile (by_profile [] [])) ≡ false
unfolding by_profile lookup
nothing profile = refl

missing_manifests-nil :
    (app : String) (ps : List StoredPolicy) → missing_manifests app ps ≡ [] → ps ≡ []
unfolding missing_manifests
missing_manifests-nil app [] h = refl
missing_manifests-nil app (p ∷ ps) h = cc

module _ (as_f64 : Value → Option Float) (store : PolicyStore) where
  -- What the validated application has: its policies load, and the profile of each of its rules
  -- has a finite chain.
  policies_errors-nil :
      (app : String) (manifest : Option ConfigManifest) (ps : List StoredPolicy) (profile : String)
      → policies_errors as_f64 app manifest (by_profile ps []) ps ≡ []
      → is_some (lookup profile (by_profile ps [])) ≡ true
      → (chain : List StoredPolicy) × (resolve_chain (by_profile ps []) profile ≡ ok chain)
  unfolding policies_errors
  policies_errors-nil app none ps profile h found =
      let empty = missing_manifests-nil app ps h in
      cc (
        subst (λ x. is_some (lookup profile (by_profile x [])) ≡ true) empty found,
        nothing profile,
      )
  policies_errors-nil app (some manifest) ps profile h found =
      let chains = (append-eq-nil (stored_errors as_f64 manifest ps) _ h).1 in
      elim (by_profile-In ps [] profile found) [
        | inl (p, m, e) ↦
            chain_error-nil app (by_profile ps []) profile found
              (resolve_chain (by_profile ps []) profile) refl
              (subst (λ n. chain_error app (resolve_chain (by_profile ps []) n) ≡ []) e
                (chain_errors-nil app (by_profile ps []) ps p chains m))
        | inr k ↦ absurd (nothing_in profile k)
      ]

  loaded_errors-nil :
      (app : String) (manifest : Option ConfigManifest) (rules : List AssignmentRule)
      (rule : AssignmentRule) (r : Result String (List StoredPolicy))
      → loaded_errors as_f64 store app manifest r ≡ []
      → store.assignment_rules app ≡ ok rules
      → In rule rules
      → (ps : List StoredPolicy) × (chain : List StoredPolicy) × (r ≡ ok ps)
        × (resolve_chain (by_profile ps []) rule.profile ≡ ok chain)
  unfolding loaded_errors rules_errors
  loaded_errors-nil app manifest rules rule (err e) h s m = cc
  loaded_errors-nil app manifest rules rule (ok ps) h s m =
      let (a, b) =
        append-eq-nil (rules_errors app (by_profile ps []) (store.assignment_rules app)) _ h in
      let both = subst (λ x. rules_errors app (by_profile ps []) x ≡ []) s a in
      let (missing, last) =
        append-eq-nil (assignment_rule_missing_profile_errors app rules (by_profile ps [])) _
          both in
      let (chain, e) =
        policies_errors-nil app manifest ps rule.profile b
          (missing_profile-nil app rules (by_profile ps []) rule missing m) in
      (ps, chain, refl, e)

  app_errors-nil :
      (app : String) (rules : List AssignmentRule) (rule : AssignmentRule)
      (r : Result String (Option ConfigManifest))
      → manifest_errors as_f64 store app r ≡ []
      → store.assignment_rules app ≡ ok rules
      → In rule rules
      → (ps : List StoredPolicy) × (chain : List StoredPolicy) × (store.policies_for_app app
          ≡ ok ps)
        × (resolve_chain (by_profile ps []) rule.profile ≡ ok chain)
  unfolding manifest_errors
  app_errors-nil app rules rule (ok manifest) h s m =
      loaded_errors-nil app manifest rules rule (store.policies_for_app app) h s m
  app_errors-nil app rules rule (err e) h s m = cc

  validated-ok :
      (errors : List PolicyValidationError) → validated as_f64 errors ≡ ok tt → errors ≡ []
  unfolding validated
  validated-ok [] h = refl
  validated-ok (e ∷ errors) h = cc

  pub validate_all-chains :
      (app : String) (apps : List String) (rules : List AssignmentRule) (rule : AssignmentRule)
      → validate_all as_f64 store ≡ ok tt
      → store.apps ≡ ok apps
      → In app apps
      → store.assignment_rules app ≡ ok rules
      → In rule rules
      → (ps : List StoredPolicy) × (chain : List StoredPolicy) × (store.policies_for_app app
          ≡ ok ps)
        × (resolve_chain (by_profile ps []) rule.profile ≡ ok chain)
  unfolding validate_all app_errors
  validate_all-chains app apps rules rule h a m s i =
      app_errors-nil app rules rule (store.manifest app)
        (apps_errors-nil as_f64 store app apps
          (validated-ok (apps_errors as_f64 store apps) (rw (a, validate_all) at h)) m)
        s i
