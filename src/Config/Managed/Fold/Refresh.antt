-- ===== src/Config/Managed/Fold/Refresh.antt =====
-- What a refresh of the managed configuration does to the store (src/config/managed/mod.rs).
use cli_framework.Prelude.{
  ◌≡◌, refl, [], Option, none, some, Map, Result, ok, err, Result-cases, Option-cases, inl, inr,
  String, Bool, ap, subst,
}
use cli_framework.Json.{Value}
use cli_framework.Config.Manifest.{ConfigManifest}
use cli_framework.Config.Resolution.{ResolutionInput}
use cli_framework.Config.Resolution.Entries.{entries-resolve}
use cli_framework.Config.Store.{
  ConfigError, VersionedConfig, ConfigStore, load, notify, set_current_and_notify,
}
use cli_framework.Config.Service.Types.{Policy}
use cli_framework.Config.Managed.Client.{
  PolicyOutcome, fresh, from_cache, unmanaged, denied, PolicyClientError, fold_failed, PolicyClient,
  fetch,
}
use cli_framework.Config.Managed.Flatten.{flatten_to_paths}
use cli_framework.Config.Managed.Fold.{
  policy_trees, fold_into_json, FoldMessages, fold_local, refresh_managed_config,
}

some-not_none : {A : Type 0} {a : A} → Path (Option A) (some a) none → ⊥
some-not_none h = cc

fold_into_json-some :
    (manifest : ConfigManifest) (current : Value) (enforced recommended : Map Value)
    → (nested : Value) × (fold_into_json manifest current enforced recommended ≡ some nested)
unfolding fold_into_json
fold_into_json-some manifest current enforced recommended =
    let input : ResolutionInput = record {
      recommended = recommended;
      config_file = flatten_to_paths current;
      environment = [];
      flags = [];
      builder_overrides = [];
      enforced = enforced;
    } in
    let (es, e, _) = entries-resolve manifest input in
    elim (Option-cases (fold_into_json manifest current enforced recommended)) [
      | inr found ↦ found
      | inl h ↦ absurd (some-not_none (rw (fold_into_json, e) at h))
    ]

-- The enforced and the recommended tree of an outcome: those of its policy, if it has one.
pub data Lays : PolicyOutcome → Map Value → Map Value → Type 0 where
  of_fresh : (policy : Policy) → Lays (fresh policy) policy.enforced policy.recommended
  of_cached :
      (policy : Policy) (stale : Bool)
      → Lays (from_cache policy stale) policy.enforced policy.recommended
  of_unmanaged : Lays unmanaged [] []
  of_denied : Lays denied [] []

policy_trees-Lays :
    (outcome : PolicyOutcome) → Lays outcome (policy_trees outcome).0 (policy_trees outcome).1
unfolding policy_trees
policy_trees-Lays (fresh policy) = of_fresh policy
policy_trees-Lays (from_cache policy stale) = of_cached policy stale
policy_trees-Lays unmanaged = of_unmanaged
policy_trees-Lays denied = of_denied

module _ {T W : Type 0} (config : VersionedConfig T) (messages : FoldMessages)
    (manifest : ConfigManifest) where
  -- What comes of the trees laid over what the backend holds: of an error of each step, and of none.
  pub data Folds (store : ConfigStore T W) (enforced recommended : Map Value) (w : W)
      : Result PolicyClientError T → Type 0 where
    unread :
        (e : ConfigError)
        → load config store w ≡ err e
        → Folds store enforced recommended w
            (err (fold_failed manifest.app (messages.unreadable e)))
    unserialized :
        (local : T) (e : String)
        → load config store w ≡ ok local
        → config.to_value local ≡ err e
        → Folds store enforced recommended w
            (err (fold_failed manifest.app (messages.not_serialized e)))
    unmatched :
        (local : T) (current nested : Value) (e : String)
        → load config store w ≡ ok local
        → config.to_value local ≡ ok current
        → fold_into_json manifest current enforced recommended ≡ some nested
        → config.from_value nested ≡ err e
        → Folds store enforced recommended w
            (err (fold_failed manifest.app (messages.not_matching e)))
    matched :
        (local : T) (current nested : Value) (value : T)
        → load config store w ≡ ok local
        → config.to_value local ≡ ok current
        → fold_into_json manifest current enforced recommended ≡ some nested
        → config.from_value nested ≡ ok value
        → Folds store enforced recommended w (ok value)

  fold_local-Folds :
      (store : ConfigStore T W) (enforced recommended : Map Value) (w : W)
      → (folded : Result PolicyClientError T) × ((fold_local config messages manifest store enforced
              recommended w
            ≡ some folded)
          × Folds store enforced recommended w folded)
  unfolding fold_local
  fold_local-Folds store enforced recommended w = elim (Result-cases (load config store w)) [
    | inr (e, k) ↦ (_, (rw (fold_local, k) refl, unread e k))
    | inl (local, k) ↦ elim (Result-cases (config.to_value local)) [
      | inr (e, l) ↦ (_, (rw (fold_local, k, l) refl, unserialized local e k l))
      | inl (current, l) ↦
          let (nested, m) = fold_into_json-some manifest current enforced recommended in
          elim (Result-cases (config.from_value nested)) [
            | inr (e, n) ↦
                (_, (rw (fold_local, k, l, m, n) refl, unmatched local current nested e k l m n))
            | inl (value, n) ↦
                (_, (rw (fold_local, k, l, m, n) refl, matched local current nested value k l m n))
          ]
    ]
  ]

  -- A refresh of the store by the client in the world `w`: what it answers, the store and the world.
  pub data Refreshes (store : ConfigStore T W) (client : PolicyClient W) (w : W)
      : Option (Result PolicyClientError PolicyOutcome) × (ConfigStore T W × W) → Type 0 where
    not_fetched :
        (e : PolicyClientError) (after : W)
        → fetch client w ≡ (err e, after)
        → Refreshes store client w (some (err e), (store, after))
    not_folded :
        (outcome : PolicyOutcome) (after : W) (enforced recommended : Map Value)
        (e : PolicyClientError)
        → fetch client w ≡ (ok outcome, after)
        → Lays outcome enforced recommended
        → Folds store enforced recommended after (err e)
        → Refreshes store client w (some (err e), (store, after))
    refreshed :
        (outcome : PolicyOutcome) (after : W) (enforced recommended : Map Value) (value : T)
        → fetch client w ≡ (ok outcome, after)
        → Lays outcome enforced recommended
        → Folds store enforced recommended after (ok value)
        → Refreshes store client w (
          some (ok outcome),
          (record store { current = value }, notify store.subscribers value after),
        )

  -- A refresh does not panic. Where the fetch fails it returns that error and leaves the store; else it
  -- lays the trees of the outcome's policy (none, where the caller is unmanaged or denied) over the
  -- configuration that a load from the backend gives after the fetch, not over the cached value. If the
  -- load, the conversion to JSON or the one back fails, it returns that failure and leaves the store;
  -- else it caches the folded value, tells each subscriber and returns the outcome.
  pub refresh_managed_config-Refreshes :
      (store : ConfigStore T W) (client : PolicyClient W) (w : W)
      → Refreshes store client w (refresh_managed_config config messages manifest store client w)
  unfolding refresh_managed_config set_current_and_notify
  refresh_managed_config-Refreshes store client w = elim (Result-cases (fetch client w).0) [
    | inr (e, k) ↦
        rw (refresh_managed_config, k)
          (not_fetched e (fetch client w).1 (ap (λ r. (r, (fetch client w).1)) k))
    | inl (outcome, k) ↦
        let (enforced, recommended) = policy_trees outcome in
        let after = (fetch client w).1 in
        let fetched : fetch client w ≡ (ok outcome, after) = ap (λ r. (r, after)) k in
        let laid = policy_trees-Lays outcome in
        let (folded, (n, folds)) = fold_local-Folds store enforced recommended after in
        elim (Result-cases folded) [
          | inl (value, v) ↦
              rw (refresh_managed_config, k, n, v)
                (refreshed outcome after enforced recommended value fetched laid
                  (subst (Folds store enforced recommended after) v folds))
          | inr (e, v) ↦
              rw (refresh_managed_config, k, n, v)
                (not_folded outcome after enforced recommended e fetched laid
                  (subst (Folds store enforced recommended after) v folds))
        ]
  ]
