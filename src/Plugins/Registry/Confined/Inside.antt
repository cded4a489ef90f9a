-- ===== src/Plugins/Registry/Confined/Inside.antt =====
-- Where a manifest that was loaded is from, and the managers that hold such manifests alone
-- (src/plugin/registry.rs).
use cli_framework.Prelude.{
  ◌≡◌, refl, sym, subst, String, true, List, [], ◌∷◌, ◌++◌, some, ok, arith, Bool-cases,
  Result-cases, inl, inr, ◌==◌, eq_iff, some-inj,
}
use cli_framework.Prelude.Maps.{lookup, insert, remove, lookup-insert, lookup-remove}
use cli_framework.Plugins.Registry.{
  Files, PluginRegistryManager, is_below, validate_manifest_path, load_manifest,
}

-- The second path is the first with components after it.
is_below_inv :
    (root at : List String) → is_below root at ≡ true → (rest : List String) × (at ≡ root ++ rest)
unfolding is_below
is_below_inv [] at h = (at, refl)
is_below_inv (r ∷ root) [] h = cc
is_below_inv (r ∷ root) (p ∷ at) h =
    let (rest, e) = is_below_inv root at (ground arith) in
    let same : r ≡ p = (eq_iff r p).0 (ground arith) in (rest, λ i. sym same i ∷ e i)

module _ {Manifest : Type 0} (files : Files Manifest) where
  -- The manifest is that of a file below the directory of the registry's own file.
  abbrev pub IsInside : String → Manifest → Type 0
  IsInside config_path manifest =
      (plugin_root : String) × ((root : List String) × ((rest : List String) × ((files.parent
                config_path
              ≡ some plugin_root)
            × ((files.canonicalize plugin_root ≡ ok root)
                × (files.manifest_from_file (root ++ rest) ≡ ok manifest)))))

  pub load_manifest-IsInside :
      (config_path plugin_root manifest_path : String) (manifest : Manifest)
      → files.parent config_path ≡ some plugin_root
      → load_manifest files manifest_path plugin_root ≡ ok manifest
      → IsInside config_path manifest
  unfolding load_manifest validate_manifest_path
  load_manifest-IsInside config_path plugin_root manifest_path manifest parent h =
      elim (Result-cases (files.canonicalize manifest_path)) [
        | inr (e, k) ↦ cc (rw (load_manifest, validate_manifest_path, k) at h)
        | inl (at, k) ↦ elim (Result-cases (files.canonicalize plugin_root)) [
          | inr (e, l) ↦ cc (rw (load_manifest, validate_manifest_path, k, l) at h)
          | inl (root, l) ↦ elim (Bool-cases (is_below root at)) [
            | inr b ↦ cc (rw (load_manifest, validate_manifest_path, k, l, b) at h)
            | inl b ↦
                let (rest, e) = is_below_inv root at b in
                let read : files.manifest_from_file at ≡ ok manifest =
                  rw (load_manifest, validate_manifest_path, k, l, b) at h in
                (
                  plugin_root,
                  (
                    root,
                    (
                      rest,
                      (parent, (l, subst (λ x. files.manifest_from_file x ≡ ok manifest) e read)),
                    ),
                  ),
                )
          ]
        ]
      ]

  -- Each loaded manifest is inside.
  abbrev pub IsConfined : PluginRegistryManager Manifest → Type 0
  IsConfined m =
      (id : String) (manifest : Manifest)
      → lookup id m.loaded_manifests ≡ some manifest
      → IsInside m.config_path manifest

  pub IsConfined-insert :
      (m : PluginRegistryManager Manifest) (id : String) (manifest : Manifest)
      → IsConfined m
      → IsInside m.config_path manifest
      → IsConfined (record m { loaded_manifests = insert id manifest m.loaded_manifests })
  IsConfined-insert m id manifest c inside wanted found h = elim (Bool-cases (id == wanted)) [
    | inl e ↦
        let same : some manifest ≡ some found =
          rw (lookup-insert id wanted manifest m.loaded_manifests, e) at h in
        subst (IsInside m.config_path) (some-inj same) inside
    | inr e ↦ c wanted found (rw (lookup-insert id wanted manifest m.loaded_manifests, e) at h)
  ]

  pub IsConfined-remove :
      (m : PluginRegistryManager Manifest) (id : String)
      → IsConfined m
      → IsConfined (record m { loaded_manifests = remove id m.loaded_manifests })
  IsConfined-remove m id c wanted found h = elim (Bool-cases (id == wanted)) [
    | inl e ↦ cc (rw (lookup-remove id wanted m.loaded_manifests, e) at h)
    | inr e ↦ c wanted found (rw (lookup-remove id wanted m.loaded_manifests, e) at h)
  ]
