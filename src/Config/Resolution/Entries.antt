-- ===== src/Config/Resolution/Entries.antt =====
-- `Resolved::entries` pairs each value with a provenance (src/config/resolution/resolver.rs).
use cli_framework.Prelude.{
  ◌≡◌, refl, sym, ◌∙◌, ap, true, List, [], ◌∷◌, some, Map, All, arith, is_some, contains,
  Option-cases, inl, inr, some-inj, subst, map, All-of-In, contains-of-In,
}
use cli_framework.Prelude.KeyOrder.{Ascending, insert-Ascending}
use cli_framework.Prelude.Maps.{lookup, keys, lookup-contains, insert_key, keys-insert}
use cli_framework.Json.{Value}
use cli_framework.Config.Manifest.{ConfigManifest, LeafField, iter_leaves}
use cli_framework.Config.Resolution.{
  Provenance, ResolutionInput, Resolved, ResolvedEntry, resolve_leaves, resolve, paths, entries,
  entries_of,
}

resolve_leaves-keys :
    (input : ResolutionInput) (leaves : List LeafField) (r : Resolved)
    → keys r.values ≡ keys r.provenance
    → keys (resolve_leaves input leaves r).values ≡ keys (resolve_leaves input leaves r).provenance
unfolding resolve_leaves
resolve_leaves-keys input [] r h = h
resolve_leaves-keys input (leaf ∷ leaves) r h = resolve_leaves-keys input leaves _ (
    keys-insert leaf.path _ r.values
    ∙ ap (insert_key leaf.path) h
    ∙ sym (keys-insert leaf.path _ r.provenance))

entries_of-some :
    (m : Map Value) (ps : Map Provenance)
    → All (λ k. is_some (lookup k ps) ≡ true) (keys m)
    → (es : List ResolvedEntry) × (entries_of m ps ≡ some es) × (map (λ e. e.path) es ≡ keys m)
unfolding entries_of
entries_of-some [] ps h = ([], refl, refl)
entries_of-some ((k, v) ∷ m) ps (found, h) =
    let (es, e, names) = entries_of-some m ps h in
    elim (Option-cases (lookup k ps)) [
      | inl out ↦ cc (out, found)
      | inr (p, e') ↦
          (record { path = k; value = v; provenance = p } ∷ es, ground arith, ap (λ x. k ∷ x) names)
    ]

-- For whatever a resolution returns, `entries` does not panic, and lists its paths in order.
pub entries-resolve :
    (manifest : ConfigManifest) (input : ResolutionInput)
    → (es : List ResolvedEntry) × (entries (resolve manifest input) ≡ some es)
      × (map (λ e. e.path) es ≡ paths (resolve manifest input))
unfolding entries paths resolve
entries-resolve manifest input =
    let r =
      resolve_leaves input (iter_leaves manifest)
        (record { values = []; provenance = []; warnings = [] }) in
    let same =
      resolve_leaves-keys input (iter_leaves manifest)
        (record { values = []; provenance = []; warnings = [] }) refl in
    entries_of-some r.values r.provenance (
      All-of-In _ (keys r.values) (λ k m.
        sym (lookup-contains k r.provenance)
        ∙ ap (λ ks. contains ks k) (sym same)
        ∙ contains-of-In m))

-- `entries` leaves the values with their paths as they are.
entries_of-values :
    (m : Map Value) (ps : Map Provenance) (es : List ResolvedEntry)
    → entries_of m ps ≡ some es
    → map (λ e. (e.path, e.value)) es ≡ m
unfolding entries_of
entries_of-values [] ps es h =
    ap (map (λ (e : ResolvedEntry). (e.path, e.value))) (sym (some-inj h))
entries_of-values ((k, v) ∷ m) ps es h = elim (Option-cases (lookup k ps)) [
  | inl e ↦ cc (rw (entries_of, e) at h)
  | inr (p, e) ↦ elim (Option-cases (entries_of m ps)) [
    | inl f ↦ cc (rw (entries_of, e, f) at h)
    | inr (rest, f) ↦
        let same : record { path = k; value = v; provenance = p } ∷ rest ≡ es =
          some-inj (rw (entries_of, e, f) at h) in
        subst (λ l. map (λ (e : ResolvedEntry). (e.path, e.value)) l ≡ (k, v) ∷ m) same
          (ap (λ l. (k, v) ∷ l) (entries_of-values m ps rest f))
  ]
]

pub entries-values :
    (r : Resolved) (es : List ResolvedEntry)
    → entries r ≡ some es
    → map (λ e. (e.path, e.value)) es ≡ r.values
unfolding entries
entries-values r es h = entries_of-values r.values r.provenance es h

resolve_leaves-Ascending :
    (input : ResolutionInput) (leaves : List LeafField) (r : Resolved)
    → Ascending (keys r.values)
    → Ascending (keys (resolve_leaves input leaves r).values)
unfolding resolve_leaves
resolve_leaves-Ascending input [] r a = a
resolve_leaves-Ascending input (l ∷ leaves) r a =
    resolve_leaves-Ascending input leaves _ (insert-Ascending l.path _ r.values a)

pub resolve-Ascending :
    (manifest : ConfigManifest) (input : ResolutionInput)
    → Ascending (keys (resolve manifest input).values)
unfolding resolve Ascending
resolve-Ascending manifest input =
    resolve_leaves-Ascending input (iter_leaves manifest)
      (record { values = []; provenance = []; warnings = [] }) tt
