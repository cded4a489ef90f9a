-- ===== src/Telemetry/Probe/Order.antt =====
-- The registry of probes (src/telemetry/probe.rs): what every registration keeps, and what a probe's
-- id finds after it.
use Prim.Native.String
use cli_framework.Prelude.{
  ◌≡◌, inl, inr, refl, sym, ◌∙◌, String, false, ◌||◌, List, [], ◌∷◌, ◌++◌, some, ok, ok-inj, All,
  All-In, All-of-In, Distinct, contains, arith, any, find, eq_iff, ◌==◌, Bool-cases, Result-cases,
  if◌then◌else◌, In-append, In-cons, not-In-nil, subst,
}
use cli_framework.Prelude.Text.{has_char}
use cli_framework.Prelude.Sorting.{insert_by, sort_by, Sorted, sort_by-Sorted, In-sort_by}
use cli_framework.Prelude.TextOrder.{le_text_total, le_text_trans}
use cli_framework.Telemetry.Probe.{
  ProbeSpec, ProbeRegistry, new_registry, register, register_feature, id_le, get, validate_probe_id,
}
use cli_framework.Telemetry.Probe.Grammar.{IsProbeId, validate_probe_id_iff}

abbrev pub ids : List ProbeSpec → List String
ids [] = []
ids (p ∷ ps) = p.id ∷ ids ps

-- Sorted by id, no id twice, and every id well-formed.
abbrev pub IsOrdered : ProbeRegistry → Type 0
IsOrdered registry =
    Sorted id_le registry.probes
    × (Distinct (ids registry.probes) × All (λ p. IsProbeId p.id) registry.probes)

-- The registries that an application can build.
pub data IsBuilt : ProbeRegistry → Type 0 where
  empty : IsBuilt new_registry
  registered :
      {before after : ProbeRegistry} (spec : ProbeSpec)
      → IsBuilt before
      → register before spec ≡ ok after
      → IsBuilt after
  featured :
      {before after : ProbeRegistry} (name : String)
      → IsBuilt before
      → register_feature before name ≡ ok after
      → IsBuilt after

any-contains : (n : String) (ps : List ProbeSpec) → any (λ p. p.id == n) ps ≡ contains (ids ps) n
any-contains n [] = refl
any-contains n (p ∷ ps) = ground (arith, any-contains n ps)

contains-insert_by :
    (n : String) (x : ProbeSpec) (ps : List ProbeSpec)
    → contains (ids (insert_by id_le x ps)) n ≡ (x.id == n || contains (ids ps) n)
unfolding insert_by
contains-insert_by n x [] = refl
contains-insert_by n x (p ∷ ps) = ground (arith, contains-insert_by n x ps)

contains-sort_by :
    (n : String) (ps : List ProbeSpec) → contains (ids (sort_by id_le ps)) n ≡ contains (ids ps) n
unfolding sort_by
contains-sort_by n [] = refl
contains-sort_by n (p ∷ ps) =
    ground (arith, contains-insert_by n p (sort_by id_le ps), contains-sort_by n ps)

Distinct-insert_by :
    (x : ProbeSpec) (ps : List ProbeSpec)
    → contains (ids ps) x.id ≡ false
    → Distinct (ids ps)
    → Distinct (ids (insert_by id_le x ps))
unfolding insert_by
Distinct-insert_by x [] f d = (refl, tt)
Distinct-insert_by x (p ∷ ps) f (fresh, d) = ground (
  arith,
  Distinct-insert_by x ps,
  contains-insert_by p.id x ps,
  eq_iff x.id p.id,
  eq_iff p.id x.id,
)

Distinct-sort_by : (ps : List ProbeSpec) → Distinct (ids ps) → Distinct (ids (sort_by id_le ps))
unfolding sort_by
Distinct-sort_by [] d = tt
Distinct-sort_by (p ∷ ps) (fresh, d) =
    Distinct-insert_by p (sort_by id_le ps) (contains-sort_by p.id ps ∙ fresh)
      (Distinct-sort_by ps d)

contains-last :
    (n : String) (x : ProbeSpec) (ps : List ProbeSpec)
    → contains (ids (ps ++ x ∷ [])) n ≡ (x.id == n || contains (ids ps) n)
contains-last n x [] = refl
contains-last n x (p ∷ ps) = ground (arith, contains-last n x ps)

Distinct-last :
    (x : ProbeSpec) (ps : List ProbeSpec)
    → contains (ids ps) x.id ≡ false
    → Distinct (ids ps)
    → Distinct (ids (ps ++ x ∷ []))
Distinct-last x [] f d = (refl, tt)
Distinct-last x (p ∷ ps) f (fresh, d) =
    ground (arith, contains-last p.id x ps, Distinct-last x ps, eq_iff x.id p.id, eq_iff p.id x.id)

find-insert_by :
    (n : String) (x : ProbeSpec) (ps : List ProbeSpec)
    → contains (ids ps) x.id ≡ false
    → find (λ p. p.id == n) (insert_by id_le x ps)
      ≡ (if x.id == n then some x else find (λ p. p.id == n) ps)
unfolding insert_by
find-insert_by n x [] f = refl
find-insert_by n x (p ∷ ps) f =
    ground (arith, find-insert_by n x ps, eq_iff x.id n, eq_iff p.id n, eq_iff p.id x.id)

find-sort_by :
    (n : String) (ps : List ProbeSpec)
    → Distinct (ids ps)
    → find (λ p. p.id == n) (sort_by id_le ps) ≡ find (λ p. p.id == n) ps
unfolding sort_by
find-sort_by n [] d = refl
find-sort_by n (p ∷ ps) (fresh, d) =
    find-insert_by n p (sort_by id_le ps) (contains-sort_by p.id ps ∙ fresh)
    ∙ ground (arith, find-sort_by n ps d)

find-last :
    (n : String) (x : ProbeSpec) (ps : List ProbeSpec)
    → contains (ids ps) x.id ≡ false
    → find (λ p. p.id == n) (ps ++ x ∷ [])
      ≡ (if x.id == n then some x else find (λ p. p.id == n) ps)
find-last n x [] f = refl
find-last n x (p ∷ ps) f =
    ground (arith, find-last n x ps, eq_iff x.id n, eq_iff p.id n, eq_iff p.id x.id)

-- What an accepted registration has found, and the registry that it returns.
register_inv :
    (before after : ProbeRegistry) (spec : ProbeSpec)
    → register before spec ≡ ok after
    → IsProbeId spec.id
      × ((contains (ids before.probes) spec.id ≡ false)
          × (record { probes = sort_by id_le (before.probes ++ spec ∷ []) } ≡ after))
unfolding register
register_inv before after spec h = elim (Result-cases (validate_probe_id spec.id)) [
  | inr (e, k) ↦ cc (rw (register, k) at h)
  | inl (tt, k) ↦ elim (Bool-cases (any (λ p. p.id == spec.id) before.probes)) [
    | inl b ↦ cc (rw (register, k, b) at h)
    | inr b ↦ (
      (validate_probe_id_iff spec.id).0 k,
      (sym (any-contains spec.id before.probes) ∙ b, ok-inj (rw (register, k, b) at h)),
    )
  ]
]

valid_after :
    (before : ProbeRegistry) (spec : ProbeSpec)
    → IsProbeId spec.id
    → All (λ p. IsProbeId p.id) before.probes
    → All (λ p. IsProbeId p.id) (sort_by id_le (before.probes ++ spec ∷ []))
valid_after before spec shape valid =
    All-of-In (λ (p : ProbeSpec). IsProbeId p.id) (sort_by id_le (before.probes ++ spec ∷ []))
      (λ p m. elim (In-append before.probes (In-sort_by id_le p (before.probes ++ spec ∷ []) m)) [
        | inl old ↦ All-In (λ (q : ProbeSpec). IsProbeId q.id) before.probes p valid old
        | inr new ↦ elim (In-cons new) [
          | inl same ↦ subst (λ (q : ProbeSpec). IsProbeId q.id) same shape
          | inr none_left ↦ absurd (not-In-nil none_left)
        ]
      ])

register-IsOrdered :
    (before after : ProbeRegistry) (spec : ProbeSpec)
    → register before spec ≡ ok after
    → IsOrdered before
    → IsOrdered after
register-IsOrdered before after spec h (_, (distinct, valid)) =
    let (shape, (fresh, e)) = register_inv before after spec h in
    subst IsOrdered e (
      sort_by-Sorted id_le (λ a b. le_text_total a.id b.id) (λ a b c. le_text_trans a.id b.id c.id)
          (before.probes ++ spec ∷ []),
      (
        Distinct-sort_by (before.probes ++ spec ∷ [])
            (Distinct-last spec before.probes fresh distinct),
        valid_after before spec shape valid,
      ),
    )

register_feature_inv :
    (before after : ProbeRegistry) (name : String)
    → register_feature before name ≡ ok after
    → (spec : ProbeSpec) × (register before spec ≡ ok after)
unfolding register_feature
register_feature_inv before after name h = elim (Bool-cases (name == "" || has_char 46 name)) [
  | inl b ↦ cc (rw (register_feature, b) at h)
  | inr b ↦ elim (Result-cases (validate_probe_id (String.◌++◌ "cli.feature." name))) [
    | inr (e, k) ↦ cc (rw (register_feature, b, k) at h)
    | inl (tt, k) ↦ (_, rw (register_feature, b, k) at h)
  ]
]

-- A registry built from the empty one by registrations of probes and of features is sorted by id,
-- has no id twice, and has well-formed ids alone.
pub IsBuilt-IsOrdered : (registry : ProbeRegistry) → IsBuilt registry → IsOrdered registry
IsBuilt-IsOrdered _ empty = (tt, (tt, tt))
IsBuilt-IsOrdered _ (registered {before} {after} spec b h) =
    register-IsOrdered before after spec h (IsBuilt-IsOrdered before b)
IsBuilt-IsOrdered _ (featured {before} {after} name b h) =
    let (spec, k) = register_feature_inv before after name h in
    register-IsOrdered before after spec k (IsBuilt-IsOrdered before b)

-- After an accepted registration the new id finds the new probe, and every other id what it found
-- before.
pub get-register :
    (before after : ProbeRegistry) (spec : ProbeSpec) (wanted : String)
    → IsOrdered before
    → register before spec ≡ ok after
    → get after wanted ≡ (if spec.id == wanted then some spec else get before wanted)
get-register before after spec wanted (_, (distinct, _)) h =
    let (_, (fresh, e)) = register_inv before after spec h in
    subst
      (λ (r : ProbeRegistry).
        get r wanted ≡ (if spec.id == wanted then some spec else get before wanted))
      e
      (find-sort_by wanted (before.probes ++ spec ∷ [])
          (Distinct-last spec before.probes fresh distinct)
        ∙ find-last wanted spec before.probes fresh)
