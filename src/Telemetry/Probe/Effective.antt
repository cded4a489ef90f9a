-- ===== src/Telemetry/Probe/Effective.antt =====
-- Which probes may emit (src/telemetry/probe.rs).
use Prim.Native.String
use text.Mathlib.TextLemmas.{append_assoc, nil-append, append-eq-nil_iff}
use mathlib.Core.List.{append-nil}
use cli_framework.Prelude.{
  ◌≡◌, ◌≢◌, ◌↔◌, ◌⊎◌, ◌≤◌, inl, inr, refl, sym, ◌∙◌, ap, subst, String, Bool, true, false, not,
  ◌&&◌, ◌||◌, some-inj, List, [], ◌∷◌, ◌++◌, some, All-In, In, arith, find_sound, eq_iff, ◌==◌,
  Bool-cases, Option-cases, if◌then◌else◌,
}
use cli_framework.Prelude.Text.{join, split}
use cli_framework.Prelude.Splitting
use cli_framework.Telemetry.Axes.{
  TelemetryLevel, off, usage, diagnostic, debug, rank, eq_level, lt_level,
}
use cli_framework.Telemetry.Probe.{
  ProbeSpec, ProbeRegistry, get, has_probe, prefixes_enabled, effective,
}
use cli_framework.Telemetry.Probe.Grammar.{IsProbeId, pieces_of_id}
use cli_framework.Telemetry.Probe.Order.{IsBuilt, IsBuilt-IsOrdered}

-- `p` is the id itself or one that it stands below.
abbrev pub IsAncestor : String → String → Type 0
IsAncestor p id = (p ≡ id) ⊎ ((rest : String) × (id ≡ String.◌++◌ p (String.◌++◌ "." rest)))

abbrev below : String → String → String
below p rest = String.◌++◌ p (String.◌++◌ "." rest)

below-not-empty : (p rest : String) → below p rest ≢ ""
below-not-empty p rest h =
    let (dot, _) =
      (append-eq-nil_iff {p = "."} {q = rest}).0
        ((append-eq-nil_iff {p = p} {q = String.◌++◌ "." rest}).0 h).1 in
    cc dot

below_assoc : (p q r : String) → below (below p q) r ≡ below p (below q r)
below_assoc p q r =
    append_assoc p (String.◌++◌ "." q) (String.◌++◌ "." r)
    ∙ ap (λ t. String.◌++◌ p t) (append_assoc "." q (String.◌++◌ "." r))

join-append :
    (w : String) (taken : List String) (r : String) (rest : List String)
    → join "." ((w ∷ taken) ++ r ∷ rest) ≡ below (join "." (w ∷ taken)) (join "." (r ∷ rest))
unfolding join
join-append w [] r rest = refl
join-append w (v ∷ taken) r rest =
    ap (below w) (join-append v taken r rest)
    ∙ sym (below_assoc w (join "." (v ∷ taken)) (join "." (r ∷ rest)))

-- The ancestors of an id are its first segments.
ancestor_taken :
    (p id : String)
    → IsAncestor p id
    → (w : String) × ((taken : List String) × ((rest : List String) × ((split 46 id
              ≡ (w ∷ taken) ++ rest)
            × (p ≡ join "." (w ∷ taken)))))
ancestor_taken p id h =
    let (w, (taken, k)) = Splitting.split-cons "." p in
    let whole : p ≡ join "." (w ∷ taken) =
      sym (subst (λ l. join "." l ≡ p) k (Splitting.join-split "." p)) in
    elim h [
      | inl same ↦
          (w, (taken, ([], (ap (split 46) (sym same) ∙ k ∙ sym (append-nil (w ∷ taken)), whole))))
      | inr (rest, e) ↦ (
        w,
        (
          taken,
          (
            split 46 rest,
            (
              ap (split 46) e ∙ Splitting.split-both "." p rest ∙ ap (λ l. l ++ split 46 rest) k,
              whole,
            ),
          ),
        ),
      )
    ]

taken-IsAncestor :
    (id w : String) (taken rest : List String)
    → split 46 id ≡ (w ∷ taken) ++ rest
    → IsAncestor (join "." (w ∷ taken)) id
taken-IsAncestor id w taken [] e =
    inl (ap (join ".") (sym (append-nil (w ∷ taken)) ∙ sym e) ∙ Splitting.join-split "." id)
taken-IsAncestor id w taken (r ∷ rest) e = inr (
  join "." (r ∷ rest),
  sym (Splitting.join-split "." id) ∙ ap (join ".") e ∙ join-append w taken r rest,
)

-- The test of the level before the loop.
allowed :
    (level min_level : TelemetryLevel) (clear : Bool)
    → ((if eq_level level off || lt_level level min_level then false else clear) ≡ true)
      ↔ ((level ≢ off) × ((rank min_level ≤ rank level) × (clear ≡ true)))
allowed off min_level clear = (λ h. cc, λ (on, _). absurd (on refl))
allowed usage min_level clear = ground arith
allowed diagnostic min_level clear = ground arith
allowed debug min_level clear = ground arith

module _ (registry : ProbeRegistry) (enabled : String → Bool) where
  abbrev IsOpen : String → Type 0
  IsOpen p = has_probe registry p ≡ true → enabled p ≡ true

  -- One round, at the prefix `upto`.
  round :
      (upto : String) (segments : List String)
      → ((if has_probe registry upto && not (enabled upto)
            then false
            else prefixes_enabled registry enabled upto segments)
          ≡ true)
        ↔ (IsOpen upto × (prefixes_enabled registry enabled upto segments ≡ true))
  round upto segments = ground arith

  opened :
      (before s : String) (segments : List String)
      → before ≢ ""
      → (prefixes_enabled registry enabled before (s ∷ segments) ≡ true) ↔ (
          IsOpen (below before s)
          × (prefixes_enabled registry enabled (below before s) segments ≡ true))
  unfolding prefixes_enabled
  opened before s segments h = elim (Bool-cases (before == "")) [
    | inl e ↦ absurd (h ((eq_iff before "").0 e))
    | inr e ↦ rw (prefixes_enabled, e, append_assoc before "." s) (round (below before s) segments)
  ]

  opened_first :
      (first : String) (segments : List String)
      → (prefixes_enabled registry enabled "" (first ∷ segments) ≡ true)
        ↔ (IsOpen first × (prefixes_enabled registry enabled first segments ≡ true))
  unfolding prefixes_enabled
  opened_first first segments = rw (prefixes_enabled, nil-append first) (round first segments)

  -- Every prefix of the segments, put below `before`, is open.
  abbrev AllOpen : String → List String → Type 0
  AllOpen before segments =
      (w : String) (taken rest : List String)
      → segments ≡ (w ∷ taken) ++ rest
      → IsOpen (below before (join "." (w ∷ taken)))

  all_opened :
      (before : String) (segments : List String)
      → before ≢ ""
      → prefixes_enabled registry enabled before segments ≡ true
      → AllOpen before segments
  unfolding join
  all_opened before [] nonempty h w taken rest e = cc
  all_opened before (s ∷ segments) nonempty h w [] rest e =
      let same : s ≡ w = cc in
      subst (λ t. IsOpen (below before t)) same ((opened before s segments nonempty).0 h).0
  all_opened before (s ∷ segments) nonempty h w (v ∷ taken) rest e =
      let same : s ≡ w = cc in
      let later : segments ≡ (v ∷ taken) ++ rest = cc in
      subst IsOpen
        (below_assoc before s (join "." (v ∷ taken))
          ∙ ap (λ t. below before (below t (join "." (v ∷ taken)))) same)
        (all_opened (below before s) segments (below-not-empty before s)
          ((opened before s segments nonempty).0 h).1 v taken rest later)

  opened_all :
      (before : String) (segments : List String)
      → before ≢ ""
      → AllOpen before segments
      → prefixes_enabled registry enabled before segments ≡ true
  unfolding join prefixes_enabled
  opened_all before [] nonempty h = refl
  opened_all before (s ∷ segments) nonempty h = (opened before s segments nonempty).1 (
    h s [] segments refl,
    opened_all (below before s) segments (below-not-empty before s) (λ w taken rest e.
        subst IsOpen (sym (below_assoc before s (join "." (w ∷ taken))))
          (h s (w ∷ taken) rest (ap (λ l. s ∷ l) e))),
  )

  all_opened_first :
      (first : String) (segments : List String)
      → first ≢ ""
      → prefixes_enabled registry enabled "" (first ∷ segments) ≡ true
      → (w : String) (taken rest : List String) → first ∷ segments ≡ (w ∷ taken) ++ rest
      → IsOpen (join "." (w ∷ taken))
  unfolding join
  all_opened_first first segments nonempty h w [] rest e =
      let same : first ≡ w = cc in subst IsOpen same ((opened_first first segments).0 h).0
  all_opened_first first segments nonempty h w (v ∷ taken) rest e =
      let same : first ≡ w = cc in
      let later : segments ≡ (v ∷ taken) ++ rest = cc in
      subst (λ t. IsOpen (below t (join "." (v ∷ taken)))) same
        (all_opened first segments nonempty ((opened_first first segments).0 h).1 v taken rest
          later)

  prefixes_enabled_iff :
      (id first : String) (segments : List String)
      → split 46 id ≡ first ∷ segments
      → first ≢ ""
      → (prefixes_enabled registry enabled "" (split 46 id) ≡ true)
        ↔ ((p : String) → IsAncestor p id → IsOpen p)
  unfolding join
  prefixes_enabled_iff id first segments k nonempty = (
    λ h p above.
        let (w, (taken, (rest, (e, whole)))) = ancestor_taken p id above in
        subst IsOpen (sym whole) (
          all_opened_first first segments nonempty
            (subst (λ l. prefixes_enabled registry enabled "" l ≡ true) k h) w taken rest
            (sym k ∙ e)),
    λ h.
        subst (λ l. prefixes_enabled registry enabled "" l ≡ true) (sym k)
          ((opened_first first segments).1 (
            h first (taken-IsAncestor id first [] segments k),
            opened_all first segments nonempty (λ w taken rest e.
                h _ (taken-IsAncestor id first (w ∷ taken) rest (k ∙ ap (λ l. first ∷ l) e))),
          )),
  )

  get_id :
      (id : String) (spec : ProbeSpec)
      → get registry id ≡ some spec
      → In spec registry.probes × (spec.id ≡ id)
  get_id id spec h =
      let (m, e) = find_sound (λ p. p.id == id) registry.probes spec h in
      (m, (eq_iff spec.id id).0 e)

  -- A probe may emit exactly where it is registered, telemetry is not off, its own level is no higher
  -- than the process's, and neither it nor a registered probe above it is disabled. The registry is
  -- one that registrations have built.
  pub effective_iff :
      (level : TelemetryLevel) (id : String)
      → IsBuilt registry
      → (effective registry level id enabled ≡ true) ↔ (
          (spec : ProbeSpec) × ((get registry id ≡ some spec)
            × ((level ≢ off)
                × ((rank spec.min_level ≤ rank level)
                    × ((p : String)
                        → IsAncestor p id
                        → has_probe registry p ≡ true
                        → enabled p ≡ true)))))
  unfolding effective
  effective_iff level id built = elim (Option-cases (get registry id)) [
    | inl e ↦ rw (effective, e) (λ h. cc, λ (spec, (h, _)). cc)
    | inr (spec, e) ↦
        let (m, same) = get_id id spec e in
        let shape : IsProbeId id = subst IsProbeId same (
          All-In (λ (p : ProbeSpec). IsProbeId p.id) registry.probes spec
            (IsBuilt-IsOrdered registry built).1.1 m) in
        let (first, (segments, (k, ((shaped, _), _)))) = pieces_of_id id shape in
        let inner = prefixes_enabled_iff id first segments k shaped.0 in
        let (there, back) =
          allowed level spec.min_level (prefixes_enabled registry enabled "" (split 46 id)) in
        rw (effective, e)
          (
            λ h. let (on, (high, clear)) = there h in (spec, (refl, (on, (high, inner.0 clear)))),
            λ (other, (h, (on, (high, clear)))). back (
              on,
              (
                subst (λ (p : ProbeSpec). rank p.min_level ≤ rank level) (sym (some-inj h)) high,
                inner.1 clear,
              ),
            ),
          )
  ]
