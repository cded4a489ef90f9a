-- ===== src/Telemetry/Redact/Laws.antt =====
-- Which attributes the export boundary keeps (src/telemetry/redact.rs).
use cli_framework.Prelude.{
  ◌≡◌, ◌≢◌, ◌≤◌, ◌⊎◌, ◌↔◌, refl, inl, inr, String, Bool, true, false, not, ◌&&◌, List, In, any,
  any_sound, any-of-In, keep, In-keep, In-keep_of, contains, contains-of-In, contains-not_In,
  In-of-contains, if◌then◌else◌, arith, Bool-cases,
}
use cli_framework.Prelude.Text.{to_ascii_lowercase, contains_text, is_blank}
use cli_framework.Prelude.Searching.{Occurs, Occurs-contains_text, contains_text-Occurs}
use cli_framework.Telemetry.Axes.{
  TelemetryLevel, off, usage, diagnostic, debug, rank, eq_level, le_level,
}
use cli_framework.Telemetry.Redact.{
  never_list, never_keys, never_list_exempt, is_never_listed, attribute_min_level, RedactionRules,
  is_framework_key, keeps_attribute,
}

-- The key is on the list of whole keys, or has a fragment that the author added, or has one of the
-- built-in fragments without being exempt from them.
abbrev pub IsForbidden : String → List String → Type 0
IsForbidden key extra =
    In (to_ascii_lowercase key) never_keys
    ⊎ (((f : String) × (In f extra
            × ((is_blank f ≡ false) × Occurs (to_ascii_lowercase f) (to_ascii_lowercase key))))
        ⊎ ((¬ In key never_list_exempt)
            × ((f : String) × (In f never_list × Occurs f (to_ascii_lowercase key)))))

abbrev by_author : String → List String → Bool
by_author lowered extra =
    any (λ f. contains_text (to_ascii_lowercase f) lowered) (keep (λ f. not (is_blank f)) extra)

-- The four tests, one after the other.
tests :
    (whole author exempt builtin : Bool)
    → ((if whole then true else if author then true else if exempt then false else builtin) ≡ true)
      ↔ ((whole ≡ true) ⊎ ((author ≡ true) ⊎ ((exempt ≡ false) × (builtin ≡ true))))
tests true author exempt builtin = (λ _. inl refl, λ _. refl)
tests false true exempt builtin = (λ _. inr (inl refl), λ _. refl)
tests false false exempt builtin = ground arith

is_never_listed_iff :
    (key : String) (extra : List String)
    → (is_never_listed key extra ≡ true) ↔ IsForbidden key extra
unfolding is_never_listed
is_never_listed_iff key extra =
    let lowered = to_ascii_lowercase key in
    let (there, back) =
      tests (contains never_keys lowered) (by_author lowered extra) (contains never_list_exempt key)
        (any (λ f. contains_text f lowered) never_list) in
    (
      λ h. elim (there h) [
        | inl whole ↦ inl (In-of-contains never_keys lowered whole)
        | inr (inl author) ↦
            let (f, (m, t)) =
              any_sound (λ f. contains_text (to_ascii_lowercase f) lowered)
                (keep (λ f. not (is_blank f)) extra) author in
            let (old, filled) = In-keep (λ f. not (is_blank f)) f extra m in
            inr (
              inl (f, (old, (ground arith, Occurs-contains_text (to_ascii_lowercase f) lowered t))))
        | inr (inr (exempt, builtin)) ↦
            let (f, (m, t)) = any_sound (λ f. contains_text f lowered) never_list builtin in
            inr (inr (λ m'. cc (contains-of-In m'), (f, (m, Occurs-contains_text f lowered t))))
      ],
      λ h. back (elim h [
        | inl whole ↦ inl (contains-of-In whole)
        | inr (inl (f, (m, (filled, occurs)))) ↦ inr (
            inl (
              any-of-In (λ f. contains_text (to_ascii_lowercase f) lowered) f
                (keep (λ f. not (is_blank f)) extra)
                (In-keep_of (λ f. not (is_blank f)) f extra m (ground arith))
                (contains_text-Occurs (to_ascii_lowercase f) lowered occurs)))
        | inr (inr (exempt, (f, (m, occurs)))) ↦ inr (
            inr (
              contains-not_In never_list_exempt key exempt,
              any-of-In (λ f. contains_text f lowered) f never_list m
                  (contains_text-Occurs f lowered occurs),
            ))
      ]),
    )

-- The four guards of the decision.
guards :
    (never : Bool) (level : TelemetryLevel) (framework listed : Bool) (least : TelemetryLevel)
    → ((if never
          then false
          else if eq_level level off
          then false
          else if not framework && not listed
          then false
          else le_level least level)
        ≡ true)
      ↔ ((never ≡ false)
          × ((level ≢ off) × (((framework ≡ true) ⊎ (listed ≡ true)) × (rank least ≤ rank level))))
guards true level framework listed least = (λ h. cc, λ (h, _). cc)
guards false off framework listed least = (λ h. cc, λ (_, (on, _)). absurd (on refl))
guards false usage framework listed least = ground arith
guards false diagnostic framework listed least = ground arith
guards false debug framework listed least = ground arith

-- An attribute is kept exactly where its key is not forbidden, the level is not off, the key is the
-- framework's or on the author's allowlist, and the level reaches the key's own.
pub keeps_attribute_iff :
    (rules : RedactionRules) (key : String)
    → (keeps_attribute rules key ≡ true) ↔ (
        (¬ IsForbidden key rules.extra_never)
        × ((rules.level ≢ off)
            × (((is_framework_key key ≡ true) ⊎ In key rules.app_attr_allowlist)
                × (rank (attribute_min_level key) ≤ rank rules.level))))
unfolding keeps_attribute
keeps_attribute_iff rules key =
    let (there, back) =
      guards (is_never_listed key rules.extra_never) rules.level (is_framework_key key)
        (contains rules.app_attr_allowlist key) (attribute_min_level key) in
    let (listed, forbidden) = is_never_listed_iff key rules.extra_never in
    (
      λ h.
          let (clear, (on, (ours, high))) = there h in
          (
            λ f. cc (forbidden f),
            (
              on,
              (
                elim ours [
                  | inl framework ↦ inl framework
                  | inr allowed ↦ inr (In-of-contains rules.app_attr_allowlist key allowed)
                ],
                high,
              ),
            ),
          ),
      λ (clear, (on, (ours, high))). back (
        elim (Bool-cases (is_never_listed key rules.extra_never)) [
          | inl e ↦ absurd (clear (listed e))
          | inr e ↦ e
        ],
        (
          on,
          (
            elim ours [
              | inl framework ↦ inl framework
              | inr allowed ↦ inr (contains-of-In allowed)
            ],
            high,
          ),
        ),
      ),
    )
