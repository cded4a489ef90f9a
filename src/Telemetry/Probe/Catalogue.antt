-- ===== src/Telemetry/Probe/Catalogue.antt =====
-- The registry of the framework's own probes (src/telemetry/probe.rs).
use cli_framework.Prelude.{
  ◌≡◌, inl, inr, refl, sym, ap, ◌∙◌, subst, String, false, List, [], ◌∷◌, some, ok, ok-inj, In,
  In-cons, not-In-nil, contains, Distinct, eq_iff, ◌==◌, Bool-cases, Result-cases, length,
}
use cli_framework.Prelude.Text.{split, all_chars}
use cli_framework.Prelude.Sorting.{sort_by, insert_by}
use cli_framework.Telemetry.Probe.{
  ProbeSpec, ProbeRegistry, new_registry, register, get, validate_probe_id, check_id,
  check_segments,
}
use cli_framework.Telemetry.Probe.Order.{
  IsBuilt, empty, registered, IsBuilt-IsOrdered, get-register, ids,
}
use cli_framework.Telemetry.Probe.Builtin.{builtin_probes, register_all, with_builtins}

-- A list of probes that were all registered: the registry is built, each of them is found in it under
-- its id, and every other id finds what it found before.
pub register_all_found :
    (before after : ProbeRegistry) (specs : List ProbeSpec)
    → IsBuilt before
    → register_all before specs ≡ ok after
    → Distinct (ids specs)
    → IsBuilt after
      × (((spec : ProbeSpec) → In spec specs → get after spec.id ≡ some spec)
          × ((id : String) → contains (ids specs) id ≡ false → get after id ≡ get before id))
unfolding register_all
register_all_found before after [] built h d = (
  subst IsBuilt (ok-inj h) built,
  (λ spec m. absurd (not-In-nil m), λ id m. ap (λ r. get r id) (sym (ok-inj h))),
)
register_all_found before after (first ∷ specs) built h (fresh, d) =
    elim (Result-cases (register before first)) [
      | inr (e, k) ↦ cc (rw (register_all, k) at h)
      | inl (middle, k) ↦
          let (done, (found, kept)) =
            register_all_found middle after specs (registered first built k)
              (rw (register_all, k) at h) d in
          let one = λ (id : String).
            get-register before middle first id (IsBuilt-IsOrdered before built) k in
          (
            done,
            (
              λ spec m. elim (In-cons m) [
                | inr later ↦ found spec later
                | inl same ↦
                    let itself = (eq_iff first.id first.id).1 refl in
                    subst (λ (p : ProbeSpec). get after p.id ≡ some p) same
                      (kept first.id fresh ∙ one first.id ∙ rw itself refl)
              ],
              λ id m. elim (Bool-cases (first.id == id)) [
                | inl b ↦ cc (rw b at m)
                | inr b ↦ kept id (rw b at m) ∙ one id ∙ rw b refl
              ],
            ),
          )
    ]

-- The catalogue is accepted as a whole, so that the construction does not panic; every probe of it
-- is found under its id.
pub with_builtins_lem :
    (registry : ProbeRegistry) × ((with_builtins ≡ ok registry)
      × (IsBuilt registry
          × ((length registry.probes ≡ 20)
              × ((spec : ProbeSpec) → In spec builtin_probes → get registry spec.id ≡ some spec))))
unfolding with_builtins builtin_probes register_all register validate_probe_id check_id
    check_segments sort_by insert_by all_chars split
with_builtins_lem =
    let accepted : with_builtins ≡ ok _ = refl in
    let (built, (found, _)) =
      register_all_found new_registry _ builtin_probes empty accepted search in
    (_, (accepted, (built, (refl, found))))
