-- ===== src/Prelude/Searching.antt =====
-- The search of a text in a text.
use Prim.Native.String
use Prim.Native.String.{String, [], ◌∷◌}
use mathlib.Core.Path.{◌≡◌, refl, sym, ap, ◌∙◌}
use mathlib.Core.Logic.{inl, inr}
use mathlib.Core.Bool.{true}
use native.Mathlib.Omega.{arith}
use text.Mathlib.Text.{starts_with}
use text.Mathlib.TextEquality.{eq_iff, starts_with_iff}
use text.Mathlib.TextLemmas.{
  cons-append, nil-append, append-nil, append-eq-nil_iff, tail-eq_of_cons-eq,
}
use cli_framework.Prelude.Tests.{Bool-cases}
use cli_framework.Prelude.Text.{contains_text}

-- `wanted` stands somewhere in `s`.
abbrev pub Occurs : String → String → Type 0
Occurs wanted s = (a : String) × ((b : String) × (s ≡ String.◌++◌ a (String.◌++◌ wanted b)))

pub Occurs-contains_text : (wanted s : String) → contains_text wanted s ≡ true → Occurs wanted s
unfolding contains_text
Occurs-contains_text wanted [] h = (
  "",
  (
    "",
    let whole : wanted ≡ "" = (eq_iff wanted "").0 h in
        sym (nil-append (String.◌++◌ wanted "") ∙ append-nil wanted ∙ whole),
  ),
)
Occurs-contains_text wanted (c ∷ s) h = elim (Bool-cases (starts_with (c ∷ s) wanted)) [
  | inl e ↦
      let (b, k) = (starts_with_iff (c ∷ s) wanted).0 e in
      ("", (b, sym (nil-append (String.◌++◌ wanted b) ∙ k)))
  | inr e ↦
      let (a, (b, k)) = Occurs-contains_text wanted s (rw (contains_text, e) at h) in
      (c ∷ a, (b, ap (λ t. c ∷ t) k ∙ sym (cons-append c a (String.◌++◌ wanted b))))
]

pub contains_text-Occurs : (wanted s : String) → Occurs wanted s → contains_text wanted s ≡ true
unfolding contains_text
contains_text-Occurs wanted [] (a, (b, k)) =
    let (first, second) = (append-eq-nil_iff {p = a} {q = String.◌++◌ wanted b}).0 (sym k) in
    let (third, fourth) = (append-eq-nil_iff {p = wanted} {q = b}).0 second in
    (eq_iff wanted "").1 third
contains_text-Occurs wanted (c ∷ s) ([], (b, k)) =
    let found =
      (starts_with_iff (c ∷ s) wanted).1 (b, sym (k ∙ nil-append (String.◌++◌ wanted b))) in
    rw (contains_text, found) refl
contains_text-Occurs wanted (c ∷ s) (d ∷ a, (b, k)) =
    let later =
      contains_text-Occurs wanted s
        (a, (b, tail-eq_of_cons-eq (k ∙ cons-append d a (String.◌++◌ wanted b)))) in
    ground (arith, later)
