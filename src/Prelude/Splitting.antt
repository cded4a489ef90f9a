-- ===== src/Prelude/Splitting.antt =====
-- Splitting a text at a separator and joining the pieces.
use Prim.Native.Char.{Char, code}
use Prim.Native.String
use Prim.Native.String.{String, [], ◌∷◌}
use text.Mathlib.TextLemmas.{cons-append, nil-append}
use text.Mathlib.TextEquality.{Char-path}
use mathlib.Core.Path.{◌≡◌, refl, sym, ap, ◌∙◌}
use mathlib.Core.Logic.{inl, inr}
use mathlib.Core.Bool.{true, false}
use mathlib.Core.List.{List, ◌++◌}
use native.Mathlib.Omega.{arith}
use cli_framework.Prelude.Tests.{eqb, Bool-cases}
use cli_framework.Prelude.Lists.{All}
use cli_framework.Prelude.Text.{has_char, join, split, push_front}

module _ (sep : Char) where
  pub split-free :
      (s : String) → has_char (code sep) s ≡ false → split (code sep) s ≡ List.◌∷◌ s List.[]
  unfolding split has_char
  split-free [] h = refl
  split-free (c ∷ s) h = elim (Bool-cases (eqb (code c) (code sep))) [
    | inl e ↦ ground arith
    | inr e ↦ rw (split, e, split-free s (rw (has_char, e) at h)) refl
  ]

  split-head : (t : String) → split (code sep) (sep ∷ t) ≡ List.◌∷◌ "" (split (code sep) t)
  unfolding split
  split-head t = let same : eqb (code sep) (code sep) ≡ true = ground arith in rw (split, same) refl

  pub split-append :
      (s t : String)
      → has_char (code sep) s ≡ false
      → split (code sep) (String.◌++◌ s (String.◌++◌ (sep ∷ []) t))
        ≡ List.◌∷◌ s (split (code sep) t)
  unfolding split has_char
  split-append [] t h =
      rw (nil-append (String.◌++◌ (sep ∷ []) t), cons-append sep "" t, nil-append t) (split-head t)
  split-append (c ∷ s) t h = elim (Bool-cases (eqb (code c) (code sep))) [
    | inl e ↦ ground arith
    | inr e ↦
        rw (cons-append c s (String.◌++◌ (sep ∷ []) t))
          (rw (split, e, split-append s t (rw (has_char, e) at h)) refl)
  ]

  pub split-join :
      (s : String) (rest : List String)
      → All (λ x. has_char (code sep) x ≡ false) (List.◌∷◌ s rest)
      → split (code sep) (join (sep ∷ []) (List.◌∷◌ s rest)) ≡ List.◌∷◌ s rest
  unfolding join
  split-join s List.[] (free, _) = split-free s free
  split-join s (List.◌∷◌ t rest) (free, h) =
      split-append s (join (sep ∷ []) (List.◌∷◌ t rest)) free
      ∙ ap (List.◌∷◌ s) (split-join t rest h)

  -- Splitting leaves at least one piece.
  pub split-cons :
      (s : String) → (w : String) × ((ws : List String) × (split (code sep) s ≡ List.◌∷◌ w ws))
  unfolding split
  split-cons [] = ("", (List.[], refl))
  split-cons (c ∷ s) = elim (Bool-cases (eqb (code c) (code sep))) [
    | inl e ↦ ("", (split (code sep) s, rw (split, e) refl))
    | inr e ↦ let (w, (ws, k)) = split-cons s in (c ∷ w, (ws, rw (split, e, k) refl))
  ]

  -- Splitting at a slash in the middle.
  pub split-both :
      (s t : String)
      → split (code sep) (String.◌++◌ s (String.◌++◌ (sep ∷ []) t))
        ≡ split (code sep) s ++ split (code sep) t
  unfolding split
  split-both [] t =
      rw (nil-append (String.◌++◌ (sep ∷ []) t), cons-append sep "" t, nil-append t) (split-head t)
  split-both (c ∷ s) t =
      rw (cons-append c s (String.◌++◌ (sep ∷ []) t)) (elim (Bool-cases (eqb (code c) (code sep))) [
        | inl e ↦ rw (split, e, split-both s t) refl
        | inr e ↦ let (w, (ws, k)) = split-cons s in rw (split, e, split-both s t) (rw k refl)
      ])

  join-push_front :
      (c : Char) (w : String) (ws : List String)
      → join (sep ∷ []) (push_front c (List.◌∷◌ w ws)) ≡ c ∷ join (sep ∷ []) (List.◌∷◌ w ws)
  unfolding join
  join-push_front c w List.[] = refl
  join-push_front c w (List.◌∷◌ v ws) =
      cons-append c w (String.◌++◌ (sep ∷ []) (join (sep ∷ []) (List.◌∷◌ v ws)))

  -- Joining the pieces gives the text back.
  pub join-split : (s : String) → join (sep ∷ []) (split (code sep) s) ≡ s
  unfolding split join
  join-split [] = refl
  join-split (c ∷ s) = elim (Bool-cases (eqb (code c) (code sep))) [
    | inl e ↦
        let (w, (ws, k)) = split-cons s in
        let same : c ≡ sep = Char-path c sep (ground arith) in
        let again : join (sep ∷ []) (split (code sep) s) ≡ s = join-split s in
        let whole : join (sep ∷ []) (List.◌∷◌ w ws) ≡ s = rw k at again in
        rw
          (
            split,
            e,
            k,
            join,
            whole,
            nil-append (String.◌++◌ (sep ∷ []) s),
            cons-append sep "" s,
            nil-append s,
          )
          (ap (λ x. x ∷ s) (sym same))
    | inr e ↦
        let (w, (ws, k)) = split-cons s in
        let again : join (sep ∷ []) (split (code sep) s) ≡ s = join-split s in
        let whole : join (sep ∷ []) (List.◌∷◌ w ws) ≡ s = rw k at again in
        rw (split, e, k) (join-push_front c w ws ∙ ap (λ x. c ∷ x) whole)
  ]
