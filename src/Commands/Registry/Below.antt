-- ===== src/Commands/Registry/Below.antt =====
-- What the registry's searches rule out when they find nothing (src/command/registry.rs).
use Prim.Native.String
use text.Mathlib.Text.{starts_with}
use text.Mathlib.TextLemmas.{append_assoc}
use text.Mathlib.TextPositions.{starts_with-append}
use cli_framework.Prelude.{
  String, ◌≡◌, refl, sym, ap, ◌∙◌, subst, ◌⊎◌, inl, inr, ◌≢◌, Bool, true, false, List, [], ◌∷◌,
  ◌++◌, map, Option, none, some, Map, arith, find, find-none, is_some, if◌then◌else◌, In, here,
  there, All-In, any-of-In, In-of-contains, Bool-cases, Option-cases, ◌==◌, eq_iff,
}
use cli_framework.Prelude.Maps.{lookup, contains_key, keys, lookup-contains}
use cli_framework.Prelude.Text.{split, join}
use cli_framework.Spec.Paths.{CommandPath, to_path_string}
use cli_framework.Spec.Paths.Texts.{split-both, split-cons, join-split}
use cli_framework.Spec.Paths.Laws.{IsProper, split-to_path_string}
use cli_framework.Commands.{Command, all_aliases}
use cli_framework.Commands.Registry.{
  CommandRegistry, find_map, proper_prefixes, qualified_alias_path, command_ancestor,
  path_has_descendants, alias_for, existing_alias_for_path, existing_alias_ancestor,
}

-- The path of the second text lies below that of the first.
abbrev pub IsBelow : String → String → Type 0
IsBelow path key = (rest : String) × (key ≡ String.◌++◌ path (String.◌++◌ "/" rest))

pub find_map-none :
    {A B : Type 0} (f : A → Option B) (xs : List A) (x : A)
    → find_map f xs ≡ none
    → In x xs
    → f x ≡ none
find_map-none f (y ∷ xs) x h (here e) = subst (λ z. f z ≡ none) e (ground arith)
find_map-none f (y ∷ xs) x h (there m) = find_map-none f xs x (ground arith) m
find_map-none f [] x h m = elim m [ ]

In-map : {A B : Type 0} (f : A → B) {x : A} {xs : List A} → In x xs → In (f x) (map f xs)
In-map f (here e) = here (ap f e)
In-map f (there m) = there (In-map f m)

In-proper_prefixes :
    (a : String) (us : List String) (b : String) (vs : List String)
    → In (a ∷ us) (proper_prefixes (a ∷ us ++ b ∷ vs))
In-proper_prefixes a [] b vs = here refl
In-proper_prefixes a (c ∷ us) b vs = there (In-map (λ t. a ∷ t) (In-proper_prefixes c us b vs))

-- The text above a proper path's text is that of a proper prefix.
prefix_of_below :
    (p : CommandPath) (above : String)
    → IsProper p
    → IsBelow above (to_path_string p)
    → In (split 47 above) (proper_prefixes p.segments)
prefix_of_below p above proper (rest, e) =
    let (a, (us, front)) = split-cons above in
    let (b, (vs, back)) = split-cons rest in
    let parts : p.segments ≡ split 47 above ++ split 47 rest =
      sym (split-to_path_string p proper) ∙ ap (split 47) e ∙ split-both above rest in
    let whole : p.segments ≡ a ∷ us ++ b ∷ vs = rw (front, back) at parts in
    subst (λ segments. In (split 47 above) (proper_prefixes segments)) (sym whole)
      (subst (λ x. In x (proper_prefixes (a ∷ us ++ b ∷ vs))) (sym front)
        (In-proper_prefixes a us b vs))

contains_key-In : {V : Type 0} (k : String) (m : Map V) → contains_key k m ≡ true → In k (keys m)
contains_key-In k m h = In-of-contains (keys m) k (lookup-contains k m ∙ h)

In-of_lookup : {V : Type 0} (k : String) (m : Map V) (v : V) → lookup k m ≡ some v → In (k, v) m
unfolding lookup
In-of_lookup k [] v h = cc
In-of_lookup k ((j, w) ∷ m) v h = elim (Bool-cases (j == k)) [
  | inl e ↦ let same : some w ≡ some v = rw (lookup, e) at h in here (cc (same, (eq_iff j k).0 e))
  | inr e ↦ there (In-of_lookup k m v (rw (lookup, e) at h))
]

is_some-none : {A : Type 0} (o : Option A) → is_some o ≡ false → o ≡ none
is_some-none none h = refl
is_some-none (some a) h = cc

module _ {Execute : Type 0} (r : CommandRegistry Execute) where
  abbrev pub IsOccupied : String → Type 0
  IsOccupied key = (contains_key key r.tree_commands ≡ true) ⊎ (contains_key key r.groups ≡ true)

  -- Without a registered ancestor, a proper path is below no command.
  pub command_ancestor_lem :
      (p : CommandPath) (key : String)
      → IsProper p
      → is_some (command_ancestor r p) ≡ false
      → contains_key key r.tree_commands ≡ true
      → ¬ IsBelow key (to_path_string p)
  unfolding command_ancestor
  command_ancestor_lem p key proper h found below =
      let at_prefix =
        find_map-none
          (λ taken.
            if contains_key (join "/" taken) r.tree_commands then some (join "/" taken) else none)
          (proper_prefixes p.segments) (split 47 key) (is_some-none _ h)
          (prefix_of_below p key proper below) in
      let clash : some key ≡ none = rw (join-split key, found) at at_prefix in cc

  pub path_has_descendants_lem :
      (path key : String)
      → path_has_descendants r path ≡ false
      → IsOccupied key
      → ¬ IsBelow path key
  unfolding path_has_descendants
  path_has_descendants_lem path key h occupied (rest, e) =
      let starts : starts_with key (String.◌++◌ path "/") ≡ true =
        subst (λ k. starts_with k (String.◌++◌ path "/") ≡ true)
          (append_assoc path "/" rest ∙ sym e) (starts_with-append (String.◌++◌ path "/") rest) in
      let test : String → Bool = λ k. starts_with k (String.◌++◌ path "/") in
      elim occupied [
        | inl found ↦
            let hit =
              any-of-In test key (keys r.tree_commands) (contains_key-In key r.tree_commands found)
                starts in
            ground arith
        | inr found ↦
            let hit =
              any-of-In test key (keys r.groups) (contains_key-In key r.groups found) starts in
            ground arith
      ]

  -- No registered command has an alias that stands for a text for which the search finds none.
  pub existing_alias_for_path_lem :
      (candidate key alias : String) (command : Command Execute)
      → existing_alias_for_path r candidate ≡ none
      → lookup key r.tree_commands ≡ some command
      → In alias (all_aliases command)
      → qualified_alias_path (record { segments = split 47 key }) alias ≢ candidate
  unfolding existing_alias_for_path alias_for
  existing_alias_for_path_lem candidate key alias command h found m same =
      let at_entry =
        find_map-none (alias_for candidate) r.tree_commands (key, command) h
          (In-of_lookup key r.tree_commands command found) in
      let test : String → Bool =
        λ a. qualified_alias_path (record { segments = split 47 key }) a == candidate in
      elim (Option-cases (find test (all_aliases command))) [
        | inl e ↦
            let miss =
              All-In (λ a. test a ≡ false) (all_aliases command) alias
                (find-none test (all_aliases command) e) m in
            ground (arith, (eq_iff _ _).1 same)
        | inr (a, e) ↦ cc (rw (alias_for, e) at at_entry)
      ]

  pub existing_alias_ancestor_lem :
      (p : CommandPath) (key alias : String) (command : Command Execute)
      → IsProper p
      → existing_alias_ancestor r p ≡ none
      → lookup key r.tree_commands ≡ some command
      → In alias (all_aliases command)
      → ¬ IsBelow
          (qualified_alias_path (record { segments = split 47 key }) alias)
          (to_path_string p)
  unfolding existing_alias_ancestor
  existing_alias_ancestor_lem p key alias command proper h found m below =
      let path = qualified_alias_path (record { segments = split 47 key }) alias in
      let at_prefix =
        find_map-none (λ taken. existing_alias_for_path r (join "/" taken))
          (proper_prefixes p.segments) (split 47 path) h (prefix_of_below p path proper below) in
      existing_alias_for_path_lem (join "/" (split 47 path)) key alias command at_prefix found m
        (sym (join-split path))
