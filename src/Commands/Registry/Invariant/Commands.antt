-- ===== src/Commands/Registry/Invariant/Commands.antt =====
-- Registering a command keeps the registry well formed (src/command/registry.rs).
use cli_framework.Prelude.{
  some-inj, String, ◌≡◌, sym, ap, ◌∙◌, subst, ◌⊎◌, inl, inr, ◌≢◌, false, none, some, ok, arith, In,
  Bool-cases, ◌==◌, eq_iff,
}
use cli_framework.Prelude.Maps.{lookup, insert, contains_key, lookup-insert}
use cli_framework.Prelude.Text.{split}
use cli_framework.Spec.Paths.{CommandPath, to_path_string}
use cli_framework.Spec.Paths.Laws.{IsProper, split-to_path_string}
use cli_framework.Commands.{Command, all_aliases}
use cli_framework.Commands.Registry.{
  CommandRegistry, find_map, qualified_alias_path, path_has_descendants, alias_error, register_at,
}
use cli_framework.Commands.Registry.Accepted.{IsFree, register_at_ok}
use cli_framework.Commands.Registry.Below.{
  IsBelow, IsOccupied, find_map-none, command_ancestor_lem, path_has_descendants_lem,
}
use cli_framework.Commands.Registry.Invariant.{
  Apart, NothingBelow, AliasesClear, IsWellFormed, not-IsBelow_itself, contains-insert,
  clear_of_free,
}

module _ {Execute : Type 0} where
  IsOccupied-command :
      (r : CommandRegistry Execute) (path key : String) (command : Command Execute)
      → IsOccupied (record r { tree_commands = insert path command r.tree_commands }) key
      → (path ≡ key) ⊎ IsOccupied r key
  IsOccupied-command r path key command (inr h) = inr (inr h)
  IsOccupied-command r path key command (inl h) =
      elim (contains-insert path key command r.tree_commands h) [
        | inl e ↦ inl e
        | inr k ↦ inr (inl k)
      ]

  -- An alias that a registration accepts is clear of every path but the command's own.
  alias_error-none :
      (r : CommandRegistry Execute) (p : CommandPath) (alias key : String)
      → alias_error r p alias ≡ none
      → IsOccupied r key
      → (qualified_alias_path p alias ≢ key) × ¬ IsBelow (qualified_alias_path p alias) key
  unfolding alias_error
  alias_error-none r p alias key h occupied =
      let path = qualified_alias_path p alias in
      elim (Bool-cases (contains_key path r.tree_commands)) [
        | inl a ↦ cc (rw (alias_error, a) at h)
        | inr a ↦ elim (Bool-cases (contains_key path r.groups)) [
          | inl b ↦ cc (rw (alias_error, a, b) at h)
          | inr b ↦ elim (Bool-cases (path_has_descendants r path)) [
            | inl c ↦ cc (rw (alias_error, a, b, c) at h)
            | inr c ↦ (
              λ e. elim (subst (IsOccupied r) (sym e) occupied) [ inl x ↦ cc | inr x ↦ cc ],
              path_has_descendants_lem r path key c occupied,
            )
          ]
        ]
      ]

  command-Apart :
      (r : CommandRegistry Execute) (p : CommandPath) (command : Command Execute)
      → IsFree r p
      → Apart r
      → Apart (record r { tree_commands = insert (to_path_string p) command r.tree_commands })
  command-Apart r p command free apart key found =
      elim (contains-insert (to_path_string p) key command r.tree_commands found) [
        | inl e ↦ subst (λ k. contains_key k r.groups ≡ false) e free.1.0
        | inr old ↦ apart key old
      ]

  command-NothingBelow :
      (r : CommandRegistry Execute) (p : CommandPath) (command : Command Execute)
      → IsProper p
      → IsFree r p
      → path_has_descendants r (to_path_string p) ≡ false
      → NothingBelow r
      → NothingBelow
          (record r { tree_commands = insert (to_path_string p) command r.tree_commands })
  command-NothingBelow r p command proper free leafy below key other found occupied under =
      let path = to_path_string p in
      elim (contains-insert path key command r.tree_commands found) [
        | inl e ↦
            let under : IsBelow path other = subst (λ k. IsBelow k other) (sym e) under in
            elim (IsOccupied-command r path other command occupied) [
              | inl f ↦ not-IsBelow_itself path (subst (IsBelow path) (sym f) under)
              | inr old ↦ path_has_descendants_lem r path other leafy old under
            ]
        | inr known ↦ elim (IsOccupied-command r path other command occupied) [
          | inl f ↦
              command_ancestor_lem r p key proper free.1.1.0 known
                (subst (IsBelow key) (sym f) under)
          | inr old ↦ below key other known old under
        ]
      ]

  command-AliasesClear :
      (r : CommandRegistry Execute) (p : CommandPath) (command : Command Execute)
      → IsProper p
      → IsFree r p
      → find_map (alias_error r p) (all_aliases command) ≡ none
      → AliasesClear r
      → AliasesClear
          (record r { tree_commands = insert (to_path_string p) command r.tree_commands })
  command-AliasesClear r p command proper free accepted clear key alias c found m other occupied
        apart =
      let path = to_path_string p in
      elim (Bool-cases (path == key)) [
        | inl e ↦
            let own : path ≡ key = (eq_iff path key).0 e in
            let same : some command ≡ some c =
              ground (arith, lookup-insert path key command r.tree_commands) in
            let m : In alias (all_aliases command) =
              subst (λ x. In alias (all_aliases x)) (sym (some-inj same)) m in
            let place : p.segments ≡ split 47 key =
              sym (split-to_path_string p proper) ∙ ap (split 47) own in
            subst
              (λ segments.
                (qualified_alias_path (record { segments = segments }) alias ≢ other)
                × ¬ IsBelow (qualified_alias_path (record { segments = segments }) alias) other)
              place
              (elim (IsOccupied-command r path other command occupied) [
                | inl f ↦ elim (apart (sym f ∙ own)) [ ]
                | inr old ↦
                    alias_error-none r p alias other
                      (find_map-none (alias_error r p) (all_aliases command) alias accepted m) old
              ])
        | inr e ↦
            let found : lookup key r.tree_commands ≡ some c =
              ground (arith, lookup-insert path key command r.tree_commands) in
            elim (IsOccupied-command r path other command occupied) [
              | inl f ↦
                  subst
                    (λ k.
                      (qualified_alias_path (record { segments = split 47 key }) alias ≢ k)
                      × ¬ IsBelow (qualified_alias_path (record { segments = split 47 key }) alias)
                          k)
                    f (clear_of_free r p key alias c proper free found m)
              | inr old ↦ clear key alias c found m other old apart
            ]
      ]

  -- Registering a command at a proper path keeps the registry well formed.
  pub register_at-IsWellFormed :
      (r : CommandRegistry Execute) (p : CommandPath) (command : Command Execute)
      (registered : CommandRegistry Execute)
      → IsProper p
      → IsWellFormed r
      → register_at r p command ≡ ok registered
      → IsWellFormed registered
  register_at-IsWellFormed r p command registered proper (apart, (below, clear)) h =
      let (free, (leafy, (accepted, same))) = register_at_ok r p command registered h in
      subst IsWellFormed same (
        command-Apart r p command free apart,
        (
          command-NothingBelow r p command proper free leafy below,
          command-AliasesClear r p command proper free accepted clear,
        ),
      )
