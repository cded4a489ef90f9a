-- ===== src/Commands/Registry/Invariant/Groups.antt =====
-- Registering a group keeps the registry well formed (src/command/registry.rs).
use cli_framework.Prelude.{
  String, ◌≡◌, sym, subst, ◌⊎◌, inl, inr, ◌≢◌, false, ok, arith, Bool-cases, ◌==◌, eq_iff,
}
use cli_framework.Prelude.Maps.{insert, contains_key, lookup-insert}
use cli_framework.Prelude.Text.{split}
use cli_framework.Spec.Args.{GroupMetadata}
use cli_framework.Spec.Paths.{CommandPath, to_path_string}
use cli_framework.Spec.Paths.Laws.{IsProper}
use cli_framework.Commands.Registry.{CommandRegistry, qualified_alias_path, register_group}
use cli_framework.Commands.Registry.Accepted.{IsFree, register_group_ok}
use cli_framework.Commands.Registry.Below.{IsBelow, IsOccupied, command_ancestor_lem}
use cli_framework.Commands.Registry.Invariant.{Apart, IsWellFormed, contains-insert, clear_of_free}

module _ {Execute : Type 0} where
  group-Apart :
      (r : CommandRegistry Execute) (p : CommandPath) (metadata : GroupMetadata)
      → IsFree r p
      → Apart r
      → Apart (record r { groups = insert (to_path_string p) metadata r.groups })
  group-Apart r p metadata free apart key found =
      let path = to_path_string p in
      elim (Bool-cases (path == key)) [
        | inl e ↦
            let clash : contains_key key r.tree_commands ≡ false =
              subst (λ k. contains_key k r.tree_commands ≡ false) ((eq_iff path key).0 e) free.0 in
            cc
        | inr e ↦ ground (arith, lookup-insert path key metadata r.groups, apart key found)
      ]

  IsOccupied-group :
      (r : CommandRegistry Execute) (path key : String) (metadata : GroupMetadata)
      → IsOccupied (record r { groups = insert path metadata r.groups }) key
      → (path ≡ key) ⊎ IsOccupied r key
  IsOccupied-group r path key metadata (inl h) = inr (inl h)
  IsOccupied-group r path key metadata (inr h) =
      elim (contains-insert path key metadata r.groups h) [ inl e ↦ inl e | inr k ↦ inr (inr k) ]

  -- Registering a group at a proper path keeps the registry well formed.
  pub register_group-IsWellFormed :
      (r : CommandRegistry Execute) (p : CommandPath) (metadata : GroupMetadata)
      (registered : CommandRegistry Execute)
      → IsProper p
      → IsWellFormed r
      → register_group r p metadata ≡ ok registered
      → IsWellFormed registered
  register_group-IsWellFormed r p metadata registered proper (apart, (below, clear)) h =
      let path = to_path_string p in
      let (free, same) = register_group_ok r p metadata registered h in
      subst IsWellFormed same (
        group-Apart r p metadata free apart,
        (
          λ key other found occupied under. elim (IsOccupied-group r path other metadata occupied) [
            | inl e ↦
                command_ancestor_lem r p key proper free.1.1.0 found
                  (subst (IsBelow key) (sym e) under)
            | inr old ↦ below key other found old under
          ],
          λ key alias command found m other occupied apart_from.
              elim (IsOccupied-group r path other metadata occupied) [
                | inl e ↦
                    subst
                      (λ k.
                        (qualified_alias_path (record { segments = split 47 key }) alias ≢ k)
                        × ¬ IsBelow
                            (qualified_alias_path (record { segments = split 47 key }) alias) k)
                      e (clear_of_free r p key alias command proper free found m)
                | inr old ↦ clear key alias command found m other old apart_from
              ],
        ),
      )
