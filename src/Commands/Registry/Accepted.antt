-- ===== src/Commands/Registry/Accepted.antt =====
-- What a registration has found when it is accepted (src/command/registry.rs).
use cli_framework.Prelude.{
  ok-inj, ◌≡◌, inl, inr, Bool, false, ◌||◌, none, ok, arith, is_some, Bool-cases, Option-cases,
}
use cli_framework.Prelude.Maps.{insert, contains_key}
use cli_framework.Spec.Args.{GroupMetadata}
use cli_framework.Spec.Paths.{CommandPath, to_path_string}
use cli_framework.Commands.{Command, all_aliases}
use cli_framework.Commands.Registry.{
  CommandRegistry, find_map, command_ancestor, path_has_descendants, existing_alias_for_path,
  existing_alias_ancestor, alias_error, register_at, register_group,
}

or_false :
    (a b c d : Bool)
    → a || b || c || d ≡ false
    → (a ≡ false) × ((b ≡ false) × ((c ≡ false) × (d ≡ false)))
or_false a b c d h = ground arith

module _ {Execute : Type 0} where
  -- What register_at has found when it returns a registry.
  abbrev pub IsFree : CommandRegistry Execute → CommandPath → Type 0
  IsFree r p =
      (contains_key (to_path_string p) r.tree_commands ≡ false)
      × ((contains_key (to_path_string p) r.groups ≡ false)
          × ((is_some (command_ancestor r p) ≡ false)
              × ((existing_alias_for_path r (to_path_string p) ≡ none)
                  × (existing_alias_ancestor r p ≡ none))))

  pub register_at_ok :
      (r : CommandRegistry Execute) (p : CommandPath) (command : Command Execute)
      (registered : CommandRegistry Execute)
      → register_at r p command ≡ ok registered
      → IsFree r p
        × ((path_has_descendants r (to_path_string p) ≡ false)
            × ((find_map (alias_error r p) (all_aliases command) ≡ none)
                × (record r { tree_commands = insert (to_path_string p) command r.tree_commands }
                    ≡ registered)))
  unfolding register_at
  register_at_ok r p command registered h =
      let path = to_path_string p in
      elim (Bool-cases (
        contains_key path r.tree_commands
        || contains_key path r.groups
        || is_some (command_ancestor r p)
        || path_has_descendants r path)) [
          | inl e ↦ cc (rw (register_at, e) at h)
          | inr e ↦ elim (Option-cases (existing_alias_for_path r path)) [
            | inr (a, k) ↦ cc (rw (register_at, e, k) at h)
            | inl k ↦ elim (Option-cases (existing_alias_ancestor r p)) [
              | inr (a, l) ↦ cc (rw (register_at, e, k, l) at h)
              | inl l ↦ elim (Option-cases (find_map (alias_error r p) (all_aliases command))) [
                | inr (a, m) ↦ cc (rw (register_at, e, k, l, m) at h)
                | inl m ↦
                    let h : ok (record r { tree_commands = insert path command r.tree_commands })
                        ≡ ok registered =
                      rw (register_at, e, k, l, m) at h in
                    let (a, (b, (c, d))) = or_false _ _ _ _ e in
                    ((a, (b, (c, (k, l)))), (d, (m, ok-inj h)))
              ]
            ]
          ]
        ]

  pub register_group_ok :
      (r : CommandRegistry Execute) (p : CommandPath) (metadata : GroupMetadata)
      (registered : CommandRegistry Execute)
      → register_group r p metadata ≡ ok registered
      → IsFree r p
        × (record r { groups = insert (to_path_string p) metadata r.groups } ≡ registered)
  unfolding register_group
  register_group_ok r p metadata registered h =
      let path = to_path_string p in
      elim (Bool-cases (
        contains_key path r.tree_commands
        || contains_key path r.groups
        || is_some (command_ancestor r p))) [
          | inl e ↦ cc (rw (register_group, e) at h)
          | inr e ↦ elim (Option-cases (existing_alias_for_path r path)) [
            | inr (a, k) ↦ cc (rw (register_group, e, k) at h)
            | inl k ↦ elim (Option-cases (existing_alias_ancestor r p)) [
              | inr (a, l) ↦ cc (rw (register_group, e, k, l) at h)
              | inl l ↦
                  let h : ok (record r { groups = insert path metadata r.groups }) ≡ ok registered =
                    rw (register_group, e, k, l) at h in
                  let (a, (b, (c, _))) = or_false _ _ _ false (ground (arith, e)) in
                  ((a, (b, (c, (k, l)))), ok-inj h)
            ]
          ]
        ]
