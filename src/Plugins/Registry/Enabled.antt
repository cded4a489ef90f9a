-- ===== src/Plugins/Registry/Enabled.antt =====
-- The order in which plugins are loaded (src/plugin/registry.rs).
use mathlib.Core.List.{Perm}
use cli_framework.Prelude.{◌≡◌, String, true, false, keep, ltb_ℤ, ◌≤ℤ◌, ≤ℤ-trans, <ℤ-le, arith}
use cli_framework.Prelude.Sorting.{Sorted, sort_by-Sorted, sort_by-Perm}
use cli_framework.Plugins.Registry.{
  PluginEntry, PluginRegistryConfig, is_enabled, no_later, get_enabled_plugins,
}

total : (a b : String × PluginEntry) → no_later a b ≡ false → no_later b a ≡ true
total (_, a) (_, b) h =
    let more : ltb_ℤ a.priority b.priority ≡ true = ground arith in
    let less = <ℤ-le a.priority b.priority more in ground arith

transitive :
    (a b c : String × PluginEntry) → no_later a b ≡ true → no_later b c ≡ true → no_later a c ≡ true
transitive (_, a) (_, b) (_, c) h k =
    let first : b.priority ≤ℤ a.priority = ground arith in
    let second : c.priority ≤ℤ b.priority = ground arith in
    let both = ≤ℤ-trans c.priority b.priority a.priority second first in ground arith

-- The plugins to load are the enabled ones, each once, and none stands after one of a lower priority.
pub get_enabled_plugins_lem :
    (config : PluginRegistryConfig)
    → Sorted no_later (get_enabled_plugins config)
      × Perm (get_enabled_plugins config) (keep is_enabled config.plugins)
unfolding get_enabled_plugins
get_enabled_plugins_lem config = (
  sort_by-Sorted no_later total transitive (keep is_enabled config.plugins),
  sort_by-Perm no_later (keep is_enabled config.plugins),
)
