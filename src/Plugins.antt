-- ===== src/Plugins.antt =====
-- backend/plugins: the registry and what it keeps of each plugin.
pub mod Registry
use port_sentinel.Base.Dict.{has, Dict, get, put}
use port_sentinel.Base.{
  text_keys, if◌then◌else◌, ℕ, String, Bool, List, [], ◌∷◌, suc, ◌&&◌, ◌+◌, Option, true, false,
}

pub record Plugin : Type 0 where
  pub name : String
  pub description : String
  pub version : String
  pub enabled : Bool
  pub started : Bool

-- Plugins by name, in the order of registration.
abbrev pub PluginRegistry : Type 0
PluginRegistry = Dict String Plugin

unfoldable pub register_plugin : PluginRegistry → Plugin → PluginRegistry
register_plugin plugins plugin =
    if has plugins plugin.name then plugins else put plugins plugin.name plugin

-- The instances that one module makes, up to its first exception, if any.
unfoldable pub register_module : PluginRegistry → List Plugin → PluginRegistry × ℕ
register_module plugins [] = (plugins, 0)
register_module plugins (plugin ∷ rest) =
    let (last, count) = register_module (register_plugin plugins plugin) rest in (last, suc count)

-- The modules that are not skipped, in the order in which they are found.
unfoldable pub discover : PluginRegistry → List (List Plugin) → PluginRegistry × ℕ
discover plugins [] = (plugins, 0)
discover plugins (found ∷ rest) =
    let (next, n) = register_module plugins found in
    let (last, m) = discover next rest in (last, n + m)

-- `returns name` tells whether the call of the plugin's `start` or `stop` returns.
unfoldable pub start_one : (String → Bool) → Plugin → Plugin
start_one returns plugin =
    if plugin.enabled && returns plugin.name then record plugin { started = true } else plugin

unfoldable pub start_all : (String → Bool) → PluginRegistry → PluginRegistry
start_all returns [] = []
start_all returns ((name, plugin) ∷ rest) =
    (name, start_one returns plugin) ∷ start_all returns rest

unfoldable pub stop_one : (String → Bool) → Plugin → Plugin
stop_one returns plugin =
    if plugin.started && returns plugin.name then record plugin { started = false } else plugin

unfoldable pub stop_all : (String → Bool) → PluginRegistry → PluginRegistry
stop_all returns [] = []
stop_all returns ((name, plugin) ∷ rest) = (name, stop_one returns plugin) ∷ stop_all returns rest

unfoldable pub get_plugin : PluginRegistry → String → Option Plugin
get_plugin plugins name = get plugins name
