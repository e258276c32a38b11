-- ===== src/Tests/Plugging.antt =====
-- The plugin registry at concrete inputs.
use port_sentinel.Plugins.{Plugin, PluginRegistry, discover, get_plugin}
use port_sentinel.Plugins.Registry.{instances, first_of, discover_correct}
use port_sentinel.Base.Dict.{find_by}
use port_sentinel.Base.{text_keys, ◌≡◌, String, List, [], ◌∷◌, true, false, length}

abbrev dns : String → Plugin
dns version = record {
  name = "dns";
  description = "DNS monitor";
  version = version;
  enabled = true;
  started = false;
}

abbrev modules : List (List Plugin)
modules = (dns "1.0.0" ∷ []) ∷ [] ∷ (dns "2.0.0" ∷ []) ∷ []

discover_correct_example :
    (get_plugin (discover [] modules).0 "dns"
      ≡ first_of (get_plugin [] "dns") (find_by (λ q. q.name) "dns" (instances modules)))
    × ((discover [] modules).1 ≡ length (instances modules))
discover_correct_example = discover_correct [] modules "dns"

abbrev registry : PluginRegistry
registry = ("dns", dns "1.0.0") ∷ []
