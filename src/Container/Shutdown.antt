-- ===== src/Container/Shutdown.antt =====
-- What is left after a shutdown.
use port_sentinel.Base.{
  HasEq, String, ℕ, [], ◌∷◌, ◌≡◌, All, Bool, ◌&&◌, false, refl, Bool-cases, inl, inr, some,
  text_keys,
}
use port_sentinel.Base.Result.{Result}
use port_sentinel.Bridges.{BridgeError}
use port_sentinel.Bus.{Client, publish_async, clear, handlers_of, call_all}
use port_sentinel.Base.Dict.{get}
use port_sentinel.Container.{Container, shutdown}
use port_sentinel.Plugins.{PluginRegistry, stop_one, stop_all}

stop_all-stopped :
    (returns : String → Bool) (plugins : PluginRegistry)
    → All (λ e. (e.1.started && returns e.1.name) ≡ false) (stop_all returns plugins)
unfolding stop_all stop_one
stop_all-stopped returns [] = tt
stop_all-stopped returns ((name, p) ∷ rest) = (
  elim (Bool-cases (p.started && returns p.name)) [ inl y ↦ rw y refl | inr n ↦ rw n n ],
  stop_all-stopped returns rest,
)

module _ {Topic H B E W : Type 0} ⦃te : HasEq Topic⦄ ⦃he : HasEq H⦄ (client : Client Topic H E W)
    (returns : String → Bool) (cleanup_all_rules : B → Result BridgeError ℕ × B) where
  -- After a shutdown a published event reaches no handler, no plugin runs but those whose stop
  -- raises, and the bridge is in the state in which its cleanup leaves it, even if that raises.
  pub shutdown_correct :
      (c : Container Topic H B) (bridge : B) (e : E) (w : W)
      → c.os_bridge ≡ some bridge
      → let after = shutdown returns cleanup_all_rules c in
        (publish_async client after.event_bus e w ≡ (w, []))
        × All (λ p. (p.1.started && returns p.1.name) ≡ false) after.plugin_registry
        × (after.os_bridge ≡ some (cleanup_all_rules bridge).1)
  unfolding shutdown clear publish_async handlers_of call_all get
  shutdown_correct c bridge e w h = (refl, stop_all-stopped returns c.plugin_registry, rw h refl)
