-- ===== src/Commands/World.antt =====
-- What the container gives the handlers: the database, the bridge to the firewall, and the clock.
use port_sentinel.Database.Engine.{Engine}
use port_sentinel.Database.Tables.{Database}
use port_sentinel.Base.Result.{Result}
use port_sentinel.Base.{ℕ, String, Bool, suc}

-- A firewall bridge (`OSBridgeAdapter`) with state `B`; its calls may raise an `X`.
pub record Bridge (B X : Type 0) : Type 0 where
  -- The default of the parameter `protocol` of `block_port`.
  pub default_protocol : String
  pub block_port : ℕ → String → B → Result X Bool × B
  pub unblock_port : ℕ → B → Result X Bool × B
  pub cleanup_all_rules : B → Result X ℕ × B

-- `clock` gives the readings of `time.time()` to come.
pub record World (sql : Engine) (F B : Type 0) : Type 0 where
  pub database : Database sql F
  pub bridge : B
  pub clock : ℕ → ℕ

module _ {sql : Engine} {F B : Type 0} where
  -- Reading the clock.
  abbrev pub now : World sql F B → ℕ
  now w = w.clock 0

  abbrev pub with_database : World sql F B → Database sql F → World sql F B
  with_database w db = record w { database = db; clock = λ n. w.clock (suc n) }
