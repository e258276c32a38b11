-- ===== src/Bus.antt =====
-- backend/application/events/bus.py. Event types and handlers are compared for equality; a call of
-- a handler changes the world and returns or raises.
pub mod Handlers
pub mod Publish
use port_sentinel.Base.Dict.{Dict, put, get}
use port_sentinel.Base.{
  Option, none, some, if◌then◌else◌, ℕ, zero, suc, List, HasEq, Bool, ◌∷◌, ◌+◌, ◌++◌, or_else, [],
  contains, length, ◌==◌,
}

-- What the bus needs of its clients: `run h e w` is the world after the call, and whether it
-- returned; `event_type` is `type(event)`.
pub record Client (T H E W : Type 0) : Type 0 where
  pub run : H → E → W → W × Bool
  pub event_type : E → T

module _ {H : Type 0} ⦃he : HasEq H⦄ where
  -- `handlers.remove(handler)`
  unfoldable pub remove_one : H → List H → List H
  remove_one h [] = []
  remove_one h (x ∷ xs) = if x == h then xs else x ∷ remove_one h xs

module _ {T H : Type 0} ⦃te : HasEq T⦄ ⦃he : HasEq H⦄ where
  -- `table.get(event_type, [])`
  unfoldable pub handlers_of : Dict T (List H) → T → List H
  handlers_of table t = or_else (get table t) []

  -- `if handler not in table[event_type]: table[event_type].append(handler)`; looking up makes an
  -- empty list for a new type.
  unfoldable pub add_handler : Dict T (List H) → T → H → Dict T (List H)
  add_handler table t h =
      let hs = handlers_of table t in put table t (if contains hs h then hs else hs ++ h ∷ [])

  unfoldable pub drop_handler : Dict T (List H) → T → H → Dict T (List H)
  drop_handler table t h = elim (get table t) [
    | none ↦ table
    | some hs ↦ if contains hs h then put table t (remove_one h hs) else table
  ]

pub record EventBus (T H : Type 0) : Type 0 where
  pub handlers : Dict T (List H)
  pub async_handlers : Dict T (List H)

module _ {T H : Type 0} ⦃te : HasEq T⦄ ⦃he : HasEq H⦄ where
  abbrev pub new_bus : EventBus T H
  new_bus = record { handlers = []; async_handlers = [] }

  unfoldable pub subscribe : EventBus T H → T → H → EventBus T H
  subscribe bus t h = record bus { handlers = add_handler bus.handlers t h }

  unfoldable pub subscribe_async : EventBus T H → T → H → EventBus T H
  subscribe_async bus t h = record bus { async_handlers = add_handler bus.async_handlers t h }

  unfoldable pub unsubscribe : EventBus T H → T → H → EventBus T H
  unsubscribe bus t h = record {
    handlers = drop_handler bus.handlers t h;
    async_handlers = drop_handler bus.async_handlers t h;
  }

  unfoldable pub clear : EventBus T H → EventBus T H
  clear bus = record { handlers = []; async_handlers = [] }

  unfoldable pub sum_handlers : Dict T (List H) → ℕ
  sum_handlers [] = 0
  sum_handlers ((t, hs) ∷ table) = length hs + sum_handlers table

  unfoldable pub handler_count : EventBus T H → ℕ
  handler_count bus = sum_handlers bus.handlers + sum_handlers bus.async_handlers

  module _ {E W : Type 0} (c : Client T H E W) where
    -- The world after the handlers, and each handler called with whether it returned; a handler
    -- that raises is logged, and the next one is called.
    unfoldable pub call_all : List H → E → W → W × List (H × Bool)
    call_all [] e w = (w, [])
    call_all (h ∷ hs) e w =
        let (w', returned) = c.run h e w in
        let (last, log) = call_all hs e w' in (last, (h, returned) ∷ log)

    unfoldable pub publish : EventBus T H → E → W → W × List (H × Bool)
    publish bus e w = call_all (handlers_of bus.handlers (c.event_type e)) e w

    -- Both lists are copied before the first call.
    unfoldable pub publish_async : EventBus T H → E → W → W × List (H × Bool)
    publish_async bus e w =
        let (mid, log) = call_all (handlers_of bus.handlers (c.event_type e)) e w in
        let (last, more) = call_all (handlers_of bus.async_handlers (c.event_type e)) e mid in
        (last, log ++ more)
