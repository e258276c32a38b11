-- ===== src/Bus/Publish.antt =====
-- Each handler that is subscribed to an event's type is called exactly once.
use mathlib.Core.Path.{ap₂}
use port_sentinel.Base.Dict.{Dict, get}
use port_sentinel.Bus.{
  EventBus, new_bus, subscribe, subscribe_async, unsubscribe, clear, handlers_of, add_handler,
  drop_handler, Client, call_all, publish, publish_async,
}
use port_sentinel.Bus.Handlers.{
  count, count-append, contains-count, count-remove_one, handlers_of-add, handlers_of-drop,
}
use port_sentinel.Base.{
  if◌then◌else◌, ℕ, List, [], Bool, HasEq, false, ◌∷◌, ◌≤◌, ◌≡◌, ◌==◌, ◌&&◌, not, ◌||◌, Bool-cases,
  inr, inl, ap, ◌∙◌, contains, arith, ◌+◌, map, true, refl, ◌++◌,
}

pub data Change (T H : Type 0) : Type 0 where
  subscribed unsubscribed subscribed_async : T → H → Change T H
  cleared : Change T H

abbrev pub bit : Bool → ℕ
bit b = if b then 1 else 0

bit-le : (b : Bool) → bit b ≤ 1
bit-le true = omega arith
bit-le false = omega arith

module _ {T H : Type 0} ⦃te : HasEq T⦄ ⦃he : HasEq H⦄ where
  abbrev pub apply : EventBus T H → Change T H → EventBus T H
  apply bus (subscribed t h) = subscribe bus t h
  apply bus (unsubscribed t h) = unsubscribe bus t h
  apply bus (subscribed_async t h) = subscribe_async bus t h
  apply bus cleared = clear bus

  -- Changes are listed with the last one first.
  abbrev pub bus_after : List (Change T H) → EventBus T H
  bus_after [] = new_bus
  bus_after (c ∷ earlier) = apply (bus_after earlier) c

  -- The last change that concerns the handler was its subscription.
  abbrev pub is_subscribed : List (Change T H) → T → H → Bool
  is_subscribed [] s k = false
  is_subscribed (subscribed t h ∷ earlier) s k = (t == s && h == k) || is_subscribed earlier s k
  is_subscribed (unsubscribed t h ∷ earlier) s k =
      not (t == s && h == k) && is_subscribed earlier s k
  is_subscribed (subscribed_async t h ∷ earlier) s k = is_subscribed earlier s k
  is_subscribed (cleared ∷ earlier) s k = false

  -- The same for subscriptions by `subscribe_async`; `unsubscribe` ends both.
  abbrev pub is_subscribed_async : List (Change T H) → T → H → Bool
  is_subscribed_async [] s k = false
  is_subscribed_async (subscribed t h ∷ earlier) s k = is_subscribed_async earlier s k
  is_subscribed_async (unsubscribed t h ∷ earlier) s k =
      not (t == s && h == k) && is_subscribed_async earlier s k
  is_subscribed_async (subscribed_async t h ∷ earlier) s k =
      (t == s && h == k) || is_subscribed_async earlier s k
  is_subscribed_async (cleared ∷ earlier) s k = false

  count-add :
      (table : Dict T (List H)) (t s : T) (h k : H) (b : Bool)
      → ((j : H) → count j (handlers_of table t) ≤ 1)
      → count k (handlers_of table s) ≡ bit b
      → count k (handlers_of (add_handler table t h) s) ≡ bit ((t == s && h == k) || b)
  unfolding count
  count-add table t s h k b once before =
      let hs = handlers_of table t in
      elim (Bool-cases (t == s)) [
        | inr e ↦ rw (handlers_of-add table t h s, e) before
        | inl e ↦
            let same : t ≡ s = (te.same_iff t s).0 e in
            let here : count k hs ≡ bit b = ap (λ r. count k (handlers_of table r)) same ∙ before in
            let known = contains-count h hs in
            elim (Bool-cases (h == k)) [
              | inl m ↦
                  let handler : h ≡ k = (he.same_iff h k).0 m in
                  let one = once k in
                  let size : count h hs ≡ count k hs = ap (λ j. count j hs) handler in
                  elim (Bool-cases (contains hs h)) [
                    | inl c ↦
                        rw (handlers_of-add table t h s, e, c, m)
                          (ground (arith, known, c, one, size))
                    | inr c ↦
                        rw (handlers_of-add table t h s, e, c, count-append k hs (h ∷ []), m)
                          (ground (arith, known, c, one, size))
                  ]
              | inr n ↦ elim (Bool-cases (contains hs h)) [
                | inl c ↦ rw (handlers_of-add table t h s, e, c, n) here
                | inr c ↦
                    rw (handlers_of-add table t h s, e, c, count-append k hs (h ∷ []), n)
                      (ground (arith, here))
              ]
            ]
      ]

  count-drop :
      (table : Dict T (List H)) (t s : T) (h k : H) (b : Bool)
      → count k (handlers_of table s) ≡ bit b
      → count k (handlers_of (drop_handler table t h) s) ≡ bit (not (t == s && h == k) && b)
  count-drop table t s h k b before =
      let hs = handlers_of table t in
      elim (Bool-cases (t == s)) [
        | inr e ↦ rw (handlers_of-drop table t h s, e) before
        | inl e ↦
            let same : t ≡ s = (te.same_iff t s).0 e in
            let here : count k hs ≡ bit b = ap (λ r. count k (handlers_of table r)) same ∙ before in
            let known = contains-count h hs in
            let size : h ≡ k → count h hs ≡ count k hs = λ p. ap (λ j. count j hs) p in
            let less = count-remove_one h k hs in
            elim (Bool-cases (contains hs h)) [
              | inl c ↦ rw (handlers_of-drop table t h s, e, c, less) (ground (arith, here))
              | inr c ↦
                  rw (handlers_of-drop table t h s, e, c)
                    (elim (Bool-cases (h == k)) [
                      | inl m ↦
                          let gone = size ((he.same_iff h k).0 m) in
                          rw m (ground (arith, before, here, known, gone, c))
                      | inr n ↦ rw n before
                    ])
            ]
      ]

  none-subscribed : (s : T) (k : H) → count k (handlers_of [] s) ≡ 0
  unfolding count handlers_of get
  none-subscribed s k = refl

  count-bus_after :
      (changes : List (Change T H)) (s : T) (k : H)
      → count k (handlers_of (bus_after changes).handlers s) ≡ bit (is_subscribed changes s k)
  unfolding subscribe unsubscribe subscribe_async clear
  count-bus_after [] s k = none-subscribed s k
  count-bus_after (subscribed t h ∷ earlier) s k =
      count-add (bus_after earlier).handlers t s h k (is_subscribed earlier s k)
        (λ j. rw (count-bus_after earlier t j) (bit-le (is_subscribed earlier t j)))
        (count-bus_after earlier s k)
  count-bus_after (unsubscribed t h ∷ earlier) s k =
      count-drop (bus_after earlier).handlers t s h k (is_subscribed earlier s k)
        (count-bus_after earlier s k)
  count-bus_after (subscribed_async t h ∷ earlier) s k = count-bus_after earlier s k
  count-bus_after (cleared ∷ earlier) s k = none-subscribed s k

  count-async :
      (changes : List (Change T H)) (s : T) (k : H)
      → count k (handlers_of (bus_after changes).async_handlers s)
        ≡ bit (is_subscribed_async changes s k)
  unfolding subscribe unsubscribe subscribe_async clear
  count-async [] s k = none-subscribed s k
  count-async (subscribed_async t h ∷ earlier) s k =
      count-add (bus_after earlier).async_handlers t s h k (is_subscribed_async earlier s k)
        (λ j. rw (count-async earlier t j) (bit-le (is_subscribed_async earlier t j)))
        (count-async earlier s k)
  count-async (unsubscribed t h ∷ earlier) s k =
      count-drop (bus_after earlier).async_handlers t s h k (is_subscribed_async earlier s k)
        (count-async earlier s k)
  count-async (subscribed t h ∷ earlier) s k = count-async earlier s k
  count-async (cleared ∷ earlier) s k = none-subscribed s k

  module _ {E W : Type 0} (c : Client T H E W) where
    abbrev pub called : W × List (H × Bool) → List H
    called r = map (λ x. x.0) r.1

    called-call_all : (hs : List H) (e : E) (w : W) → called (call_all c hs e w) ≡ hs
    unfolding call_all
    called-call_all [] e w = refl
    called-call_all (h ∷ hs) e w = ap (◌∷◌ h) (called-call_all hs e (c.run h e w).0)

    map-append :
        (xs ys : List (H × Bool))
        → map (λ x. x.0) (xs ++ ys) ≡ map (λ x. x.0) xs ++ map (λ x. x.0) ys
    map-append [] ys = refl
    map-append (x ∷ xs) ys = ap (◌∷◌ x.0) (map-append xs ys)

    -- After any changes of the bus, publishing an event calls a handler once if the last change
    -- that concerns it subscribed it to the event's type, and not at all otherwise, whichever
    -- handlers raise.
    pub publish_once :
        (changes : List (Change T H)) (e : E) (w : W) (k : H)
        → count k (called (publish c (bus_after changes) e w))
          ≡ bit (is_subscribed changes (c.event_type e) k)
    unfolding publish
    publish_once changes e w k =
        ap (count k)
          (called-call_all (handlers_of (bus_after changes).handlers (c.event_type e)) e w)
        ∙ count-bus_after changes (c.event_type e) k

    -- `publish_async` calls a handler once for each of the two ways in which it is subscribed.
    pub publish_async_once :
        (changes : List (Change T H)) (e : E) (w : W) (k : H)
        → count k (called (publish_async c (bus_after changes) e w))
          ≡ bit (is_subscribed changes (c.event_type e) k)
            + bit (is_subscribed_async changes (c.event_type e) k)
    unfolding publish_async
    publish_async_once changes e w k =
        let hs = handlers_of (bus_after changes).handlers (c.event_type e) in
        let more = handlers_of (bus_after changes).async_handlers (c.event_type e) in
        let first = call_all c hs e w in
        let second = call_all c more e first.0 in
        ap (count k) (map-append first.1 second.1)
        ∙ count-append k (called first) (called second)
        ∙ ap₂ (◌+◌)
            (ap (count k) (called-call_all hs e w) ∙ count-bus_after changes (c.event_type e) k)
            (ap (count k) (called-call_all more e first.0) ∙ count-async changes (c.event_type e) k)
