-- ===== src/Domain/Policy/Cooldown.antt =====
-- The cooldown of `PolicyEngine`: triggers of one policy on one port keep their distance.
use mathlib.Core.Path.{subst}
use port_sentinel.Domain.Policy.Selection.{Selects, fires, evaluate-Selects}
use port_sentinel.Base.Dict.{get, put, get-put, get-put_self}
use port_sentinel.Base.Floats.{Floats}
use port_sentinel.Base.Time.{seconds}
use port_sentinel.Base.{
  ℕ, ◌+◌, ◌≤◌, String, false, List, [], ◌∷◌, none, some, ◌≡◌, arith, or_else, All, text_keys, refl,
  true, inl, inr,
}
use port_sentinel.Domain.Events.{Stamp, PolicyEvaluated}
use port_sentinel.Domain.Policy.{
  PolicyEngine, Outcome, trigger_key, cooling, evaluate, trigger, make_event, PolicyRule,
}
use port_sentinel.Domain.Snapshot.{PortSnapshot}

-- One call of `evaluate`: its event identifiers, its clock and its snapshot.
pub record Call (F : Type 0) : Type 0 where
  pub stamp : Stamp
  pub clock : ℕ → ℕ
  pub snapshot : PortSnapshot F

-- The triggers so far, newest first: a key and the time stored for it.
abbrev pub Log : Type 0
Log = List (String × ℕ)

abbrev pub event_key : PolicyEvaluated → String
event_key event = trigger_key event.policy_id event.target_port

module _ {F W : Type 0} where
  abbrev pub logged : Outcome F W → Log → Log
  logged out log = elim out.event [
    | none ↦ log
    | some event ↦
        (event_key event, or_else (get out.engine.last_trigger (event_key event)) 0) ∷ log
  ]

module _ {F W : Type 0} ⦃fl : Floats F⦄ where
  -- A run of calls.
  unfoldable pub run : PolicyEngine F W → W → Log → List (Call F) → Log
  run engine w log [] = log
  run engine w log (call ∷ calls) =
      let out = evaluate call.stamp call.clock engine call.snapshot w in
      run out.engine out.world (logged out log) calls

-- Two triggers of one key lie at least `distance` apart.
abbrev pub Spaced : ℕ → Log → Type 0
Spaced distance [] = Unit
Spaced distance ((key, time) ∷ log) =
    All (λ entry. entry.0 ≡ key → entry.1 + distance ≤ time) log × Spaced distance log

module _ {F W : Type 0} where
  -- The engine remembers a time for each key of the log, no earlier than those of the log.
  abbrev Covers : PolicyEngine F W → Log → Type 0
  Covers engine = All (λ entry. entry.1 ≤ or_else (get engine.last_trigger entry.0) 0)

  All-distance :
      (engine : PolicyEngine F W) (key : String) (now : ℕ) (log : Log)
      → cooling engine key now ≡ false
      → Covers engine log
      → All (λ entry. entry.0 ≡ key → entry.1 + seconds engine.cooldown ≤ now) log
  unfolding cooling
  All-distance engine key now [] h c = tt
  All-distance engine key now (entry ∷ log) h c =
      (λ e. ground (arith, e), All-distance engine key now log h c.1)

  Covers-put :
      (engine : PolicyEngine F W) (key : String) (now : ℕ) (log : Log)
      → cooling engine key now ≡ false
      → Covers engine log
      → Covers (record engine { last_trigger = put engine.last_trigger key now }) log
  unfolding cooling
  Covers-put engine key now [] h c = tt
  Covers-put engine key now (entry ∷ log) h c = (
    ground
        (arith, get-put engine.last_trigger key now entry.0, text_keys.same_iff key entry.0, c.0),
    Covers-put engine key now log h c.1,
  )

-- What holds between an engine and its log.
record Inv {F W : Type 0} (distance : ℕ) (engine : PolicyEngine F W) (log : Log) : Type 0 where
  cooldown : seconds engine.cooldown ≡ distance
  covers : Covers engine log
  spaced : Spaced distance log

module _ {F W : Type 0} ⦃fl : Floats F⦄ where
  fires-cooling :
      (engine : PolicyEngine F W) (snapshot : PortSnapshot F) (now : ℕ) (p : PolicyRule F)
      → fires engine snapshot now p ≡ true
      → cooling engine (trigger_key p.id snapshot.port) now ≡ false
  unfolding fires
  fires-cooling engine snapshot now p h = ground arith

  trigger-Inv :
      {distance : ℕ} (stamp : Stamp) (now : ℕ) (engine : PolicyEngine F W) (p : PolicyRule F)
      (snapshot : PortSnapshot F) (w : W) (log : Log)
      → fires engine snapshot now p ≡ true
      → Inv distance engine log
      → Inv distance
          (trigger stamp now engine p snapshot w).engine
          (logged (trigger stamp now engine p snapshot w) log)
  unfolding trigger make_event
  trigger-Inv {distance} stamp now engine p snapshot w log h inv =
      let key : String = trigger_key p.id snapshot.port in
      let free : cooling engine key now ≡ false = fires-cooling engine snapshot now p h in
      rw (get-put_self engine.last_trigger key now) (record {
        cooldown = inv.cooldown;
        covers = (
          rw (get-put_self engine.last_trigger key now) (omega arith),
          Covers-put engine key now log free inv.covers,
        );
        spaced = (
          subst (λ d. All (λ entry. entry.0 ≡ key → entry.1 + d ≤ now) log) inv.cooldown
              (All-distance engine key now log free inv.covers),
          inv.spaced,
        );
      })

  evaluate-Inv :
      {distance : ℕ} (call : Call F) (engine : PolicyEngine F W) (w : W) (log : Log)
      → Inv distance engine log
      → Inv distance
          (evaluate call.stamp call.clock engine call.snapshot w).engine
          (logged (evaluate call.stamp call.clock engine call.snapshot w) log)
  evaluate-Inv {distance} call engine w log inv =
      of_Selects (evaluate-Selects engine call.snapshot call.stamp call.clock w)
    where
      of_Selects :
          Selects engine call.snapshot call.stamp w call.clock engine.policies
            (evaluate call.stamp call.clock engine call.snapshot w)
          → Inv distance
              (evaluate call.stamp call.clock engine call.snapshot w).engine
              (logged (evaluate call.stamp call.clock engine call.snapshot w) log)
      of_Selects (inl (quiet, e)) = rw e inv
      of_Selects (inr (p, now, first, e)) =
          rw e (trigger-Inv call.stamp now engine p call.snapshot w log first.firing inv)

  run-Inv :
      {distance : ℕ} (engine : PolicyEngine F W) (w : W) (log : Log) (calls : List (Call F))
      → Inv distance engine log
      → Spaced distance (run engine w log calls)
  unfolding run
  run-Inv engine w log [] inv = inv.spaced
  run-Inv engine w log (call ∷ calls) inv =
      let out = evaluate call.stamp call.clock engine call.snapshot w in
      run-Inv out.engine out.world (logged out log) calls (evaluate-Inv call engine w log inv)

  -- Whatever the calls, the snapshots and the clocks (which may run backwards), two triggers of
  -- the same policy on the same port are at least the cooldown apart in the times stored for them.
  pub run-Spaced :
      (engine : PolicyEngine F W) (w : W) (calls : List (Call F))
      → Spaced (seconds engine.cooldown) (run engine w [] calls)
  run-Spaced engine w calls =
      run-Inv engine w [] calls (record { cooldown = refl; covers = tt; spaced = tt })
