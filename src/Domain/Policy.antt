-- ===== src/Domain/Policy.antt =====
-- backend/domain/policies/engine.py. `W` is what the callback `on_trigger` changes; the n-th call
-- of `time.time()` in one `evaluate` returns `clock n`.
pub mod Selection
pub mod Cooldown
use Prim.Native.String.{◌++◌}
use port_sentinel.Base.Dict.{Dict, get, put}
use port_sentinel.Base.Floats.{Floats}
use port_sentinel.Base.Text.{show}
use port_sentinel.Base.Time.{seconds}
use port_sentinel.Base.{
  ℕ, zero, suc, ◌+◌, String, Bool, true, false, not, List, [], ◌∷◌, Option, none, some, ltb, max,
  if◌then◌else◌, ◌==◌, text_keys, or_else, length, keep,
}
use mathlib.Core.List.{◌++◌ as append}
use port_sentinel.Domain.Events.{Stamp, PolicyEvaluated}
use port_sentinel.Domain.Rule.{PolicyRule, matches_app, matches_traffic, matches_risk}
use port_sentinel.Domain.Snapshot.{PortSnapshot}

pub record PolicyEngine (F W : Type 0) : Type 0 where
  pub policies : List (PolicyRule F)
  pub on_trigger : Option (PolicyEvaluated → W → W)
  pub last_trigger : Dict String ℕ
  pub cooldown : ℕ

pub record Outcome (F W : Type 0) : Type 0 where
  pub event : Option PolicyEvaluated
  pub engine : PolicyEngine F W
  pub world : W

unfoldable pub trigger_key : String → ℕ → String
trigger_key policy_id port = policy_id ++ ":" ++ show port

abbrev pub notify : {W : Type 0} → Option (PolicyEvaluated → W → W) → PolicyEvaluated → W → W
notify none event w = w
notify (some callback) event w = callback event w

module _ {F W : Type 0} where
  -- `now - self._last_trigger.get(trigger_key, 0) < self._cooldown`
  unfoldable pub cooling : PolicyEngine F W → String → ℕ → Bool
  cooling engine key now =
      ltb now (or_else (get engine.last_trigger key) 0 + seconds engine.cooldown)

module _ {F : Type 0} ⦃fl : Floats F⦄ where
  unfoldable pub conditions : PolicyRule F → PortSnapshot F → Bool
  conditions policy snapshot =
      if not (matches_risk policy snapshot.risk_score)
      then false
      else if not (matches_traffic policy (fl.add snapshot.kb_s_in snapshot.kb_s_out))
      then false
      else if not (matches_app policy snapshot.app_name)
      then false
      else true

  unfoldable pub make_event : Stamp → PolicyRule F → PortSnapshot F → PolicyEvaluated
  make_event stamp policy snapshot = record {
    stamp = stamp;
    policy_id = policy.id;
    policy_name = policy.name;
    action = policy.action;
    target_port = snapshot.port;
    target_pid = snapshot.pid;
    app_name = snapshot.app_name;
    risk_score = snapshot.risk_score;
  }

module _ {F W : Type 0} ⦃fl : Floats F⦄ where
  -- The statements after the checks.
  unfoldable pub trigger :
      Stamp → ℕ → PolicyEngine F W → PolicyRule F → PortSnapshot F → W → Outcome F W
  trigger stamp now engine policy snapshot w =
      let event = make_event stamp policy snapshot in
      record {
        event = some event;
        engine = record engine {
          last_trigger = put engine.last_trigger (trigger_key policy.id snapshot.port) now;
        };
        world = notify engine.on_trigger event w;
      }

  -- The `for` loop over the policies that are left.
  unfoldable pub evaluate_from :
      Stamp → PolicyEngine F W → PortSnapshot F → W → (ℕ → ℕ) → List (PolicyRule F) → Outcome F W
  evaluate_from stamp engine snapshot w clock [] = record {
    event = none;
    engine = engine;
    world = w;
  }
  evaluate_from stamp engine snapshot w clock (policy ∷ rest) =
      let skip = evaluate_from stamp engine snapshot w clock rest in
      let next = evaluate_from stamp engine snapshot w (λ n. clock (suc n)) rest in
      if not policy.enabled
      then skip
      else if cooling engine (trigger_key policy.id snapshot.port) (clock 0)
      then next
      else if conditions policy snapshot
      then trigger stamp (clock 0) engine policy snapshot w
      else next

  unfoldable pub evaluate : Stamp → (ℕ → ℕ) → PolicyEngine F W → PortSnapshot F → W → Outcome F W
  evaluate stamp clock engine snapshot w =
      evaluate_from stamp engine snapshot w clock engine.policies

module _ {F W : Type 0} where
  unfoldable pub add_policy : PolicyEngine F W → PolicyRule F → PolicyEngine F W
  add_policy engine policy = record engine { policies = append engine.policies (policy ∷ []) }

  unfoldable pub remove_policy : PolicyEngine F W → String → Bool × PolicyEngine F W
  remove_policy engine policy_id =
      let left = keep (λ p. not (p.id == policy_id)) engine.policies in
      (ltb (length left) (length engine.policies), record engine { policies = left })

  -- `max(1, seconds)`
  unfoldable pub set_cooldown : PolicyEngine F W → ℕ → PolicyEngine F W
  set_cooldown engine s = record engine { cooldown = max 1 s }
