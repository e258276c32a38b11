-- ===== src/Tests/Policies.antt =====
-- The policy engine at concrete inputs.
use port_sentinel.Base.Floats.{whole}
use port_sentinel.Base.Time.{seconds}
use port_sentinel.Base.{contains, ℕ, ◌*◌, ◌≡◌, refl, true, [], ◌∷◌, none, nat_keys}
use port_sentinel.Domain.Events.{Stamp}
use port_sentinel.Domain.Policy.{
  PolicyEngine, evaluate, trigger_key, evaluate_from, cooling, conditions, trigger, make_event,
}
use port_sentinel.Base.Text.{show, lower}
use port_sentinel.Base.Dict.{get, put}
use port_sentinel.Domain.Policy.Cooldown.{Call, run, Spaced, run-Spaced}
use port_sentinel.Domain.Policy.Selection.{Selects, evaluate-Selects}
use port_sentinel.Domain.Rule.{PolicyRule, matches_app, matches_risk, matches_traffic}
use port_sentinel.Domain.Snapshot.{PortSnapshot}

abbrev stamp : Stamp
stamp = record { event_id = "000000000001"; timestamp = 0 }

abbrev rule : PolicyRule ℕ
rule = record {
  id = "p1";
  name = "exfiltration";
  description = "";
  enabled = true;
  min_kb_s = 100;
  min_risk_score = 5;
  target_app = none;
  exclude_apps = "Chrome" ∷ [];
  action = "block";
}

abbrev calm_rule : PolicyRule ℕ
calm_rule = record rule { id = "p0"; min_risk_score = 9 }

abbrev engine : PolicyEngine ℕ ℕ
engine = record {
  policies = calm_rule ∷ rule ∷ [];
  on_trigger = none;
  last_trigger = [];
  cooldown = 60;
}

abbrev snapshot : PortSnapshot ℕ
snapshot = record {
  timestamp = seconds 1000;
  port = 8080;
  pid = 77;
  app_name = "curl";
  kb_s_in = 80;
  kb_s_out = 40;
  protocol = "TCP";
  direction = "both";
  risk_score = 7;
  remote_ip = "203.0.113.9";
  org = "Unknown";
  country = "??";
}

abbrev at : ℕ → Call ℕ
at s = record { stamp = stamp; clock = λ _. seconds s; snapshot = snapshot }

-- The excluded application is matched without regard to case, and the second call cools down.
policy_program : Unit {0}
unfolding run evaluate evaluate_from cooling conditions trigger make_event trigger_key show get put
    matches_app matches_risk matches_traffic contains lower
policy_program = tt

triggers_twice :
    run engine 0 [] (at 1000 ∷ at 1030 ∷ at 1060 ∷ [])
    ≡ ("p1:8080", seconds 1060) ∷ ("p1:8080", seconds 1000) ∷ []
unfolding policy_program
triggers_twice = refl

run-Spaced_example : Spaced (seconds 60) (run engine 0 [] (at 1000 ∷ at 1030 ∷ at 1060 ∷ []))
run-Spaced_example = run-Spaced engine 0 (at 1000 ∷ at 1030 ∷ at 1060 ∷ [])

evaluate-Selects_example :
    Selects engine snapshot stamp 0
      (λ n. seconds (1000 * n))
      engine.policies
      (evaluate stamp (λ n. seconds (1000 * n)) engine snapshot 0)
evaluate-Selects_example = evaluate-Selects engine snapshot stamp (λ n. seconds (1000 * n)) 0
