-- ===== src/Domain/Rule.antt =====
-- backend/domain/entities/rule.py
use port_sentinel.Base.Floats.{Floats}
use port_sentinel.Base.Text.{lower}
use port_sentinel.Base.{
  ℕ, String, Bool, true, false, not, List, map, Option, none, some, leb, if◌then◌else◌, ◌==◌,
  list_keys, nat_keys, text_keys, contains,
}

pub record PolicyRule (F : Type 0) : Type 0 where
  pub id : String
  pub name : String
  pub description : String
  pub enabled : Bool
  pub min_kb_s : F
  pub min_risk_score : ℕ
  pub target_app : Option String
  pub exclude_apps : List String
  pub action : String

-- `self.target_app and app_name.lower() != self.target_app.lower()`
abbrev pub other_app : Option String → String → Bool
other_app none app_name = false
other_app (some target) app_name =
    if target == "" then false else not (lower app_name == lower target)

module _ {F : Type 0} where
  unfoldable pub matches_app : PolicyRule F → String → Bool
  matches_app rule app_name =
      if contains (map lower rule.exclude_apps) (lower app_name)
      then false
      else if other_app rule.target_app app_name
      then false
      else true

  unfoldable pub matches_traffic : ⦃fl : Floats F⦄ → PolicyRule F → F → Bool
  matches_traffic ⦃fl⦄ rule total_kb_s = fl.le rule.min_kb_s total_kb_s

  unfoldable pub matches_risk : PolicyRule F → ℕ → Bool
  matches_risk rule risk_score = leb rule.min_risk_score risk_score
