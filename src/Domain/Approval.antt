-- ===== src/Domain/Approval.antt =====
-- backend/domain/entities/approval.py
use port_sentinel.Base.Result.{Result, ok, raise}
use port_sentinel.Base.{ℕ, String, Bool, Option, some, ◌||◌, if◌then◌else◌, ◌==◌, text_keys}
use port_sentinel.Domain.Risk.{ValueError, value_error}

pub record Approval : Type 0 where
  pub id : ℕ
  pub action_type : String
  pub target_identifier : String
  pub reason : String
  pub status : String
  pub risk_score : ℕ
  pub created_at : ℕ
  pub resolved_at : Option ℕ
  pub resolved_by : Option String

unfoldable pub is_pending : Approval → Bool
is_pending a = a.status == "pending"

unfoldable pub is_resolved : Approval → Bool
is_resolved a = a.status == "approved" || a.status == "rejected"

unfoldable pub resolve : Approval → String → String → ℕ → Result ValueError Approval
resolve a status resolved_by now =
    if status == "approved" || status == "rejected"
    then ok (record a { status = status; resolved_at = some now; resolved_by = some resolved_by })
    else raise value_error
