-- ===== src/Database/Approvals.antt =====
-- `SQLiteDB`: analyst approvals.
use port_sentinel.Database.Engine.{Engine, first}
use port_sentinel.Database.Tables.{Database, AnalystApproval}
use port_sentinel.Base.{
  ℕ, String, List, nat_keys, text_keys, keep, Bool, none, ◌==◌, false, some, true,
}

abbrev pub is_pending_row : AnalystApproval → Bool
is_pending_row r = r.status == "pending"

module _ (sql : Engine) {F : Type 0} where
  -- The new state, and the id of the new row.
  unfoldable pub create_analyst_approval :
      Database sql F → String → String → String → ℕ → ℕ → Database sql F × ℕ
  create_analyst_approval db action_type target_identifier reason risk_score now =
      let id = sql.next_id AnalystApproval (λ r. r.id) db.approvals in
      (
        record db {
          approvals = sql.add AnalystApproval db.approvals (record {
            id = id;
            created_at = now;
            action_type = action_type;
            target_identifier = target_identifier;
            reason = reason;
            status = "pending";
            risk_score = risk_score;
            resolved_at = none;
            resolved_by = none;
          });
        },
        id,
      )

  unfoldable pub update_approval_status :
      Database sql F → ℕ → String → String → ℕ → Database sql F × Bool
  update_approval_status db approval_id status resolved_by now =
      elim (first (λ r. r.id == approval_id) (sql.rows AnalystApproval db.approvals)) [
        | none ↦ (db, false)
        | some r ↦ (
          record db {
            approvals =
                sql.edit AnalystApproval db.approvals (λ r. r.id == approval_id)
                  (λ r. record r {
                    status = status;
                    resolved_by = some resolved_by;
                    resolved_at = some now;
                  });
          },
          true,
        )
      ]

  unfoldable pub get_pending_approvals : Database sql F → List AnalystApproval
  get_pending_approvals db =
      sql.order_by_desc AnalystApproval (λ r. r.risk_score)
        (keep is_pending_row (sql.rows AnalystApproval db.approvals))
