-- ===== src/Database/Reviews.antt =====
-- Requests for approval, from creation to resolution.
use mathlib.Core.Path.{subst}
use mathlib.Core.Option
use port_sentinel.Base.Unique.{filter_some}
use port_sentinel.Database.Engine.{Engine, first}
use port_sentinel.Database.Tables.{Database, AnalystApproval}
use port_sentinel.Database.Approvals.{
  create_analyst_approval, update_approval_status, is_pending_row, get_pending_approvals,
}
use port_sentinel.Database.Keyed.{
  IsKeyed, with_key, first-append, first-edit_first, append-IsKeyed, edit_first-IsKeyed,
  keep-IsKeyed, first-keep_test, first_of_absent, or_new, or_new-none,
}
use port_sentinel.Database.Upserts.{first-order_by_desc}
use port_sentinel.Base.{
  ℕ, String, Option, nat_keys, text_keys, ◌≡◌, some, none, keep, is_some, if◌then◌else◌, ◌==◌, ◌∙◌,
  Bool-cases, inl, arith, inr, ap, sym, refl, Option-cases,
}

abbrev pub new_approval : ℕ → String → String → String → ℕ → ℕ → AnalystApproval
new_approval id action_type target_identifier reason risk_score now = record {
  id = id;
  created_at = now;
  action_type = action_type;
  target_identifier = target_identifier;
  reason = reason;
  status = "pending";
  risk_score = risk_score;
  resolved_at = none;
  resolved_by = none;
}

abbrev pub resolved_row : String → String → ℕ → AnalystApproval → AnalystApproval
resolved_row status resolved_by now r = record r {
  status = status;
  resolved_by = some resolved_by;
  resolved_at = some now;
}

module _ (sql : Engine) {F : Type 0} where
  abbrev pub approval : Database sql F → ℕ → Option AnalystApproval
  approval db id = first (with_key (λ r. r.id) id) (sql.rows AnalystApproval db.approvals)

  -- The pending approval with an id, as it is reported.
  abbrev pub pending : Database sql F → ℕ → Option AnalystApproval
  pending db id = first (with_key (λ r. r.id) id) (get_pending_approvals sql db)

  abbrev pub HasIds : Database sql F → Type 0
  HasIds db = IsKeyed (λ r. r.id) (sql.rows AnalystApproval db.approvals)

  pending-approval :
      (db : Database sql F) (id : ℕ)
      → HasIds db
      → pending db id ≡ filter_some is_pending_row (approval db id)
  unfolding get_pending_approvals
  pending-approval db id h =
      let rs = sql.rows AnalystApproval db.approvals in
      first-order_by_desc sql (λ r. r.id) (λ r. r.risk_score) id (keep is_pending_row rs)
        (keep-IsKeyed (λ r. r.id) is_pending_row rs h)
      ∙ first-keep_test (λ r. r.id) is_pending_row id rs h

  -- A request for approval is reported as pending under the id that is returned, which no row had
  -- before; no other report changes.
  pub create_analyst_approval_correct :
      (db : Database sql F) (action_type target_identifier reason : String) (risk_score now id : ℕ)
      → HasIds db
      → let (after, new) =
          create_analyst_approval sql db action_type target_identifier reason risk_score now in
        (approval db new ≡ none)
        × HasIds after
        × (pending after id ≡ (
            if new == id
            then some (new_approval new action_type target_identifier reason risk_score now)
            else pending db id))
  unfolding create_analyst_approval
  create_analyst_approval_correct db action_type target_identifier reason risk_score now id h =
      let rs = sql.rows AnalystApproval db.approvals in
      let new = sql.next_id AnalystApproval (λ r. r.id) db.approvals in
      let row = new_approval new action_type target_identifier reason risk_score now in
      let (after, returned) =
        create_analyst_approval sql db action_type target_identifier reason risk_score now in
      let fresh = sql.next_id_fresh AnalystApproval (λ r. r.id) db.approvals in
      let added = sql.rows-add AnalystApproval db.approvals row in
      let keyed : HasIds after = rw added (append-IsKeyed (λ r. r.id) rs row h fresh) in
      let gone = first_of_absent (λ r. r.id) new rs fresh in
      let found : approval after id
          ≡ or_new (approval db id) (if new == id then some row else none) =
        rw added (first-append (λ r. r.id) id rs row) in
      (
        gone,
        keyed,
        pending-approval after id keyed
            ∙ rw found (elim (Bool-cases (new == id)) [
              | inl y ↦
                  let same : new ≡ id = ground arith in
                  let absent : approval db id ≡ none =
                    subst (λ i. approval db i ≡ none) same gone in
                  rw (absent, y) refl
              | inr n ↦ rw n (
                  ap (filter_some is_pending_row) (or_new-none (approval db id))
                  ∙ sym (pending-approval db id h))
            ]),
      )

  abbrev edited : Database sql F → ℕ → String → String → ℕ → Database sql F
  edited db approval_id status resolved_by now = record db {
    approvals =
        sql.edit AnalystApproval db.approvals (with_key (λ r. r.id) approval_id)
          (resolved_row status resolved_by now);
  }

  edited-HasIds :
      (db : Database sql F) (approval_id : ℕ) (status resolved_by : String) (now : ℕ)
      → HasIds db
      → HasIds (edited db approval_id status resolved_by now)
  edited-HasIds db approval_id status resolved_by now h =
      rw
        (sql.rows-edit AnalystApproval db.approvals (with_key (λ r. r.id) approval_id)
          (resolved_row status resolved_by now))
        (edit_first-IsKeyed (λ r. r.id) (with_key (λ r. r.id) approval_id)
          (resolved_row status resolved_by now) (sql.rows AnalystApproval db.approvals) (λ r. refl)
          h)

  edited-pending :
      (db : Database sql F) (approval_id : ℕ) (status resolved_by : String) (now id : ℕ)
      → HasIds db
      → pending (edited db approval_id status resolved_by now) id ≡ (
          if approval_id == id
          then (if status == "pending"
              then Option.map (resolved_row status resolved_by now) (approval db id)
              else none)
          else pending db id)
  edited-pending db approval_id status resolved_by now id h =
      let change = resolved_row status resolved_by now in
      let found : approval (edited db approval_id status resolved_by now) id
          ≡ (if approval_id == id then Option.map change (approval db id) else approval db id) =
        rw (sql.rows-edit AnalystApproval db.approvals (with_key (λ r. r.id) approval_id) change) (
          first-edit_first (λ r. r.id) approval_id change id (sql.rows AnalystApproval db.approvals)
            (λ r. refl)) in
      pending-approval (edited db approval_id status resolved_by now) id
        (edited-HasIds db approval_id status resolved_by now h)
      ∙ ap (filter_some is_pending_row) found
      ∙ elim (Bool-cases (approval_id == id)) [
        | inl y ↦ rw y (elim (Option-cases (approval db id)) [
          | inl absent ↦ rw absent (ground arith)
          | inr (r, present) ↦ rw present (ground arith)
        ])
        | inr n ↦ rw n (sym (pending-approval db id h))
      ]

  -- A resolution succeeds exactly if the approval exists, resolved before or not. The approval is
  -- then reported as pending only if its new status says so; no other report changes.
  pub update_approval_status_correct :
      (db : Database sql F) (approval_id : ℕ) (status resolved_by : String) (now id : ℕ)
      → HasIds db
      → let (after, done) = update_approval_status sql db approval_id status resolved_by now in
        (done ≡ is_some (approval db approval_id))
        × HasIds after
        × (pending after id ≡ (
            if approval_id == id
            then (if status == "pending"
                then Option.map (resolved_row status resolved_by now) (approval db id)
                else none)
            else pending db id))
  unfolding update_approval_status
  update_approval_status_correct db approval_id status resolved_by now id h =
      elim (Option-cases (approval db approval_id)) [
        | inl e ↦
            rw (e, update_approval_status)
              (
                refl,
                h,
                elim (Bool-cases (approval_id == id)) [
                  | inl y ↦
                      let same : approval_id ≡ id = ground arith in
                      let absent : approval db id ≡ none =
                        subst (λ i. approval db i ≡ none) same e in
                      pending-approval db id h ∙ rw (absent, y) (ground arith)
                  | inr n ↦ rw n refl
                ],
              )
        | inr (r, e) ↦
            rw (e, update_approval_status)
              (
                refl,
                edited-HasIds db approval_id status resolved_by now h,
                edited-pending db approval_id status resolved_by now id h,
              )
      ]
