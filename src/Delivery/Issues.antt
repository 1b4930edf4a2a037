-- ===== src/Delivery/Issues.antt =====
-- Problems on the way, and going on after them (`backend/app/modules/delivery/service.py`).
use baytna.Prelude.{ℕ, Option, none, some, Bool, true, false, not, if◌then◌else◌, String}
use baytna.Prelude.Table.{put}
use baytna.Entities.Status.{
  ◌is◌, TaskStatus, task_status, order_status, driver_status, stage_status, item_status,
  hold_status, payment_status, order_type_status, special_status, redemption_status,
}
use baytna.Delivery.Repository.{transition_task, owned_task}
use baytna.Journal.{audit}
use baytna.Session.{Db, Checked, ok, ◌>>=◌, ◌>>◌, raise_if, or_raise}

-- `DeliveryIssueRequest`
pub record DeliveryIssue : Type 0 where
  pub issue_code : String
  pub note : Option String

-- The stages from which an issue may be reported, and to which a mission may be restored.
abbrev pub is_under_way : TaskStatus → Bool
is_under_way TaskStatus.to_pickup = true
is_under_way TaskStatus.at_pickup = true
is_under_way TaskStatus.picked_up = true
is_under_way TaskStatus.to_customer = true
is_under_way _ = false

unfoldable pub report_issue : ℕ → ℕ → DeliveryIssue → Db → Checked Db
unfolding transition_task
report_issue driver_id task_id payload db = do
  task ← owned_task driver_id task_id db
  (if task.status is TaskStatus.delivery_issue then ok db else do
    raise_if (not (is_under_way task.status)) 409 "delivery_issue_invalid_state"
    task' ←
        or_raise 409 "mission_state_changed"
          (transition_task driver_id task.status TaskStatus.delivery_issue task)
    let db1 : Db = record db {
      tasks =
          put task_id
            (record task' {
              issue_from_status = some task.status;
              issue_code = some payload.issue_code;
              issue_note = payload.note;
            })
            db.tasks;
    }
    ok (audit "driver.mission.issue_reported" (some driver_id) "delivery_task" task_id db1))

unfoldable pub resume_after_issue : ℕ → ℕ → Db → Checked Db
unfolding transition_task
resume_after_issue driver_id task_id db = do
  task ← owned_task driver_id task_id db
  raise_if (not (task.status is TaskStatus.delivery_issue)) 409 "delivery_issue_not_active"
  restore ← or_raise 409 "delivery_issue_not_active" task.issue_from_status
  raise_if (not (is_under_way restore)) 409 "delivery_issue_restore_invalid"
  task' ←
      or_raise 409 "mission_state_changed"
        (transition_task driver_id TaskStatus.delivery_issue restore task)
  let db1 : Db = record db {
    tasks =
        put task_id
          (record task' { issue_from_status = none; issue_code = none; issue_note = none })
          db.tasks;
  }
  ok (audit "driver.mission.issue_resolved" (some driver_id) "delivery_task" task_id db1)
