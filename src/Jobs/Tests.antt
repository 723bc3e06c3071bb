-- ===== src/Jobs/Tests.antt =====
-- Runs of src/server/jobs/manager.ts, and the theorems at such inputs: one slot, and two jobs.
use database_admin.Common.{
  split_on, ◌≡◌, refl, Option, none, some, [], ◌∷◌, arith, All, Text, codes, join, has, includes,
}
use database_admin.Jobs.{
  JobKind, JobStatus, JobRow, job_row, saved_row, save, get_row, coalesce, fail_orphans,
  delete_finished_before,
}
use database_admin.Jobs.Manager.{
  to_summary, LiveJob, new_live, schedule_flush, without_cr, log_line, capped, append_log, Scope,
  persist,
}
use database_admin.Jobs.Scheduler.{
  JobManager, new_manager, delete, add, splice_out, live_get, within, cleanup, ensure_init,
  start_scope, start, start_next, pump_from, pump, final_status, finish_job, finish_scope, release,
  finish,
}
use database_admin.Jobs.Cancel.{cancel_scope, cancel_live, cancel}
use database_admin.Jobs.Context.{NewJob, queued_job, create, Outcome, settle}
use database_admin.Jobs.{serialize_log, deserialize_log}
use database_admin.Jobs.Steps.{Event, on_object, apply, step, Reach, here, next}
use database_admin.Jobs.Log.{deserialize_log-serialize_log}
use database_admin.Jobs.Invariant.{Inv}
use database_admin.Jobs.Invariant.Reachable.{Reach-Inv_new, IsSaturated, finish-IsSaturated}
use database_admin.Jobs.Recovery.{Recovered, ensure_init-Recovered, EndsAs, finish_scope-EndsAs}

abbrev copy_job : NewJob
copy_job = record {
  kind = JobKind.copy;
  title = codes "t";
  connection_id = none;
  params = record { kind = JobKind.copy; json = codes "{}" };
}

abbrev one_slot : JobManager
one_slot = new_manager (some 1) none none none []

abbrev first_made : JobManager
first_made = apply (Event.create_job 5 (codes "a") copy_job) one_slot

abbrev second_made : JobManager
second_made = apply (Event.create_job 6 (codes "b") copy_job) first_made

abbrev pumped : JobManager
pumped = apply (Event.pump_turn 7) second_made

abbrev asked : JobManager
asked = apply (Event.cancel_job 8 (codes "a")) pumped

abbrev settled : JobManager
settled = apply (Event.settles 9 (codes "a") (Outcome.resolved none)) asked

abbrev status_at : Text → JobManager → Option JobStatus
status_at id m = elim (m.objects id) [ none ↦ none | some l ↦ some l.job.status ]

-- One job runs and the other waits; a runner that ends well after the cancellation leaves a
-- cancelled job and hands the slot on.
pumped_running : pumped.running ≡ codes "a" ∷ []
unfolding apply create ensure_init cleanup fail_orphans delete_finished_before has get_row pump
    pump_from start_next live_get start within start_scope persist save saved_row add cancel
    cancel_live cancel_scope append_log split_on log_line without_cr capped schedule_flush on_object
    settle finish release finish_scope finish_job final_status delete splice_out new_manager
    coalesce job_row to_summary serialize_log join
pumped_running = refl

asked_status : status_at (codes "a") asked ≡ some JobStatus.cancelling
unfolding apply create ensure_init cleanup fail_orphans delete_finished_before has get_row pump
    pump_from start_next live_get start within start_scope persist save saved_row add cancel
    cancel_live cancel_scope append_log split_on log_line without_cr capped schedule_flush on_object
    settle finish release finish_scope finish_job final_status delete splice_out new_manager
    coalesce job_row to_summary serialize_log join
asked_status = refl

settled_status : status_at (codes "a") settled ≡ some JobStatus.cancelled
unfolding apply create ensure_init cleanup fail_orphans delete_finished_before has get_row pump
    pump_from start_next live_get start within start_scope persist save saved_row add cancel
    cancel_live cancel_scope append_log split_on log_line without_cr capped schedule_flush on_object
    settle finish release finish_scope finish_job final_status delete splice_out new_manager
    coalesce job_row to_summary serialize_log join
settled_status = refl

settled_running : settled.running ≡ codes "b" ∷ []
unfolding apply create ensure_init cleanup fail_orphans delete_finished_before has get_row pump
    pump_from start_next live_get start within start_scope persist save saved_row add cancel
    cancel_live cancel_scope append_log split_on log_line without_cr capped schedule_flush on_object
    settle finish release finish_scope finish_job final_status delete splice_out new_manager
    coalesce job_row to_summary serialize_log join
settled_running = refl

settled_reached : Reach 1 one_slot settled
unfolding apply create ensure_init cleanup fail_orphans delete_finished_before has get_row pump
    pump_from start_next live_get start within start_scope persist save saved_row add cancel
    cancel_live cancel_scope append_log split_on log_line without_cr capped schedule_flush on_object
    settle finish release finish_scope finish_job final_status delete splice_out new_manager
    coalesce job_row to_summary serialize_log join
settled_reached =
    next
      (next
        (next
          (next
            (next here (step (Event.create_job 5 (codes "a") copy_job) one_slot (refl, refl, refl)))
            (step (Event.create_job 6 (codes "b") copy_job) first_made (refl, refl, refl)))
          (step (Event.pump_turn 7) second_made tt))
        (step (Event.cancel_job 8 (codes "a")) pumped tt))
      (step (Event.settles 9 (codes "a") (Outcome.resolved none)) asked (λ h. cc h))

Reach-Inv_new_example : Inv 1 settled
Reach-Inv_new_example =
    Reach-Inv_new 1 (some 1) none none none [] settled (unfold new_manager coalesce in omega arith)
      settled_reached

abbrev running_job : LiveJob
running_job = new_live (queued_job 5 (codes "a") copy_job) 5

finish-IsSaturated_example :
    IsSaturated (finish 8 JobStatus.failed (some (codes "x")) none running_job pumped)
finish-IsSaturated_example =
    finish-IsSaturated 8 JobStatus.failed (some (codes "x")) none running_job pumped refl

deserialize_log-serialize_log_example :
    deserialize_log (serialize_log (codes "two" ∷ [] ∷ [])) ≡ codes "two" ∷ [] ∷ []
deserialize_log-serialize_log_example =
    deserialize_log-serialize_log (codes "two" ∷ [] ∷ []) (unfold includes in (refl, (refl, tt)))
      (λ h. cc h) (unfold join in omega arith)

-- The log that does not come back.
empty_line_lost : deserialize_log (serialize_log ([] ∷ [])) ≡ []
unfolding deserialize_log serialize_log join
empty_line_lost = refl

abbrev orphan : JobRow
orphan = job_row (record (queued_job 5 (codes "a") copy_job) { status = JobStatus.running })

abbrev restarted : JobManager
restarted = new_manager none none none none (orphan ∷ [])

ensure_init-Recovered_example : All (Recovered 9 restarted.rows) (ensure_init 9 restarted).rows
ensure_init-Recovered_example = ensure_init-Recovered 9 restarted (unfold new_manager in refl)

abbrev scope : Scope
scope = record {
  live = running_job;
  rows = job_row (queued_job 5 (codes "a") copy_job) ∷ [];
  output = [];
}

finish_scope-EndsAs_example :
    (row : JobRow) × (get_row (codes "a") (finish_scope 9 JobStatus.done none none scope).rows
      ≡ some row)
    × EndsAs 9 JobStatus.done none none scope.live row
finish_scope-EndsAs_example =
    finish_scope-EndsAs 9 JobStatus.done none none (job_row (queued_job 5 (codes "a") copy_job))
      scope refl (unfold get_row job_row in refl)
