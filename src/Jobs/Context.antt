-- ===== src/Jobs/Context.antt =====
-- The rest of JobManager in src/server/jobs/manager.ts: creating a job, the context that its runner
-- gets, the callbacks of its timers, the two ways in which its runner settles, and the queries.
use database_admin.Common.{
  ℕ, ◌+◌, max, Bool, true, false, ◌||◌, Option, none, some, List, [], ◌∷◌, ◌++◌, map, if◌then◌else◌,
  length, is_empty, Text, codes,
}
use database_admin.Jobs.{
  JobKind, JobStatus, JobProgress, JobParams, Job, row_to_job, job_row, get_row, coalesce,
  JobListOptions, list_rows,
}
use database_admin.Jobs.Manager.{
  job_update, call_hook, Signal, JobSummary, to_summary, JobDetail, to_detail, Output, Thrown,
  error_message, is_abort_error, empty_progress, compute_eta, LiveJob, new_live, schedule_flush,
  append_log, Scope, flush,
}
use database_admin.Jobs.Scheduler.{
  JobManager, put, live_get, within, ensure_init, pump, or_else, finish,
}
use database_admin.Jobs.Cancel.{kill_child, kill_children}

pub record NewJob : Type 0 where
  pub kind : JobKind
  pub title : Text
  pub connection_id : Option Text
  pub params : JobParams

abbrev pub same_kind : JobKind → JobKind → Bool
same_kind JobKind.«export» JobKind.«export» = true
same_kind JobKind.«import» JobKind.«import» = true
same_kind JobKind.restore JobKind.restore = true
same_kind JobKind.copy JobKind.copy = true
same_kind _ _ = false

-- The new job, with the id that randomUUID gives.
abbrev pub queued_job : ℕ → Text → NewJob → Job
queued_job now id n = record {
  id = id;
  kind = n.kind;
  title = n.title;
  connection_id = n.connection_id;
  params = n.params;
  status = JobStatus.queued;
  progress = empty_progress;
  started_at = none;
  ended_at = none;
  error = none;
  result = none;
  log = [];
  created_at = now;
}

-- `create`; `none` for the error of a kind that is not that of the parameters. `pump` runs in a
-- later turn of the event loop.
unfoldable pub create : ℕ → Text → NewJob → JobManager → JobManager × Option Job
unfolding ensure_init job_row to_summary
create now id n m0 =
    let m : JobManager = ensure_init now m0 in
    let job : Job = queued_job now id n in
    let l : LiveJob = new_live job now in
    let made : JobManager = record m {
      objects = put id l m.objects;
      live = m.live ++ id ∷ [];
      queue = m.queue ++ id ∷ [];
      rows = m.rows ++ job_row job ∷ [];
      output = m.output ++ job_update (to_summary job) ∷ [];
    } in
    if same_kind n.params.kind n.kind then (made, some job) else (m, none)

unfoldable pub set_concurrency : ℕ → ℕ → JobManager → JobManager
unfolding pump
set_concurrency now n m =
    let limited : JobManager = record m { concurrency = max 1 n } in pump now limited

-- The fields of a Partial<JobProgress> that are given.
pub record ProgressPatch : Type 0 where
  pub phase : Option Text
  pub tables_done : Option ℕ
  pub tables_total : Option ℕ
  pub rows_done : Option ℕ
  pub bytes_out : Option ℕ
  pub rows_total : Option ℕ

unfoldable pub patched : ProgressPatch → JobProgress → JobProgress
unfolding coalesce
patched patch p = record p {
  phase = coalesce patch.phase p.phase;
  tables_done = coalesce patch.tables_done p.tables_done;
  tables_total = coalesce patch.tables_total p.tables_total;
  rows_done = coalesce patch.rows_done p.rows_done;
  bytes_out = coalesce patch.bytes_out p.bytes_out;
  rows_total = or_else patch.rows_total p.rows_total;
}

-- `ctx.progress`; an ETA in the patch would be replaced.
unfoldable pub report : ℕ → ProgressPatch → Scope → Scope
unfolding patched compute_eta schedule_flush
report now patch s =
    let p : JobProgress = patched patch s.live.job.progress in
    let eta : Option ℕ = compute_eta p s.live.job.started_at now in
    let job : Job = record (s.live.job) { progress = record p { eta_ms = eta } } in
    let l : LiveJob = record (s.live) { job = job; progress_dirty = true; persist_dirty = true } in
    if s.live.finished then s else record s { live = schedule_flush l }

-- `ctx.log`
unfoldable pub log : Text → Scope → Scope
unfolding append_log
log line s = if s.live.finished then s else record s { live = append_log line s.live }

-- `ctx.registerChild`, of a child that is not in the set.
unfoldable pub register_child : List ℕ → ℕ → Scope → Scope
register_child exited child s =
    let l : LiveJob = record (s.live) { children = s.live.children ++ child ∷ [] } in
    let killed : List Output = kill_child exited child Signal.sigterm in
    if s.live.cancel_requested
    then record s { live = l; output = s.output ++ killed }
    else record s { live = l }

-- `ctx.onCancel`
unfoldable pub on_cancel : ℕ → Scope → Scope
on_cancel hook s =
    let l : LiveJob = record (s.live) { cancel_hooks = s.live.cancel_hooks ++ hook ∷ [] } in
    let called : List Output = call_hook s.live.job.id hook ∷ [] in
    if s.live.cancel_requested
    then record s { live = l; output = s.output ++ called }
    else record s { live = l }

-- The `catch` of runHook, which also runs behind the end of the job.
unfoldable pub hook_failed : Thrown → Scope → Scope
unfolding append_log error_message
hook_failed thrown s = record s {
  live = append_log (codes "Cancel hook failed: " ++ error_message thrown) s.live;
}

-- The callback of the flush timer.
unfoldable pub flush_tick : ℕ → Scope → Scope
unfolding flush
flush_tick now s = flush now (record s { live = record (s.live) { flush_timer = false } })

-- The callback of the kill timer.
unfoldable pub kill_tick : List ℕ → Scope → Scope
unfolding append_log
kill_tick exited s =
    let l : LiveJob = record (s.live) { kill_timer = false } in
    let line : Text = codes "Child process did not exit on SIGTERM; sent SIGKILL" in
    let killed : List Output = kill_children exited s.live.children Signal.sigkill in
    if s.live.finished || is_empty s.live.children
    then record s { live = l }
    else record s { live = append_log line l; output = s.output ++ killed }

-- The callback of the force timer.
unfoldable pub force_tick : ℕ → LiveJob → JobManager → JobManager
unfolding append_log within finish
force_tick now l m =
    let unarmed : LiveJob = record l { force_timer = false } in
    let line : Text = codes "Runner did not stop after SIGKILL; releasing the job slot" in
    let ended : JobManager =
      finish now JobStatus.cancelled (some (codes "Cancelled (runner did not stop)")) none
        (append_log line unarmed) m in
    if l.finished then within l.job.id l (λ s. record s { live = unarmed }) m else ended

-- How a runner settles: with a result, `undefined` and null as `none`, or with a thrown value.
pub data Outcome : Type 0 where
  resolved : (result : Option Text) → Outcome
  rejected : (thrown : Thrown) → Outcome

-- The two continuations of `start`.
unfoldable pub settle : ℕ → Outcome → LiveJob → JobManager → JobManager
unfolding finish error_message is_abort_error
settle now (Outcome.resolved result) l m = finish now JobStatus.done none result l m
settle now (Outcome.rejected thrown) l m =
    let status : JobStatus =
      if l.cancel_requested || (l.aborted || is_abort_error thrown)
      then JobStatus.cancelled
      else JobStatus.failed in
    finish now status (some (error_message thrown)) none l m

-- `list`: a live job wins over its row.
unfoldable pub list : ℕ → JobListOptions → JobManager → JobManager × List JobSummary
unfolding ensure_init list_rows live_get to_summary
list now opts m0 =
    let m : JobManager = ensure_init now m0 in
    let summary : Job → JobSummary =
      λ row. elim (live_get row.id m) [ none ↦ to_summary row | some l ↦ to_summary l.job ] in
    (m, map summary (list_rows opts m.rows))

-- `getJob`
unfoldable pub get_job : ℕ → Text → JobManager → JobManager × Option Job
unfolding ensure_init live_get get_row row_to_job
get_job now id m0 =
    let m : JobManager = ensure_init now m0 in
    let stored : Option Job = elim (get_row id m.rows) [
      | none ↦ none
      | some r ↦ some (row_to_job r)
    ] in
    (m, elim (live_get id m) [ none ↦ stored | some l ↦ some l.job ])

-- `get`, which looks in the same places.
unfoldable pub get : ℕ → Text → JobManager → JobManager × Option JobDetail
unfolding get_job to_detail
get now id m =
    let found : JobManager × Option Job = get_job now id m in
    (found.0, elim (found.1) [ none ↦ none | some job ↦ some (to_detail job) ])

unfoldable pub active_count : JobManager → ℕ
active_count m = length m.running + length m.queue
