-- ===== src/Jobs/Scheduler.antt =====
-- JobManager of src/server/jobs/manager.ts: the queue, the slots, and every operation that changes
-- them. `objects` holds every LiveJob that was ever made, since a runner's context and the timers
-- keep theirs when the `live` map has dropped it; `live` is the keys of that map. An async operation
-- is cut where it awaits: `remove` waits for `cancel`, and `removing` has the ids for which it has
-- still to go on. A clock reading is an argument of the operation, one for each call.
use database_admin.Common.{
  ℕ, ◌-◌, ◌*◌, max, Bool, true, false, not, ◌&&◌, ◌||◌, Option, none, some, List, [], ◌∷◌, ◌++◌,
  ltb, if◌then◌else◌, length, Text, codes, text_eq, has,
}
use database_admin.Jobs.{
  JobStatus, JobProgress, Job, JobRow, coalesce, fail_orphans, delete_finished_before,
}
use database_admin.Jobs.Manager.{
  to_summary, Output, LiveJob, Scope, persist, emit_update, drain_log,
}

pub record JobManager : Type 0 where
  pub objects : Text → Option LiveJob
  pub live : List Text
  pub queue : List Text
  pub running : List Text
  pub concurrency : ℕ
  pub retention_days : ℕ
  pub initialized : Bool
  pub rows : List JobRow
  pub output : List Output
  pub exited : List ℕ
  pub removing : List Text

abbrev default_concurrency : ℕ
default_concurrency = 2

abbrev default_retention_days : ℕ
default_retention_days = 7

-- An environment variable that is a finite number above 0, or the default.
abbrev positive_or : ℕ → Option ℕ → ℕ
positive_or default none = default
positive_or default (some n) = if ltb 0 n then n else default

-- The constructor: the options, the environment (DBADMIN_JOB_CONCURRENCY and
-- DBADMIN_JOB_RETENTION_DAYS as whole numbers), and the table as the process finds it.
unfoldable pub new_manager :
    (concurrency retention_days env_concurrency env_retention : Option ℕ) → List JobRow → JobManager
unfolding coalesce
new_manager concurrency retention_days env_concurrency env_retention rows = record {
  objects = λ _. none;
  live = [];
  queue = [];
  running = [];
  concurrency = max 1 (coalesce concurrency (positive_or default_concurrency env_concurrency));
  retention_days = coalesce retention_days (positive_or default_retention_days env_retention);
  initialized = false;
  rows = rows;
  output = [];
  exited = [];
  removing = [];
}

abbrev pub put : Text → LiveJob → (Text → Option LiveJob) → Text → Option LiveJob
put id l objects other = if text_eq other id then some l else objects other

-- `set.delete(id)`
unfoldable pub delete : Text → List Text → List Text
delete id [] = []
delete id (x ∷ xs) = if text_eq x id then delete id xs else x ∷ delete id xs

-- `set.add(id)`
unfoldable pub add : Text → List Text → List Text
unfolding has
add id xs = if has xs id then xs else xs ++ id ∷ []

-- `const at = queue.indexOf(id); if (at >= 0) queue.splice(at, 1)`
unfoldable pub splice_out : Text → List Text → List Text
splice_out id [] = []
splice_out id (x ∷ xs) = if text_eq x id then xs else x ∷ splice_out id xs

-- `this.live.get(id)`
unfoldable pub live_get : Text → JobManager → Option LiveJob
unfolding has
live_get id m = if has m.live id then m.objects id else none

-- A step of one job, on its record, the table and the socket.
unfoldable pub within : Text → LiveJob → (Scope → Scope) → JobManager → JobManager
within id l f m =
    let s : Scope = f (record { live = l; rows = m.rows; output = m.output }) in
    record m { objects = put id s.live m.objects; rows = s.rows; output = s.output }

-- The same for an object that a closure holds.
unfoldable pub with_object : Text → (Scope → Scope) → JobManager → JobManager
unfolding within
with_object id f m = elim (m.objects id) [ none ↦ m | some l ↦ within id l f m ]

abbrev ms_per_day : ℕ
ms_per_day = 86400000

-- `cleanup`; a cutoff before the epoch is 0, below which no job has ended.
unfoldable pub cleanup : ℕ → ℕ → JobManager → JobManager
unfolding delete_finished_before
cleanup days now m = record m { rows = delete_finished_before (now - days * ms_per_day) m.rows }

unfoldable pub ensure_init : ℕ → JobManager → JobManager
unfolding cleanup fail_orphans
ensure_init now m =
    let failed : JobManager = record m { initialized = true; rows = fail_orphans now m.rows } in
    if m.initialized then m else cleanup m.retention_days now failed

-- `start` up to the call of the runner, on the job itself.
unfoldable pub start_scope : ℕ → Scope → Scope
unfolding persist to_summary
start_scope now s =
    let progress : JobProgress = record (s.live.job.progress) { phase = codes "starting" } in
    let job : Job = record (s.live.job) {
      status = JobStatus.running;
      started_at = some now;
      progress = progress;
    } in
    let live : LiveJob = record (s.live) { job = job; last_persist_at = now } in
    emit_update (persist now (record s { live = live }))

unfoldable pub start : ℕ → LiveJob → JobManager → JobManager
unfolding within start_scope add
start now l m = within l.job.id l (start_scope now) (record m { running = add l.job.id m.running })

abbrev pub is_queued : JobStatus → Bool
is_queued JobStatus.queued = true
is_queued _ = false

-- What `pump` does with the id that it takes from the queue.
unfoldable pub start_next : ℕ → Text → JobManager → JobManager
unfolding live_get start
start_next now id m = elim (live_get id m) [
  | none ↦ m
  | some l ↦ if l.finished || not (is_queued l.job.status) then m else start now l m
]

-- `pump`; nothing that a round does puts an id into the queue.
unfoldable pub pump_from : ℕ → List Text → JobManager → JobManager
unfolding start_next
pump_from now [] m = record m { queue = [] }
pump_from now (id ∷ queue) m =
    let taken : JobManager = record m { queue = queue } in
    let rest : JobManager = pump_from now queue (start_next now id taken) in
    if ltb (length m.running) m.concurrency then rest else record m { queue = id ∷ queue }

unfoldable pub pump : ℕ → JobManager → JobManager
unfolding pump_from
pump now m = pump_from now m.queue m

-- `status === 'done'`
abbrev pub is_done : JobStatus → Bool
is_done JobStatus.done = true
is_done _ = false

unfoldable pub final_status : Bool → JobStatus → JobStatus
final_status cancel_requested status =
    if cancel_requested && is_done status then JobStatus.cancelled else status

abbrev pub or_else {ℓ} : {A : Type ℓ} → Option A → Option A → Option A
or_else (some a) b = some a
or_else none b = b

-- The fields that `finish` writes; it stops the three timers and drops the children and hooks.
unfoldable pub finish_job : ℕ → JobStatus → Option Text → Option Text → LiveJob → LiveJob
unfolding final_status
finish_job now status error result l =
    let final : JobStatus = final_status l.cancel_requested status in
    let p : JobProgress = l.job.progress in
    let done_progress : JobProgress = record p { phase = codes "done"; eta_ms = none } in
    let job : Job = record (l.job) {
      status = final;
      ended_at = some now;
      error = if is_done final then none else or_else error l.job.error;
      result = or_else result l.job.result;
      progress = if is_done final then done_progress else p;
    } in
    record l {
      finished = true;
      flush_timer = false;
      kill_timer = false;
      force_timer = false;
      job = job;
      persist_dirty = true;
      children = [];
      cancel_hooks = [];
    }

unfoldable pub finish_scope : ℕ → JobStatus → Option Text → Option Text → Scope → Scope
unfolding finish_job persist to_summary
finish_scope now status error result s =
    let ended : Scope = record s { live = finish_job now status error result s.live } in
    let drained : Scope = if s.live.removed then ended else drain_log ended in
    let written : Scope = persist now drained in
    if s.live.removed then written else emit_update written

-- `finish` up to the call of `pump`: the job ends and its slot is free.
unfoldable pub release :
    ℕ → JobStatus → Option Text → Option Text → Text → LiveJob → JobManager → JobManager
unfolding within finish_scope delete
release now status error result id l m =
    let ended : JobManager = within id l (finish_scope now status error result) m in
    record ended { running = delete id ended.running; live = delete id ended.live }

unfoldable pub finish :
    ℕ → JobStatus → Option Text → Option Text → LiveJob → JobManager → JobManager
unfolding release pump
finish now status error result l m =
    if l.finished then m else pump now (release now status error result l.job.id l m)
