-- ===== src/Jobs/Cancel.antt =====
-- Cancelling and removing a job in src/server/jobs/manager.ts.
use database_admin.Common.{
  ℕ, Bool, true, false, ◌||◌, none, some, List, [], ◌∷◌, ◌++◌, map, ◌==◌, if◌then◌else◌, any, Text,
  codes,
}
use database_admin.Jobs.{
  JobStatus, is_terminal, JobProgress, Job, row_to_job, save, get_row, remove_row,
}
use database_admin.Jobs.Manager.{
  job_update, abort, call_hook, kill, Signal, to_summary, Output, LiveJob, append_log, Scope,
  persist, emit_update,
}
use database_admin.Jobs.Scheduler.{
  JobManager, splice_out, live_get, within, ensure_init, is_queued, finish,
}

-- `killChild`, for a child that may have exited already.
abbrev pub kill_child : List ℕ → ℕ → Signal → List Output
kill_child exited child signal = if any (λ c. c == child) exited then [] else kill child signal ∷ []

abbrev pub kill_children : List ℕ → List ℕ → Signal → List Output
kill_children exited [] signal = []
kill_children exited (c ∷ cs) signal = kill_child exited c signal ++ kill_children exited cs signal

-- `cancel` of a job that has started: the abort, the hooks, SIGTERM, and the two timers.
unfoldable pub cancel_scope : ℕ → List ℕ → Scope → Scope
unfolding append_log persist to_summary
cancel_scope now exited s =
    let progress : JobProgress = record (s.live.job.progress) { phase = codes "cancelling" } in
    let job : Job = record (s.live.job) { status = JobStatus.cancelling; progress = progress } in
    let cancelling : LiveJob = record (s.live) { cancel_requested = true; job = job } in
    let logged : LiveJob = append_log (codes "Cancel requested") cancelling in
    let told : Scope = emit_update (persist now (record s { live = logged })) in
    let aborted : LiveJob = record (told.live) {
      aborted = true;
      kill_timer = true;
      force_timer = true;
    } in
    let effects : List Output =
      abort s.live.job.id ∷ map (λ h. call_hook s.live.job.id h) s.live.cancel_hooks
      ++ kill_children exited s.live.children Signal.sigterm in
    record told { live = aborted; output = told.output ++ effects }

-- `cancel` of an id that is not live: a row that is still active is debris.
unfoldable pub cancel_row : ℕ → Text → JobManager → JobManager × Bool
unfolding get_row row_to_job is_terminal save to_summary
cancel_row now id m = elim (get_row id m.rows) [
  | none ↦ (m, false)
  | some r ↦
      let found : Job = row_to_job r in
      let job : Job = record found { status = JobStatus.cancelled; ended_at = some now } in
      if is_terminal found.status then (m, false) else (
        record m { rows = save job m.rows; output = m.output ++ job_update (to_summary job) ∷ [] },
        true,
      )
]

unfoldable pub cancel_live : ℕ → Text → LiveJob → JobManager → JobManager × Bool
unfolding finish splice_out cancel_scope within
cancel_live now id l m =
    let requested : LiveJob = record l { cancel_requested = true } in
    let dequeued : JobManager = record m { queue = splice_out id m.queue } in
    if l.finished || l.cancel_requested
    then (m, false)
    else if is_queued l.job.status
    then (
      finish now JobStatus.cancelled (some (codes "Cancelled before it started")) none requested
          dequeued,
      true,
    )
    else (within id l (cancel_scope now m.exited) m, true)

-- `cancel`, and whether it did anything.
unfoldable pub cancel : ℕ → Text → JobManager → JobManager × Bool
unfolding ensure_init live_get cancel_row cancel_live
cancel now id m0 =
    let m : JobManager = ensure_init now m0 in
    elim (live_get id m) [ none ↦ cancel_row now id m | some l ↦ cancel_live now id l m ]

-- `remove` up to its `await`; without a live job it goes on at once, which is the next event then.
unfoldable pub remove_begin : ℕ → Text → JobManager → JobManager
unfolding ensure_init live_get cancel
remove_begin now id m0 =
    let m : JobManager = ensure_init now m0 in
    let waiting : JobManager = elim (live_get id m) [
      | none ↦ m
      | some l ↦ if l.finished then m else (cancel now id m).0
    ] in
    record waiting { removing = waiting.removing ++ id ∷ [] }

abbrev pub mark_removed : Scope → Scope
mark_removed s = record s { live = record (s.live) { removed = true } }

-- The rest of `remove`, and whether the row existed.
unfoldable pub remove_end : Text → JobManager → JobManager × Bool
unfolding live_get within splice_out get_row remove_row
remove_end id m =
    let marked : JobManager = elim (live_get id m) [
      | none ↦ m
      | some l ↦ within id l mark_removed m
    ] in
    let existed : Bool = elim (get_row id marked.rows) [ none ↦ false | some _ ↦ true ] in
    (
      record marked {
        queue = splice_out id marked.queue;
        rows = remove_row id marked.rows;
        removing = splice_out id marked.removing;
      },
      existed,
    )
