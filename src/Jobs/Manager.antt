-- ===== src/Jobs/Manager.antt =====
-- One job in memory: LiveJob and the parts of JobManager in src/server/jobs/manager.ts that touch
-- one job, the table and the socket. The closures that a runner or a timer holds act on the same
-- record. What a call does outside the process is an `Output`, in order. `setTimeout` arms a flag,
-- and the timer's callback is an event of Jobs.Steps. Writes to the table are taken to succeed.
use database_admin.Common.{
  split_on, ℕ, ◌+◌, ◌-◌, ◌*◌, ◌/◌, Bool, true, false, ◌&&◌, ◌||◌, Option, none, some, List, [], ◌∷◌,
  ◌++◌, map, ltb, leb, ◌==◌, if◌then◌else◌, length, take, drop, is_empty, Text, codes, text_eq,
}
use database_admin.Jobs.{
  JobKind, JobStatus, JobProgress, JobParams, Job, newline, JobRow, save, coalesce,
}

pub data Signal : Type 0 where
  sigterm sigkill : Signal

pub record JobSummary : Type 0 where
  pub id : Text
  pub kind : JobKind
  pub title : Text
  pub connection_id : Option Text
  pub status : JobStatus
  pub phase : Text
  pub tables_done : ℕ
  pub tables_total : ℕ
  pub rows_done : ℕ
  pub bytes_out : ℕ
  pub eta_ms : Option ℕ
  pub started_at : Option ℕ
  pub ended_at : Option ℕ
  pub error : Option Text
  pub created_at : ℕ

unfoldable pub to_summary : Job → JobSummary
to_summary job = record {
  id = job.id;
  kind = job.kind;
  title = job.title;
  connection_id = job.connection_id;
  status = job.status;
  phase = job.progress.phase;
  tables_done = job.progress.tables_done;
  tables_total = job.progress.tables_total;
  rows_done = job.progress.rows_done;
  bytes_out = job.progress.bytes_out;
  eta_ms = job.progress.eta_ms;
  started_at = job.started_at;
  ended_at = job.ended_at;
  error = job.error;
  created_at = job.created_at;
}

pub record JobDetail : Type 0 where
  pub summary : JobSummary
  pub log : List Text
  pub params : JobParams

unfoldable pub to_detail : Job → JobDetail
unfolding to_summary
to_detail job = record { summary = to_summary job; log = job.log; params = job.params }

-- A child process and a cancel hook go by the number under which they were registered.
pub data Output : Type 0 where
  job_update : (job : JobSummary) → Output
  job_log : (job_id : Text) (lines : List Text) → Output
  abort : (job_id : Text) → Output
  call_hook : (job_id : Text) (hook : ℕ) → Output
  kill : (child : ℕ) (signal : Signal) → Output

-- A thrown value; `other` has what JSON.stringify gives, where it returns a text, and String().
pub data Thrown : Type 0 where
  error : (name message : Text) → Thrown
  text : (value : Text) → Thrown
  other : (json : Option Text) (string : Text) → Thrown

unfoldable pub error_message : Thrown → Text
unfolding coalesce
error_message (Thrown.error name message) = if is_empty message then name else message
error_message (Thrown.text value) = value
error_message (Thrown.other json string) = coalesce json string

unfoldable pub is_abort_error : Thrown → Bool
is_abort_error (Thrown.error name message) =
    text_eq name (codes "AbortError") || text_eq name (codes "TimeoutError")
is_abort_error _ = false

abbrev pub empty_progress : JobProgress
empty_progress = record {
  phase = codes "queued";
  tables_done = 0;
  tables_total = 0;
  rows_done = 0;
  bytes_out = 0;
  eta_ms = none;
  rows_total = none;
}

-- `Math.round(a / b)` for `0 < b`.
abbrev round_ratio : ℕ → ℕ → ℕ
round_ratio a b = (2 * a + b) / (2 * b)

unfoldable eta_from_rows : JobProgress → ℕ → Option ℕ
eta_from_rows p elapsed = elim p.rows_total [
  | none ↦ none
  | some total ↦
      if ltb 0 total && ltb 0 p.rows_done
      then some (round_ratio ((total - p.rows_done) * elapsed) p.rows_done)
      else none
]

-- With `done` for `tablesDone / tablesTotal`, `elapsed * (1 - done) / done` is this quotient.
unfoldable eta_from_tables : JobProgress → ℕ → Option ℕ
eta_from_tables p elapsed =
    if ltb 0 p.tables_total && (ltb 0 p.tables_done && ltb p.tables_done p.tables_total)
    then some (round_ratio (elapsed * (p.tables_total - p.tables_done)) p.tables_done)
    else none

unfoldable pub compute_eta : JobProgress → Option ℕ → ℕ → Option ℕ
unfolding eta_from_rows eta_from_tables
compute_eta p none now = none
compute_eta p (some started_at) now =
    let elapsed : ℕ = now - started_at in
    if ltb elapsed 1000
    then none
    else elim (eta_from_rows p elapsed) [ some eta ↦ some eta | none ↦ eta_from_tables p elapsed ]

-- The fields of LiveJob that change; what a runner does is an event.
pub record LiveJob : Type 0 where
  pub job : Job
  pub aborted : Bool
  pub children : List ℕ
  pub cancel_hooks : List ℕ
  pub pending_log : List Text
  pub progress_dirty : Bool
  pub persist_dirty : Bool
  pub last_persist_at : ℕ
  pub flush_timer : Bool
  pub kill_timer : Bool
  pub force_timer : Bool
  pub cancel_requested : Bool
  pub finished : Bool
  pub removed : Bool

abbrev pub new_live : Job → ℕ → LiveJob
new_live job now = record {
  job = job;
  aborted = false;
  children = [];
  cancel_hooks = [];
  pending_log = [];
  progress_dirty = false;
  persist_dirty = false;
  last_persist_at = now;
  flush_timer = false;
  kill_timer = false;
  force_timer = false;
  cancel_requested = false;
  finished = false;
  removed = false;
}

unfoldable pub schedule_flush : LiveJob → LiveJob
schedule_flush l = if l.flush_timer || l.finished then l else record l { flush_timer = true }

abbrev pub log_cap : ℕ
log_cap = 2000

abbrev pub log_line_max : ℕ
log_line_max = 4000

abbrev carriage_return : ℕ
carriage_return = 13

unfoldable pub without_cr : Text → Text
without_cr [] = []
without_cr (c ∷ []) = if c == carriage_return then [] else c ∷ []
without_cr (c ∷ d ∷ s) = c ∷ without_cr (d ∷ s)

abbrev pub ellipsis : ℕ
ellipsis = 8230

abbrev pub truncated : Text
truncated = ellipsis ∷ codes " (truncated)"

unfoldable pub log_line : Text → Text
unfolding without_cr
log_line chunk =
    let raw : Text = without_cr chunk in
    if ltb log_line_max (length raw) then take log_line_max raw ++ truncated else raw

unfoldable pub capped : List Text → List Text
capped log = if ltb log_cap (length log) then drop (length log - log_cap) log else log

unfoldable pub append_log : Text → LiveJob → LiveJob
unfolding split_on log_line capped schedule_flush
append_log line l =
    let lines : List Text = map log_line (split_on newline line) in
    let job : Job = record (l.job) { log = capped (l.job.log ++ lines) } in
    schedule_flush
      (record l { job = job; pending_log = l.pending_log ++ lines; persist_dirty = true })

-- One job with the table and the socket.
pub record Scope : Type 0 where
  pub live : LiveJob
  pub rows : List JobRow
  pub output : List Output

abbrev pub emit : Output → Scope → Scope
emit o s = record s { output = s.output ++ o ∷ [] }

abbrev pub emit_update : Scope → Scope
emit_update s = emit (job_update (to_summary s.live.job)) s

unfoldable pub persist : ℕ → Scope → Scope
unfolding save
persist now s =
    let clean : LiveJob = record (s.live) { persist_dirty = false; last_persist_at = now } in
    if s.live.removed then s else record s { live = clean; rows = save clean.job s.rows }

abbrev persist_interval_ms : ℕ
persist_interval_ms = 500

abbrev pub drain_log : Scope → Scope
drain_log s =
    let drained : LiveJob = record (s.live) { pending_log = [] } in
    if is_empty s.live.pending_log
    then s
    else emit (job_log s.live.job.id s.live.pending_log) (record s { live = drained })

unfoldable pub flush_progress : Scope → Scope
unfolding to_summary
flush_progress s =
    let clean : LiveJob = record (s.live) { progress_dirty = false } in
    if s.live.progress_dirty then emit_update (record s { live = clean }) else s

unfoldable pub flush_row : ℕ → Scope → Scope
unfolding persist schedule_flush
flush_row now s =
    let due : Bool =
      s.live.persist_dirty && leb persist_interval_ms (now - s.live.last_persist_at) in
    let written : Scope = if due then persist now s else s in
    if written.live.persist_dirty
    then record written { live = schedule_flush written.live }
    else written

unfoldable pub flush : ℕ → Scope → Scope
unfolding flush_progress flush_row
flush now s = if s.live.removed then s else flush_row now (flush_progress (drain_log s))
