-- ===== src/Jobs.antt =====
-- Jobs as src/server/jobs/types.ts describes them, and the table of jobs that
-- src/server/jobs/manager.ts keeps in SQLite (jobsRepo). A table is the list of its rows. A column
-- that holds JSON, here the parameters of a job and its result, is that text; a clock reading is a
-- number of milliseconds.
pub mod Manager
pub mod Scheduler
pub mod Cancel
pub mod Context
pub mod Steps
pub mod Log
pub mod Local
pub mod Members
pub mod Invariant
pub mod Recovery
mod Tests
use database_admin.Common.{
  split_on, prefix_first, ℕ, zero, suc, ◌+◌, ◌-◌, ◌*◌, ◌/◌, ◌≤◌, ◌<◌, min, max, ◌≡◌, refl, sym, ap,
  ◌∙◌, ◌≢◌, ◌↔◌, ◌⊎◌, inl, inr, Bool, true, false, not, ◌&&◌, ◌||◌, Option, none, some, List, [],
  ◌∷◌, ◌++◌, map, reverse, arith, ltb, leb, ◌==◌, if◌then◌else◌, ==_iff, Bool-cases, Option-cases,
  length, get_elem?, take, drop, any, is_empty, All, length-append, length-take, length-drop,
  drop-length_append, take-length_append, drop-cons, get_elem?-lt, get_elem?-none, Text, codes,
  char_at, holds, is_at, slice, text_eq, starts_with, index_of, run_from, split_join,
  split_join_from, join, decimal, has, includes, text_eq_iff, Result, ok, err, Result-cases,
  ok-injective, ◌>>=◌, ◌>>◌, ensure, traverse,
}

pub data JobKind : Type 0 where
  «export» «import» restore copy : JobKind

pub data JobStatus : Type 0 where
  queued running cancelling done failed cancelled : JobStatus

-- `TERMINAL_STATUSES.includes(status)`
unfoldable pub is_terminal : JobStatus → Bool
is_terminal JobStatus.done = true
is_terminal JobStatus.failed = true
is_terminal JobStatus.cancelled = true
is_terminal _ = false

-- `status IN ('queued', 'running', 'cancelling')` of the SQL of failOrphans
unfoldable pub is_orphaned : JobStatus → Bool
is_orphaned JobStatus.queued = true
is_orphaned JobStatus.running = true
is_orphaned JobStatus.cancelling = true
is_orphaned _ = false

abbrev pub status_name : JobStatus → Text
status_name JobStatus.queued = codes "queued"
status_name JobStatus.running = codes "running"
status_name JobStatus.cancelling = codes "cancelling"
status_name JobStatus.done = codes "done"
status_name JobStatus.failed = codes "failed"
status_name JobStatus.cancelled = codes "cancelled"

abbrev pub kind_name : JobKind → Text
kind_name JobKind.«export» = codes "export"
kind_name JobKind.«import» = codes "import"
kind_name JobKind.restore = codes "restore"
kind_name JobKind.copy = codes "copy"

pub record JobProgress : Type 0 where
  pub phase : Text
  pub tables_done : ℕ
  pub tables_total : ℕ
  pub rows_done : ℕ
  pub bytes_out : ℕ
  pub eta_ms : Option ℕ
  pub rows_total : Option ℕ

-- The discriminant, and the variant as the JSON text of the row.
pub record JobParams : Type 0 where
  pub kind : JobKind
  pub json : Text

pub record Job : Type 0 where
  pub id : Text
  pub kind : JobKind
  pub title : Text
  pub connection_id : Option Text
  pub params : JobParams
  pub status : JobStatus
  pub progress : JobProgress
  pub started_at : Option ℕ
  pub ended_at : Option ℕ
  pub error : Option Text
  pub result : Option Text
  pub log : List Text
  pub created_at : ℕ

-- Line ends are `\n`.
abbrev pub newline : ℕ
newline = 10

abbrev pub log_tail_max_chars : ℕ
log_tail_max_chars = 262144

unfoldable pub serialize_log : List Text → Text
unfolding join
serialize_log lines =
    let text : Text = join (newline ∷ []) lines in
    if ltb log_tail_max_chars (length text)
    then drop (length text - log_tail_max_chars) text
    else text

unfoldable pub deserialize_log : Text → List Text
unfolding split_on
deserialize_log [] = []
deserialize_log (c ∷ s) = split_on newline (c ∷ s)

pub record JobRow : Type 0 where
  pub id : Text
  pub kind : JobKind
  pub connection_id : Option Text
  pub title : Text
  pub params_json : JobParams
  pub status : JobStatus
  pub progress_json : JobProgress
  pub log_tail : Text
  pub result_json : Option Text
  pub error : Option Text
  pub started_at : Option ℕ
  pub ended_at : Option ℕ
  pub created_at : ℕ

unfoldable pub row_to_job : JobRow → Job
unfolding deserialize_log
row_to_job r = record {
  id = r.id;
  kind = r.kind;
  title = r.title;
  connection_id = r.connection_id;
  params = r.params_json;
  status = r.status;
  progress = r.progress_json;
  started_at = r.started_at;
  ended_at = r.ended_at;
  error = r.error;
  result = r.result_json;
  log = deserialize_log r.log_tail;
  created_at = r.created_at;
}

-- `insert`: the values of the new row.
unfoldable pub job_row : Job → JobRow
unfolding serialize_log
job_row job = record {
  id = job.id;
  kind = job.kind;
  connection_id = job.connection_id;
  title = job.title;
  params_json = job.params;
  status = job.status;
  progress_json = job.progress;
  log_tail = serialize_log job.log;
  result_json = job.result;
  error = job.error;
  started_at = job.started_at;
  ended_at = job.ended_at;
  created_at = job.created_at;
}

-- `save`: the columns that the UPDATE sets.
unfoldable pub saved_row : Job → JobRow → JobRow
unfolding serialize_log
saved_row job r = record r {
  status = job.status;
  progress_json = job.progress;
  log_tail = serialize_log job.log;
  result_json = job.result;
  error = job.error;
  started_at = job.started_at;
  ended_at = job.ended_at;
}

-- `id` is the primary key of the table, so the UPDATE changes one row at most.
unfoldable pub save : Job → List JobRow → List JobRow
unfolding saved_row
save job [] = []
save job (r ∷ rs) = if text_eq r.id job.id then saved_row job r ∷ save job rs else r ∷ save job rs

unfoldable pub get_row : Text → List JobRow → Option JobRow
get_row id [] = none
get_row id (r ∷ rs) = if text_eq r.id id then some r else get_row id rs

unfoldable pub remove_row : Text → List JobRow → List JobRow
remove_row id [] = []
remove_row id (r ∷ rs) = if text_eq r.id id then remove_row id rs else r ∷ remove_row id rs

abbrev pub interrupted : Text
interrupted = codes "Interrupted by a server restart"

unfoldable pub coalesce {ℓ} : {A : Type ℓ} → Option A → A → A
coalesce none b = b
coalesce (some a) b = a

unfoldable pub fail_orphans : ℕ → List JobRow → List JobRow
unfolding is_orphaned coalesce
fail_orphans now [] = []
fail_orphans now (r ∷ rs) =
    let failed_row : JobRow = record r {
      status = JobStatus.failed;
      ended_at = some now;
      error = some (coalesce r.error interrupted);
    } in
    if is_orphaned r.status then failed_row ∷ fail_orphans now rs else r ∷ fail_orphans now rs

-- `status IN ('done', 'failed', 'cancelled')` of the SQL of deleteFinishedBefore
unfoldable pub is_deletable : JobStatus → Bool
is_deletable JobStatus.done = true
is_deletable JobStatus.failed = true
is_deletable JobStatus.cancelled = true
is_deletable _ = false

unfoldable pub delete_finished_before : ℕ → List JobRow → List JobRow
unfolding is_deletable coalesce
delete_finished_before cutoff [] = []
delete_finished_before cutoff (r ∷ rs) =
    let rest : List JobRow = delete_finished_before cutoff rs in
    if is_deletable r.status && ltb (coalesce r.ended_at r.created_at) cutoff
    then rest
    else r ∷ rest

pub record JobListOptions : Type 0 where
  pub connection_id : Option Text
  pub kind : Option JobKind
  pub status : Option (List JobStatus)
  pub active : Bool
  pub limit : Option ℕ
  pub offset : Option ℕ

abbrev pub active_statuses : List JobStatus
active_statuses = JobStatus.queued ∷ JobStatus.running ∷ JobStatus.cancelling ∷ []

-- A status that is not an array is a list of one.
unfoldable pub statuses_of : JobListOptions → List JobStatus
unfolding coalesce
statuses_of opts = if opts.active then active_statuses else coalesce opts.status []

abbrev connection_matches : Option Text → Option Text → Bool
connection_matches none found = true
connection_matches (some []) found = true
connection_matches (some (c ∷ t)) none = false
connection_matches (some (c ∷ t)) (some u) = text_eq u (c ∷ t)

abbrev kind_matches : Option JobKind → JobKind → Bool
kind_matches none found = true
kind_matches (some k) found = text_eq (kind_name found) (kind_name k)

abbrev status_matches : List JobStatus → JobStatus → Bool
status_matches [] found = true
status_matches (s ∷ ss) found = any (λ t. text_eq (status_name found) (status_name t)) (s ∷ ss)

-- The WHERE of `list`.
unfoldable pub row_matches : JobListOptions → JobRow → Bool
unfolding statuses_of
row_matches opts r =
    connection_matches opts.connection_id r.connection_id
    && (kind_matches opts.kind r.kind && status_matches (statuses_of opts) r.status)

unfoldable pub matching_rows : JobListOptions → List JobRow → List JobRow
unfolding row_matches
matching_rows opts [] = []
matching_rows opts (r ∷ rs) =
    if row_matches opts r then r ∷ matching_rows opts rs else matching_rows opts rs

-- ORDER BY created_at DESC; SQLite leaves the order of equal rows open, here the first stays first.
unfoldable pub insert_newest : JobRow → List JobRow → List JobRow
insert_newest r [] = r ∷ []
insert_newest r (s ∷ ss) =
    if leb s.created_at r.created_at then r ∷ s ∷ ss else s ∷ insert_newest r ss

unfoldable pub newest_first : List JobRow → List JobRow
unfolding insert_newest
newest_first [] = []
newest_first (r ∷ rs) = insert_newest r (newest_first rs)

unfoldable pub list_rows : JobListOptions → List JobRow → List Job
unfolding matching_rows newest_first row_to_job coalesce
list_rows opts rows = map row_to_job (
    take (coalesce opts.limit 100)
      (drop (coalesce opts.offset 0) (newest_first (matching_rows opts rows))))
