-- ===== src/Jobs/Invariant.antt =====
-- What holds of a JobManager (src/server/jobs/manager.ts) between two events, and that a change of
-- one job keeps it.
pub mod Slots
pub mod Finish
pub mod Cancelling
pub mod Removing
pub mod Events
pub mod Reachable
use database_admin.Common.{
  split_on, prefix_first, ℕ, zero, suc, ◌+◌, ◌-◌, ◌*◌, ◌/◌, ◌≤◌, ◌<◌, min, max, ◌≡◌, refl, sym, ap,
  ◌∙◌, ◌≢◌, ◌↔◌, ◌⊎◌, inl, inr, Bool, true, false, not, ◌&&◌, ◌||◌, Option, none, some, List, [],
  ◌∷◌, ◌++◌, map, reverse, arith, ltb, leb, ◌==◌, if◌then◌else◌, ==_iff, Bool-cases, Option-cases,
  length, get_elem?, take, drop, any, is_empty, All, length-append, length-take, length-drop,
  drop-length_append, take-length_append, drop-cons, get_elem?-lt, get_elem?-none, Text, codes,
  char_at, holds, is_at, slice, text_eq, starts_with, index_of, run_from, split_join,
  split_join_from, join, decimal, has, includes, text_eq_iff, Result, ok, err, Result-cases,
  ok-injective, ◌>>=◌, ◌>>◌, ensure, traverse, either_branch,
}
use database_admin.Jobs.{
  JobKind, JobStatus, is_terminal, JobProgress, JobParams, Job, newline, JobRow, row_to_job,
  job_row, saved_row, save, get_row, remove_row, coalesce, fail_orphans, delete_finished_before,
  JobListOptions, list_rows,
}
use database_admin.Jobs.Manager.{
  job_update, job_log, abort, call_hook, kill, Signal, JobSummary, to_summary, JobDetail, to_detail,
  Output, Thrown, error_message, is_abort_error, empty_progress, compute_eta, LiveJob, new_live,
  schedule_flush, log_cap, log_line_max, without_cr, truncated, log_line, capped, append_log, Scope,
  persist, emit, emit_update, drain_log, flush_progress, flush_row, flush,
}
use database_admin.Jobs.Scheduler.{
  JobManager, new_manager, put, delete, add, splice_out, live_get, within, with_object, cleanup,
  ensure_init, start_scope, start, is_queued, start_next, pump_from, pump, is_done, final_status,
  or_else, finish_job, finish_scope, release, finish,
}
use database_admin.Jobs.Members.{
  text_eq_refl, text_eq_same, text_eq_other, has-append_one, has-delete_same, has-delete,
  has-splice_out, has-splice_out_back, has-add_same, has-add, length-add, length-delete,
}
use database_admin.Jobs.Log.{IsLog}
use database_admin.Jobs.Local.{Kept}

abbrev pub is_cancelling : JobStatus → Bool
is_cancelling JobStatus.cancelling = true
is_cancelling _ = false

-- The statuses of a job that holds a slot.
abbrev pub is_busy : JobStatus → Bool
is_busy JobStatus.running = true
is_busy JobStatus.cancelling = true
is_busy _ = false

-- Where a job is to be found: a job that has not ended is live, waits in the queue or holds a slot
-- as its status says, and reads "cancelling" where a cancellation was requested; a job that has
-- ended is in no slot, and is not "done" where a cancellation was requested.
pub record IsTracked (live queue running removing : List Text) (id : Text) (l : LiveJob)
    : Type 0 where
  pub own_id : l.job.id ≡ id
  pub is_log : IsLog l.job.log
  pub ended : l.finished ≡ is_terminal l.job.status
  pub is_live : has live id ≡ not (is_terminal l.job.status)
  pub waits : is_queued l.job.status ≡ true → has queue id ≡ true
  pub runs : has running id ≡ is_busy l.job.status
  pub requested :
      l.cancel_requested ≡ true → (is_cancelling l.job.status || is_terminal l.job.status) ≡ true
  pub not_done : l.cancel_requested ≡ true → is_done l.job.status ≡ false
  pub stays : has removing id ≡ true → is_queued l.job.status ≡ false

abbrev pub IsPlaced :
    (live queue running removing : List Text) (id : Text) → Option LiveJob → Type 0
IsPlaced live queue running removing id none = has running id ≡ false
IsPlaced live queue running removing id (some l) = IsTracked live queue running removing id l

-- `most` bounds the concurrency that was ever set.
pub record Inv (most : ℕ) (m : JobManager) : Type 0 where
  pub limit : m.concurrency ≤ most
  pub slots : length m.running ≤ most
  pub place : (id : Text) → IsPlaced m.live m.queue m.running m.removing id (m.objects id)

-- What a change of one job leaves to another one.
pub record Others (m m' : JobManager) (j : Text) : Type 0 where
  pub same_live : has m'.live j ≡ has m.live j
  pub in_queue : has m.queue j ≡ true → has m'.queue j ≡ true
  pub same_running : has m'.running j ≡ has m.running j
  pub in_removing : has m'.removing j ≡ true → has m.removing j ≡ true

pub Others-IsPlaced :
    (m m' : JobManager) (j : Text) (o : Option LiveJob)
    → Others m m' j
    → IsPlaced m.live m.queue m.running m.removing j o
    → IsPlaced m'.live m'.queue m'.running m'.removing j o
Others-IsPlaced m m' j none h p = h.same_running ∙ p
Others-IsPlaced m m' j (some l) h p = record {
  own_id = p.own_id;
  is_log = p.is_log;
  ended = p.ended;
  is_live = h.same_live ∙ p.is_live;
  waits = λ q. h.in_queue (p.waits q);
  runs = h.same_running ∙ p.runs;
  requested = p.requested;
  not_done = p.not_done;
  stays = λ r. p.stays (h.in_removing r);
}

-- The same job at another place of the lists.
pub put-IsPlaced :
    (m m' : JobManager) (id : Text) (l : LiveJob)
    → ((j : Text) → text_eq j id ≡ false → Others m m' j)
    → IsTracked m'.live m'.queue m'.running m'.removing id l
    → ((j : Text) → IsPlaced m.live m.queue m.running m.removing j (m.objects j))
    → (j : Text) → IsPlaced m'.live m'.queue m'.running m'.removing j (put id l m.objects j)
put-IsPlaced m m' id l others t p j = elim (Bool-cases (text_eq j id)) [
  | inl e ↦ rw (e, text_eq_same j id e) t
  | inr e ↦ rw e (Others-IsPlaced m m' j (m.objects j) (others j e) (p j))
]

pub Kept-IsTracked :
    (live queue running removing : List Text) (id : Text) (l l' : LiveJob)
    → Kept l l'
    → IsTracked live queue running removing id l
    → IsTracked live queue running removing id l'
Kept-IsTracked live queue running removing id l l' k t = record {
  own_id = k.same_id ∙ t.own_id;
  is_log = k.still_log t.is_log;
  ended = k.same_finished ∙ (t.ended ∙ sym (ap is_terminal k.same_status));
  is_live = t.is_live ∙ sym (ap (λ s. not (is_terminal s)) k.same_status);
  waits = λ q. t.waits (sym (ap is_queued k.same_status) ∙ q);
  runs = t.runs ∙ sym (ap is_busy k.same_status);
  requested = λ c.
      ap (λ s. is_cancelling s || is_terminal s) k.same_status
      ∙ t.requested (sym k.same_requested ∙ c);
  not_done = λ c. ap is_done k.same_status ∙ t.not_done (sym k.same_requested ∙ c);
  stays = λ r. ap is_queued k.same_status ∙ t.stays r;
}

-- What an object is, where there is one.
pub tracked :
    (m : JobManager) (id : Text) (l : LiveJob)
    → ((j : Text) → IsPlaced m.live m.queue m.running m.removing j (m.objects j))
    → m.objects id ≡ some l
    → IsTracked m.live m.queue m.running m.removing id l
tracked m id l p e = rw e at (p id)
