-- ===== src/Jobs/Local.antt =====
-- What the events of one job leave alone, src/server/jobs/manager.ts: its id, its place in the
-- life of a job, and the shape of its log.
use database_admin.Common.{
  ℕ, ◌-◌, ◌≡◌, refl, ap, ◌∙◌, false, ◌&&◌, ◌||◌, List, ◌++◌, leb, if◌then◌else◌, is_empty, Text,
  codes, either_branch,
}
use database_admin.Jobs.{Job}
use database_admin.Jobs.Manager.{
  error_message, LiveJob, schedule_flush, append_log, Scope, persist, drain_log, flush_progress,
  flush_row, flush,
}
use database_admin.Jobs.Context.{
  ProgressPatch, report, log, register_child, on_cancel, hook_failed, flush_tick, kill_tick,
}
use database_admin.Jobs.Steps.{
  LocalEvent, report_progress, write_log, child_registered, hook_registered, hook_threw,
  flush_fires, kill_fires, local,
}
use database_admin.Jobs.Log.{IsLog, append_log-IsLog}

pub record Kept (l l' : LiveJob) : Type 0 where
  pub same_id : l'.job.id ≡ l.job.id
  pub same_status : l'.job.status ≡ l.job.status
  pub same_finished : l'.finished ≡ l.finished
  pub same_requested : l'.cancel_requested ≡ l.cancel_requested
  pub still_log : IsLog l.job.log → IsLog l'.job.log

pub Kept-intro :
    (l l' : LiveJob)
    → l'.job ≡ l.job
    → l'.finished ≡ l.finished
    → l'.cancel_requested ≡ l.cancel_requested
    → Kept l l'
Kept-intro l l' j f c = record {
  same_id = ap (λ (j : Job). j.id) j;
  same_status = ap (λ (j : Job). j.status) j;
  same_finished = f;
  same_requested = c;
  still_log = λ h. rw j h;
}

pub Kept-refl : (l : LiveJob) → Kept l l
Kept-refl l = Kept-intro l l refl refl refl

pub Kept-trans : {l m n : LiveJob} → Kept l m → Kept m n → Kept l n
Kept-trans h k = record {
  same_id = k.same_id ∙ h.same_id;
  same_status = k.same_status ∙ h.same_status;
  same_finished = k.same_finished ∙ h.same_finished;
  same_requested = k.same_requested ∙ h.same_requested;
  still_log = λ log. k.still_log (h.still_log log);
}

pub schedule_flush-Kept : (l : LiveJob) → Kept l (schedule_flush l)
unfolding schedule_flush
schedule_flush-Kept l =
    either_branch (Kept l) (l.flush_timer || l.finished) (λ _. Kept-refl l)
      (λ _. Kept-intro l _ refl refl refl)

pub append_log-Kept : (line : Text) (l : LiveJob) → Kept l (append_log line l)
unfolding append_log
append_log-Kept line l =
    let k = schedule_flush-Kept _ in
    record {
      same_id = k.same_id;
      same_status = k.same_status;
      same_finished = k.same_finished;
      same_requested = k.same_requested;
      still_log = append_log-IsLog line l;
    }

abbrev pub KeptIn : LiveJob → Scope → Type 0
KeptIn l s = Kept l s.live

pub persist-Kept : (now : ℕ) (s : Scope) → Kept s.live (persist now s).live
unfolding persist
persist-Kept now s =
    either_branch (KeptIn s.live) s.live.removed (λ _. Kept-refl s.live)
      (λ _. Kept-intro s.live _ refl refl refl)

pub drain_log-Kept : (s : Scope) → Kept s.live (drain_log s).live
drain_log-Kept s =
    either_branch (KeptIn s.live) (is_empty s.live.pending_log) (λ _. Kept-refl s.live)
      (λ _. Kept-intro s.live _ refl refl refl)

flush_progress-Kept : (s : Scope) → Kept s.live (flush_progress s).live
unfolding flush_progress
flush_progress-Kept s =
    either_branch (KeptIn s.live) s.live.progress_dirty (λ _. Kept-intro s.live _ refl refl refl)
      (λ _. Kept-refl s.live)

reschedule-Kept :
    (s : Scope)
    → Kept s.live
        (if s.live.persist_dirty then record s { live = schedule_flush s.live } else s).live
reschedule-Kept s =
    either_branch (KeptIn s.live) s.live.persist_dirty (λ _. schedule_flush-Kept s.live)
      (λ _. Kept-refl s.live)

flush_row-Kept : (now : ℕ) (s : Scope) → Kept s.live (flush_row now s).live
unfolding flush_row
flush_row-Kept now s =
    let due = s.live.persist_dirty && leb 500 (now - s.live.last_persist_at) in
    let written = if due then persist now s else s in
    Kept-trans (either_branch (KeptIn s.live) due (λ _. persist-Kept now s) (λ _. Kept-refl s.live))
      (reschedule-Kept written)

flush-Kept : (now : ℕ) (s : Scope) → Kept s.live (flush now s).live
unfolding flush
flush-Kept now s =
    either_branch (KeptIn s.live) s.live.removed (λ _. Kept-refl s.live)
      (λ _. Kept-trans (drain_log-Kept s) (
        Kept-trans (flush_progress-Kept (drain_log s))
          (flush_row-Kept now (flush_progress (drain_log s)))))

report-Kept : (now : ℕ) (patch : ProgressPatch) (s : Scope) → Kept s.live (report now patch s).live
unfolding report
report-Kept now patch s =
    let k = schedule_flush-Kept _ in
    either_branch (KeptIn s.live) s.live.finished (λ _. Kept-refl s.live)
      (λ _. record {
        same_id = k.same_id;
        same_status = k.same_status;
        same_finished = k.same_finished;
        same_requested = k.same_requested;
        still_log = λ h. k.still_log h;
      })

-- An event of one job keeps its place.
pub local-Kept :
    (exited : List ℕ) (e : LocalEvent) (s : Scope) → Kept s.live (local exited e s).live
unfolding local
local-Kept exited (report_progress now patch) s = report-Kept now patch s
local-Kept exited (write_log line) s =
    unfold log in
    either_branch (KeptIn s.live) s.live.finished (λ _. Kept-refl s.live)
      (λ _. append_log-Kept line s.live)
local-Kept exited (child_registered child) s =
    unfold register_child in
    either_branch (KeptIn s.live) s.live.cancel_requested (λ _. Kept-intro s.live _ refl refl refl)
      (λ _. Kept-intro s.live _ refl refl refl)
local-Kept exited (hook_registered hook) s =
    unfold on_cancel in
    either_branch (KeptIn s.live) s.live.cancel_requested (λ _. Kept-intro s.live _ refl refl refl)
      (λ _. Kept-intro s.live _ refl refl refl)
local-Kept exited (hook_threw thrown) s =
    unfold hook_failed in
    append_log-Kept (codes "Cancel hook failed: " ++ error_message thrown) s.live
local-Kept exited (flush_fires now) s =
    let s1 : Scope = record s { live = record (s.live) { flush_timer = false } } in
    unfold flush_tick in Kept-trans (Kept-intro s.live s1.live refl refl refl) (flush-Kept now s1)
local-Kept exited kill_fires s =
    let l : LiveJob = record (s.live) { kill_timer = false } in
    let unarmed = Kept-intro s.live l refl refl refl in
    unfold kill_tick in
    either_branch (KeptIn s.live) (s.live.finished || is_empty s.live.children) (λ _. unarmed)
      (λ _.
        Kept-trans unarmed
          (append_log-Kept (codes "Child process did not exit on SIGTERM; sent SIGKILL") l))
