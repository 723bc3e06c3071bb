-- ===== src/Jobs/Invariant/Finish.antt =====
-- The end of a job in src/server/jobs/manager.ts: finish frees its slot, and the next job starts.
use database_admin.Common.{
  ℕ, ◌≡◌, refl, sym, ap, ◌∙◌, Bool, true, false, not, ◌&&◌, ◌||◌, Option, List, arith,
  if◌then◌else◌, Text, text_eq, has, either_branch,
}
use database_admin.Jobs.{JobStatus, is_terminal}
use database_admin.Jobs.Manager.{LiveJob, Scope, persist, drain_log}
use database_admin.Jobs.Scheduler.{
  JobManager, delete, within, is_queued, is_done, final_status, finish_job, finish_scope, release,
  finish,
}
use database_admin.Jobs.Members.{has-delete_same, has-delete, length-delete}
use database_admin.Jobs.Log.{IsLog}
use database_admin.Jobs.Local.{Kept, Kept-refl, Kept-trans, persist-Kept, drain_log-Kept}
use database_admin.Jobs.Invariant.{
  is_cancelling, is_busy, IsTracked, Inv, put-IsPlaced, Kept-IsTracked,
}
use mathlib.Core.Path.{subst}
use database_admin.Jobs.Invariant.Slots.{pump-Inv}

finish_scope-Kept :
    (now : ℕ) (status : JobStatus) (error result : Option Text) (s : Scope)
    → Kept (finish_job now status error result s.live) (finish_scope now status error result s).live
unfolding finish_scope
finish_scope-Kept now status error result s =
    let l = finish_job now status error result s.live in
    let ended : Scope = record s { live = l } in
    let drained : Scope = if s.live.removed then ended else drain_log ended in
    Kept-trans
      (either_branch (λ (t : Scope). Kept l t.live) s.live.removed (λ _. Kept-refl l)
        (λ _. drain_log-Kept ended))
      (Kept-trans (persist-Kept now drained) (
        either_branch (λ (t : Scope). Kept (persist now drained).live t.live) s.live.removed
          (λ _. Kept-refl _) (λ _. Kept-refl _)))

final_status_terminal :
    (asked : Bool) (status : JobStatus)
    → is_terminal status ≡ true
    → is_terminal (final_status asked status) ≡ true
unfolding final_status is_terminal
final_status_terminal asked status h =
    either_branch (λ s. is_terminal s ≡ true) (asked && is_done status) (λ _. refl) (λ _. h)

final_status_asked :
    (asked : Bool) (status : JobStatus) → asked ≡ true → is_done (final_status asked status) ≡ false
unfolding final_status
final_status_asked asked status h =
    either_branch (λ s. is_done s ≡ false) (asked && is_done status) (λ _. refl)
      (λ k. ground (arith, h, k))

-- What a status that has ended is not.
terminal_not_queued : (status : JobStatus) → is_terminal status ≡ true → is_queued status ≡ false
unfolding is_terminal
terminal_not_queued JobStatus.queued h = absurd (cc h)
terminal_not_queued JobStatus.running h = refl
terminal_not_queued JobStatus.cancelling h = refl
terminal_not_queued JobStatus.done h = refl
terminal_not_queued JobStatus.failed h = refl
terminal_not_queued JobStatus.cancelled h = refl

terminal_not_busy : (status : JobStatus) → is_terminal status ≡ true → is_busy status ≡ false
unfolding is_terminal
terminal_not_busy JobStatus.queued h = refl
terminal_not_busy JobStatus.running h = absurd (cc h)
terminal_not_busy JobStatus.cancelling h = absurd (cc h)
terminal_not_busy JobStatus.done h = refl
terminal_not_busy JobStatus.failed h = refl
terminal_not_busy JobStatus.cancelled h = refl

finish_job-IsTracked :
    (now : ℕ) (m : JobManager) (queue : List Text) (id : Text) (status : JobStatus)
    (error result : Option Text) (l : LiveJob)
    → is_terminal status ≡ true
    → l.job.id ≡ id
    → IsLog l.job.log
    → IsTracked
        (delete id m.live)
        queue
        (delete id m.running)
        m.removing
        id
        (finish_job now status error result l)
unfolding finish_job
finish_job-IsTracked now m queue id status error result l h own log =
    let final = final_status l.cancel_requested status in
    let terminal = final_status_terminal l.cancel_requested status h in
    let waits_not = terminal_not_queued final terminal in
    record {
      own_id = own;
      is_log = log;
      ended = sym terminal;
      is_live = has-delete_same id m.live ∙ sym (ap not terminal);
      waits = λ q. absurd (cc (waits_not, q));
      runs = has-delete_same id m.running ∙ sym (terminal_not_busy final terminal);
      requested = λ c. ap (λ t. is_cancelling final || t) terminal ∙ ground arith;
      not_done = final_status_asked l.cancel_requested status;
      stays = λ r. waits_not;
    }

-- The end of a job, whether or not it was taken from the queue before.
pub release-Inv :
    (most now : ℕ) (m : JobManager) (id : Text) (queue : List Text) (status : JobStatus)
    (error result : Option Text) (l : LiveJob)
    → Inv most m
    → ((j : Text) → text_eq j id ≡ false → has m.queue j ≡ true → has queue j ≡ true)
    → l.job.id ≡ id
    → IsLog l.job.log
    → is_terminal status ≡ true
    → Inv most (release now status error result l.job.id l (record m { queue = queue }))
unfolding release within
release-Inv most now m id queue status error result l inv others own log h =
    let s : Scope = record { live = l; rows = m.rows; output = m.output } in
    let dequeued : JobManager = record m { queue = queue } in
    let dropped : Text → JobManager = λ i. release now status error result i l dequeued in
    subst (λ i. Inv most (dropped i)) (sym own)
      (record {
        limit = inv.limit;
        slots = omega (arith, length-delete id m.running, inv.slots);
        place =
            put-IsPlaced m (dropped id) id (finish_scope now status error result s).live
              (λ j e. record {
                same_live = has-delete id j m.live e;
                in_queue = others j e;
                same_running = has-delete id j m.running e;
                in_removing = λ r. r;
              })
              (Kept-IsTracked (delete id m.live) queue (delete id m.running) m.removing id
                (finish_job now status error result l) _
                (finish_scope-Kept now status error result s)
                (finish_job-IsTracked now m queue id status error result l h own log))
              inv.place;
      })

-- `finish` of a job that has not ended.
pub finish-Inv :
    (most now : ℕ) (m : JobManager) (id : Text) (queue : List Text) (status : JobStatus)
    (error result : Option Text) (l : LiveJob)
    → Inv most m
    → ((j : Text) → text_eq j id ≡ false → has m.queue j ≡ true → has queue j ≡ true)
    → l.job.id ≡ id
    → IsLog l.job.log
    → l.finished ≡ false
    → is_terminal status ≡ true
    → Inv most (finish now status error result l (record m { queue = queue }))
unfolding finish
finish-Inv most now m id queue status error result l inv others own log still h =
    either_branch (Inv most) l.finished (λ e. absurd (cc (e, still)))
      (λ _.
        pump-Inv most now (release now status error result l.job.id l (record m { queue = queue }))
          (release-Inv most now m id queue status error result l inv others own log h))
