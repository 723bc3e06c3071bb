-- ===== src/Jobs/Recovery.antt =====
-- The table of jobs, src/server/jobs/manager.ts: what the first call of a process leaves in it, and
-- what the end of a job writes.
use database_admin.Common.{
  ℕ, ◌≡◌, refl, sym, ap, ◌≢◌, ◌⊎◌, inl, inr, Bool, true, false, ◌&&◌, Option, none, some, List, [],
  ◌∷◌, ltb, if◌then◌else◌, Bool-cases, is_empty, All, Text, text_eq, either_branch,
}
use database_admin.Jobs.{
  JobStatus, is_orphaned, is_deletable, Job, JobRow, saved_row, save, get_row, coalesce,
  fail_orphans, delete_finished_before, serialize_log, interrupted,
}
use database_admin.Jobs.Manager.{Scope, LiveJob, persist, drain_log}
use database_admin.Jobs.Scheduler.{
  JobManager, cleanup, ensure_init, or_else, is_done, final_status, finish_job, finish_scope,
}
use mathlib.Core.Path.{subst}
use mathlib.Core.List.{Memᴰ}

-- A job that waits, runs or is being cancelled.
abbrev pub IsLeft : JobStatus → Type 0
IsLeft status =
    (status ≡ JobStatus.queued) ⊎ ((status ≡ JobStatus.running) ⊎ (status ≡ JobStatus.cancelling))

abbrev pub IsOver : JobStatus → Type 0
IsOver status =
    (status ≢ JobStatus.queued) × (status ≢ JobStatus.running) × (status ≢ JobStatus.cancelling)

-- A row is a row of before, or one of a job that was left over, failed at `now` with its own error
-- or that of a restart.
abbrev pub ComesFrom : ℕ → List JobRow → JobRow → Type 0
ComesFrom now olds r =
    (o : JobRow) × Memᴰ o olds
    × ((r ≡ o)
        ⊎ (IsLeft o.status
            × (r ≡ record o {
              status = JobStatus.failed;
              ended_at = some now;
              error = some (elim o.error [ none ↦ interrupted | some e ↦ e ]);
            })))

abbrev pub Recovered : ℕ → List JobRow → JobRow → Type 0
Recovered now olds r = IsOver r.status × ComesFrom now olds r

failed-IsOver : IsOver JobStatus.failed
failed-IsOver = (λ e. cc, λ e. cc, λ e. cc)

orphaned-IsLeft : (status : JobStatus) → is_orphaned status ≡ true → IsLeft status
unfolding is_orphaned
orphaned-IsLeft JobStatus.queued h = inl refl
orphaned-IsLeft JobStatus.running h = inr (inl refl)
orphaned-IsLeft JobStatus.cancelling h = inr (inr refl)
orphaned-IsLeft JobStatus.done h = absurd (cc h)
orphaned-IsLeft JobStatus.failed h = absurd (cc h)
orphaned-IsLeft JobStatus.cancelled h = absurd (cc h)

not_orphaned-IsOver : (status : JobStatus) → is_orphaned status ≡ false → IsOver status
unfolding is_orphaned
not_orphaned-IsOver JobStatus.queued h = absurd (cc h)
not_orphaned-IsOver JobStatus.running h = absurd (cc h)
not_orphaned-IsOver JobStatus.cancelling h = absurd (cc h)
not_orphaned-IsOver JobStatus.done h = (λ e. cc, λ e. cc, λ e. cc)
not_orphaned-IsOver JobStatus.failed h = (λ e. cc, λ e. cc, λ e. cc)
not_orphaned-IsOver JobStatus.cancelled h = (λ e. cc, λ e. cc, λ e. cc)

coalesce_elim :
    (o : Option Text) → coalesce o interrupted ≡ elim o [ none ↦ interrupted | some e ↦ e ]
unfolding coalesce
coalesce_elim none = refl
coalesce_elim (some e) = refl

Recovered-tail :
    (now : ℕ) (o : JobRow) (olds rows : List JobRow)
    → All (Recovered now olds) rows
    → All (Recovered now (o ∷ olds)) rows
Recovered-tail now o olds [] h = tt
Recovered-tail now o olds (r ∷ rs) ((over, (old, m, same)), rest) =
    ((over, (old, Memᴰ.tail m, same)), Recovered-tail now o olds rs rest)

fail_orphans-Recovered :
    (now : ℕ) (rows : List JobRow) → All (Recovered now rows) (fail_orphans now rows)
unfolding fail_orphans
fail_orphans-Recovered now [] = tt
fail_orphans-Recovered now (r ∷ rs) =
    let rest = Recovered-tail now r rs _ (fail_orphans-Recovered now rs) in
    elim (Bool-cases (is_orphaned r.status)) [
      | inl e ↦
          rw (fail_orphans, e)
            (
              (
                failed-IsOver,
                (
                  r,
                  Memᴰ.head refl,
                  inr (
                    orphaned-IsLeft r.status e,
                    ap
                        (λ t. record r {
                          status = JobStatus.failed;
                          ended_at = some now;
                          error = some t;
                        })
                        (coalesce_elim r.error),
                  ),
                ),
              ),
              rest,
            )
      | inr e ↦
          rw (fail_orphans, e)
            ((not_orphaned-IsOver r.status e, (r, Memᴰ.head refl, inl refl)), rest)
    ]

delete_finished_before-All :
    (P : JobRow → Type 0) (cutoff : ℕ) (rows : List JobRow)
    → All P rows
    → All P (delete_finished_before cutoff rows)
unfolding delete_finished_before
delete_finished_before-All P cutoff [] h = tt
delete_finished_before-All P cutoff (r ∷ rs) h =
    let rest = delete_finished_before-All P cutoff rs h.1 in
    either_branch (All P) (is_deletable r.status && ltb (coalesce r.ended_at r.created_at) cutoff)
      (λ _. rest) (λ _. (h.0, rest))

-- The first call of a process leaves no job of an earlier one waiting, running or being cancelled:
-- every row that stays is an unchanged row of a job that was over, or that of a job that was left
-- over, which has failed now, with the error it had or that of a restart.
pub ensure_init-Recovered :
    (now : ℕ) (m : JobManager)
    → m.initialized ≡ false
    → All (Recovered now m.rows) (ensure_init now m).rows
unfolding ensure_init cleanup
ensure_init-Recovered now m h =
    either_branch (λ (n : JobManager). All (Recovered now m.rows) n.rows) m.initialized
      (λ e. absurd (cc (e, h)))
      (λ _. delete_finished_before-All _ _ _ (fail_orphans-Recovered now m.rows))

get_row-save :
    (job : Job) (rows : List JobRow) (r : JobRow)
    → get_row job.id rows ≡ some r
    → get_row job.id (save job rows) ≡ some (saved_row job r)
unfolding get_row save saved_row
get_row-save job [] r h = absurd (cc h)
get_row-save job (x ∷ xs) r h = elim (Bool-cases (text_eq x.id job.id)) [
  | inl e ↦
      let same : some x ≡ some r = rw (get_row, e) at h in
      rw (save, e)
        (rw (get_row, e) (ap (λ o. elim o [ none ↦ none | some r ↦ some (saved_row job r) ]) same))
  | inr e ↦
      let later : get_row job.id xs ≡ some r = rw (get_row, e) at h in
      rw (save, e) (rw (get_row, e) (get_row-save job xs r later))
]

-- The row of the job of a scope.
record HasRow (job : Job) (r : JobRow) (s : Scope) : Type 0 where
  kept_job : s.live.removed ≡ false
  same_job : s.live.job ≡ job
  row : get_row job.id s.rows ≡ some r

-- The row says what the job says.
abbrev IsWritten : Job → JobRow → Scope → Type 0
IsWritten job r s = get_row job.id s.rows ≡ some (saved_row job r)

persist-IsWritten :
    (now : ℕ) (job : Job) (r : JobRow) (s : Scope)
    → HasRow job r s
    → IsWritten job r (persist now s)
unfolding persist
persist-IsWritten now job r s h =
    either_branch (IsWritten job r) s.live.removed (λ e. absurd (cc (e, h.kept_job)))
      (λ _.
        subst (λ (j : Job). get_row job.id (save j s.rows) ≡ some (saved_row job r))
          (sym h.same_job) (get_row-save job s.rows r h.row))

finish_scope-IsWritten :
    (now : ℕ) (status : JobStatus) (error result : Option Text) (r : JobRow) (s : Scope)
    → s.live.removed ≡ false
    → get_row s.live.job.id s.rows ≡ some r
    → IsWritten
        (finish_job now status error result s.live).job
        r
        (finish_scope now status error result s)
unfolding finish_scope finish_job
finish_scope-IsWritten now status error result r s there found =
    let ended : Scope = record s { live = finish_job now status error result s.live } in
    let job : Job = ended.live.job in
    let drained : Scope = if s.live.removed then ended else drain_log ended in
    let before : HasRow job r ended = record { kept_job = there; same_job = refl; row = found } in
    let after : HasRow job r drained =
      either_branch (HasRow job r) s.live.removed (λ _. before)
        (λ _.
          either_branch (HasRow job r) (is_empty s.live.pending_log) (λ _. before)
            (λ _. record { kept_job = there; same_job = refl; row = found })) in
    either_branch (IsWritten job r) s.live.removed (λ _. persist-IsWritten now job r drained after)
      (λ _. persist-IsWritten now job r drained after)

-- What the end of a job leaves in its row.
pub record EndsAs (now : ℕ) (status : JobStatus) (given_error given_result : Option Text)
    (live : LiveJob) (row : JobRow) : Type 0 where
  pub ended_at : row.ended_at ≡ some now
  pub status_kept :
      ((live.cancel_requested ≡ true)
        × (status ≡ JobStatus.done)
        × (row.status ≡ JobStatus.cancelled))
      ⊎ (((live.cancel_requested ≡ false) ⊎ (status ≢ JobStatus.done)) × (row.status ≡ status))
  pub error :
      ((row.status ≡ JobStatus.done) × (row.error ≡ none))
      ⊎ ((row.status ≢ JobStatus.done) × ((given_error ≡ none) ⊎ (row.error ≡ given_error)))
  pub result : (given_result ≡ none) ⊎ (row.result_json ≡ given_result)
  pub log : row.log_tail ≡ serialize_log live.job.log

is_done-not : (status : JobStatus) → (is_done status ≡ false) → status ≢ JobStatus.done
is_done-not status h e = absurd (cc (rw e at h))

is_done-done : (status : JobStatus) → is_done status ≡ true → status ≡ JobStatus.done
is_done-done JobStatus.queued h = absurd (cc h)
is_done-done JobStatus.running h = absurd (cc h)
is_done-done JobStatus.cancelling h = absurd (cc h)
is_done-done JobStatus.done h = refl
is_done-done JobStatus.failed h = absurd (cc h)
is_done-done JobStatus.cancelled h = absurd (cc h)

final_status_cases :
    (asked : Bool) (status : JobStatus)
    → ((asked ≡ true)
        × (status ≡ JobStatus.done)
        × (final_status asked status ≡ JobStatus.cancelled))
      ⊎ (((asked ≡ false) ⊎ (status ≢ JobStatus.done)) × (final_status asked status ≡ status))
unfolding final_status
final_status_cases false status = inr (inl refl, refl)
final_status_cases true status = elim (Bool-cases (is_done status)) [
  | inl e ↦ inl (refl, is_done-done status e, rw (final_status, e) refl)
  | inr e ↦ inr (inr (is_done-not status e), rw (final_status, e) refl)
]

or_else_given : (given kept : Option Text) → (given ≡ none) ⊎ (or_else given kept ≡ given)
or_else_given none kept = inl refl
or_else_given (some t) kept = inr refl

finish_job-EndsAs :
    (now : ℕ) (status : JobStatus) (error result : Option Text) (live : LiveJob) (r : JobRow)
    → EndsAs now status error result live
        (saved_row (finish_job now status error result live).job r)
unfolding finish_job saved_row
finish_job-EndsAs now status error result live r =
    let final = final_status live.cancel_requested status in
    record {
      ended_at = refl;
      status_kept = final_status_cases live.cancel_requested status;
      error = elim (Bool-cases (is_done final)) [
        | inl e ↦ inl (is_done-done final e, rw e refl)
        | inr e ↦ inr (is_done-not final e, rw e (or_else_given error live.job.error))
      ];
      result = or_else_given result live.job.result;
      log = refl;
    }

-- When a job ends that was not removed, its row gets the end, the status, which is not "done" where
-- a cancellation was asked for, the error, unless the status is "done", the result, and the log.
pub finish_scope-EndsAs :
    (now : ℕ) (status : JobStatus) (error result : Option Text) (r : JobRow) (s : Scope)
    → s.live.removed ≡ false
    → get_row s.live.job.id s.rows ≡ some r
    → (row : JobRow) × (get_row s.live.job.id (finish_scope now status error result s).rows
        ≡ some row)
      × EndsAs now status error result s.live row
finish_scope-EndsAs now status error result r s there found = (
  saved_row (finish_job now status error result s.live).job r,
  unfold finish_job in finish_scope-IsWritten now status error result r s there found,
  finish_job-EndsAs now status error result s.live r,
)
