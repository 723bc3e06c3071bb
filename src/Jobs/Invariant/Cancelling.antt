-- ===== src/Jobs/Invariant/Cancelling.antt =====
-- Cancelling and removing keep the invariant, src/server/jobs/manager.ts.
use database_admin.Common.{
  ℕ, ◌≡◌, refl, sym, ap, ◌∙◌, inl, inr, Bool, true, false, not, ◌||◌, none, some, List, arith,
  Option-cases, Text, codes, either_branch,
}
use database_admin.Jobs.{JobStatus, is_terminal, JobProgress, Job, row_to_job, get_row}
use database_admin.Jobs.Manager.{LiveJob, append_log, Scope, persist}
use database_admin.Jobs.Scheduler.{
  JobManager, splice_out, live_get, within, cleanup, ensure_init, is_queued,
}
use database_admin.Jobs.Cancel.{cancel_scope, cancel_row, cancel_live, cancel}
use database_admin.Jobs.Members.{has-splice_out}
use database_admin.Jobs.Local.{Kept, Kept-trans, Kept-intro, persist-Kept, append_log-Kept}
use database_admin.Jobs.Invariant.{is_busy, IsTracked, Inv, put-IsPlaced, Kept-IsTracked, tracked}
use database_admin.Jobs.Invariant.Slots.{live_get-object}
use database_admin.Jobs.Invariant.Finish.{finish-Inv}

-- What `cancel` writes first into a job that has started.
abbrev cancelling_job : LiveJob → LiveJob
cancelling_job l =
    let progress : JobProgress = record (l.job.progress) { phase = codes "cancelling" } in
    let job : Job = record (l.job) { status = JobStatus.cancelling; progress = progress } in
    record l { cancel_requested = true; job = job }

module _ (most : ℕ) where
  -- A change of the table, the output or the children alone.
  pub ensure_init-Inv : (now : ℕ) (m : JobManager) → Inv most m → Inv most (ensure_init now m)
  unfolding ensure_init cleanup
  ensure_init-Inv now m inv =
      either_branch (Inv most) m.initialized (λ _. inv)
        (λ _. record { limit = inv.limit; slots = inv.slots; place = inv.place })

  cancel_row-Inv :
      (now : ℕ) (id : Text) (m : JobManager) → Inv most m → Inv most (cancel_row now id m).0
  unfolding cancel_row
  cancel_row-Inv now id m inv = elim (Option-cases (get_row id m.rows)) [
    | inl e ↦ rw (cancel_row, e) inv
    | inr (r, e) ↦
        rw (cancel_row, e)
          (either_branch (λ (p : JobManager × Bool). Inv most p.0)
            (is_terminal (row_to_job r).status) (λ _. inv)
            (λ _. record { limit = inv.limit; slots = inv.slots; place = inv.place }))
  ]

  -- A step of one job that puts it where it was, or elsewhere among the busy ones.
  pub within-Inv :
      (m : JobManager) (id : Text) (l : LiveJob) (f : Scope → Scope)
      → Inv most m
      → IsTracked m.live m.queue m.running m.removing id
          (f (record { live = l; rows = m.rows; output = m.output })).live
      → Inv most (within id l f m)
  unfolding within
  within-Inv m id l f inv t = record {
    limit = inv.limit;
    slots = inv.slots;
    place =
        put-IsPlaced m (within id l f m) id _
          (λ j e. record {
            same_live = refl;
            in_queue = λ h. h;
            same_running = refl;
            in_removing = λ h. h;
          })
          t inv.place;
  }

  busy_status :
      (status : JobStatus)
      → is_terminal status ≡ false
      → is_queued status ≡ false
      → is_busy status ≡ true
  unfolding is_terminal
  busy_status JobStatus.queued h k = absurd (cc k)
  busy_status JobStatus.running h k = refl
  busy_status JobStatus.cancelling h k = refl
  busy_status JobStatus.done h k = absurd (cc h)
  busy_status JobStatus.failed h k = absurd (cc h)
  busy_status JobStatus.cancelled h k = absurd (cc h)

  cancel_scope-Kept :
      (now : ℕ) (exited : List ℕ) (s : Scope)
      → Kept (cancelling_job s.live) (cancel_scope now exited s).live
  unfolding cancel_scope
  cancel_scope-Kept now exited s =
      let logged : LiveJob = append_log (codes "Cancel requested") (cancelling_job s.live) in
      let written : Scope = persist now (record s { live = logged }) in
      Kept-trans (append_log-Kept (codes "Cancel requested") (cancelling_job s.live)) (
        Kept-trans (persist-Kept now (record s { live = logged }))
          (Kept-intro written.live _ refl refl refl))

  pub cancel_scope_status :
      (now : ℕ) (exited : List ℕ) (s : Scope)
      → (cancel_scope now exited s).live.job.status ≡ JobStatus.cancelling
  cancel_scope_status now exited s = (cancel_scope-Kept now exited s).same_status

  cancel_scope-IsTracked :
      (now : ℕ) (exited : List ℕ) (live queue running removing : List Text) (id : Text) (s : Scope)
      → s.live.finished ≡ false
      → is_queued s.live.job.status ≡ false
      → IsTracked live queue running removing id s.live
      → IsTracked live queue running removing id (cancel_scope now exited s).live
  unfolding is_terminal
  cancel_scope-IsTracked now exited live queue running removing id s still busy t =
      let open_ : is_terminal s.live.job.status ≡ false = sym t.ended ∙ still in
      Kept-IsTracked live queue running removing id (cancelling_job s.live) _
        (cancel_scope-Kept now exited s)
        (record {
          own_id = t.own_id;
          is_log = t.is_log;
          ended = still;
          is_live = t.is_live ∙ ap not open_;
          waits = λ q. absurd (cc q);
          runs = t.runs ∙ busy_status s.live.job.status open_ busy;
          requested = λ c. refl;
          not_done = λ c. refl;
          stays = λ r. refl;
        })

  pub cancel_live-Inv :
      (now : ℕ) (id : Text) (l : LiveJob) (m : JobManager)
      → m.objects id ≡ some l
      → Inv most m
      → Inv most (cancel_live now id l m).0
  unfolding cancel_live is_terminal
  cancel_live-Inv now id l m o inv =
      let t = tracked m id l inv.place o in
      let requested : LiveJob = record l { cancel_requested = true } in
      let InFirst : JobManager × Bool → Type 0 = λ p. Inv most p.0 in
      either_branch InFirst (l.finished || l.cancel_requested) (λ _. inv)
        (λ free.
          let still : l.finished ≡ false = ground (arith, free) in
          either_branch InFirst (is_queued l.job.status)
            (λ _.
              finish-Inv most now m id (splice_out id m.queue) JobStatus.cancelled
                (some (codes "Cancelled before it started")) none requested inv
                (λ j e h. has-splice_out id j m.queue e ∙ h) t.own_id t.is_log still refl)
            (λ busy. within-Inv m id l (cancel_scope now m.exited) inv (
              cancel_scope-IsTracked now m.exited m.live m.queue m.running m.removing id _ still
                busy t)))

  pub cancel-Inv :
      (now : ℕ) (id : Text) (m : JobManager) → Inv most m → Inv most (cancel now id m).0
  unfolding cancel
  cancel-Inv now id m0 inv0 =
      let m = ensure_init now m0 in
      let inv = ensure_init-Inv now m0 inv0 in
      elim (Option-cases (live_get id m)) [
        | inl e ↦ rw (cancel, e) (cancel_row-Inv now id m inv)
        | inr (l, e) ↦ rw (cancel, e) (cancel_live-Inv now id l m (live_get-object id m l e) inv)
      ]
