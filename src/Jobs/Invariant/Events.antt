-- ===== src/Jobs/Invariant/Events.antt =====
-- Every event of a JobManager (src/server/jobs/manager.ts) keeps the invariant, so that it holds in
-- every state that can be reached.
use database_admin.Common.{
  ℕ, max, ◌≡◌, refl, sym, ap, ◌∙◌, inl, inr, true, false, ◌||◌, Option, none, some, List, [], ◌∷◌,
  ◌++◌, arith, Bool-cases, Option-cases, Text, codes, has, either_branch,
}
use database_admin.Jobs.{JobStatus, is_terminal, Job, JobRow}
use database_admin.Jobs.Manager.{
  Output, error_message, is_abort_error, LiveJob, new_live, append_log,
}
use database_admin.Jobs.Scheduler.{
  JobManager, put, within, with_object, cleanup, ensure_init, finish,
}
use database_admin.Jobs.Context.{
  NewJob, queued_job, create, set_concurrency, force_tick, Outcome, settle,
}
use database_admin.Jobs.Members.{text_eq_refl, text_eq_other, has-append_one}
use database_admin.Jobs.Local.{Kept-intro, append_log-Kept, local-Kept}
use database_admin.Jobs.Invariant.{Inv, put-IsPlaced, Kept-IsTracked, tracked}
use mathlib.Core.Path.{subst}
use database_admin.Jobs.Invariant.Slots.{pump-Inv}
use database_admin.Jobs.Invariant.Finish.{finish-Inv}
use database_admin.Jobs.Context.{same_kind}
use database_admin.Jobs.Steps.{LocalEvent, Event, local, on_object, apply, IsPossible}
use database_admin.Jobs.Invariant.Cancelling.{ensure_init-Inv, within-Inv, cancel-Inv}
use database_admin.Jobs.Invariant.Removing.{remove_begin-Inv, remove_end-Inv}

module _ (most : ℕ) where
  -- A new job, at the end of the queue.
  made-Inv :
      (now : ℕ) (id : Text) (n : NewJob) (m : JobManager) (rows : List JobRow)
      (output : List Output)
      → m.objects id ≡ none
      → has m.removing id ≡ false
      → Inv most m
      → Inv most (record m {
        objects = put id (new_live (queued_job now id n) now) m.objects;
        live = m.live ++ id ∷ [];
        queue = m.queue ++ id ∷ [];
        rows = rows;
        output = output;
      })
  unfolding is_terminal
  made-Inv now id n m rows output fresh unasked inv = record {
    limit = inv.limit;
    slots = inv.slots;
    place =
        put-IsPlaced m
          (record m {
            objects = put id (new_live (queued_job now id n) now) m.objects;
            live = m.live ++ id ∷ [];
            queue = m.queue ++ id ∷ [];
          })
          id (new_live (queued_job now id n) now)
          (λ j e. record {
            same_live = ground (arith, has-append_one m.live id j, text_eq_other j id e);
            in_queue = λ h. ground (arith, has-append_one m.queue id j, h);
            same_running = refl;
            in_removing = λ h. h;
          })
          (record {
            own_id = refl;
            is_log = record { lines = tt; count = omega arith };
            ended = refl;
            is_live = ground (arith, has-append_one m.live id id, text_eq_refl id);
            waits = λ _. ground (arith, has-append_one m.queue id id, text_eq_refl id);
            runs = rw fresh at (inv.place id);
            requested = λ c. absurd (cc c);
            not_done = λ c. refl;
            stays = λ r. absurd (cc (r, unasked));
          })
          inv.place;
  }

  pub ensure_init-objects : (now : ℕ) (m : JobManager) → (ensure_init now m).objects ≡ m.objects
  unfolding ensure_init cleanup
  ensure_init-objects now m =
      either_branch (λ (n : JobManager). n.objects ≡ m.objects) m.initialized (λ _. refl)
        (λ _. refl)

  ensure_init-removing : (now : ℕ) (m : JobManager) → (ensure_init now m).removing ≡ m.removing
  unfolding ensure_init cleanup
  ensure_init-removing now m =
      either_branch (λ (n : JobManager). n.removing ≡ m.removing) m.initialized (λ _. refl)
        (λ _. refl)

  create-Inv :
      (now : ℕ) (id : Text) (n : NewJob) (m : JobManager)
      → m.objects id ≡ none
      → has m.removing id ≡ false
      → Inv most m
      → Inv most (create now id n m).0
  unfolding create
  create-Inv now id n m fresh unasked inv =
      either_branch (λ (p : JobManager × Option Job). Inv most p.0) (same_kind n.params.kind n.kind)
        (λ _.
          made-Inv now id n (ensure_init now m) _ _
            (ap (λ o. o id) (ensure_init-objects now m) ∙ fresh)
            (ap (λ r. has r id) (ensure_init-removing now m) ∙ unasked)
            (ensure_init-Inv most now m inv))
        (λ _. ensure_init-Inv most now m inv)

  -- An end of a job that is one of the manager's.
  finish_own-Inv :
      (now : ℕ) (m : JobManager) (id : Text) (status : JobStatus) (error result : Option Text)
      (l : LiveJob)
      → Inv most m
      → m.objects id ≡ some l
      → is_terminal status ≡ true
      → Inv most (finish now status error result l m)
  finish_own-Inv now m id status error result l inv o h =
      let t = tracked m id l inv.place o in
      elim (Bool-cases l.finished) [
        | inl over ↦
            unfold finish in
            either_branch (Inv most) l.finished (λ _. inv) (λ e. absurd (cc (e, over)))
        | inr still ↦
            finish-Inv most now m id m.queue status error result l inv (λ j e q. q) t.own_id
              t.is_log still h
      ]

  settle-Inv :
      (now : ℕ) (outcome : Outcome) (id : Text) (l : LiveJob) (m : JobManager)
      → Inv most m
      → m.objects id ≡ some l
      → Inv most (settle now outcome l m)
  unfolding settle is_terminal
  settle-Inv now (Outcome.resolved result) id l m inv o =
      finish_own-Inv now m id JobStatus.done none result l inv o refl
  settle-Inv now (Outcome.rejected thrown) id l m inv o =
      finish_own-Inv now m id _ (some (error_message thrown)) none l inv o (
        either_branch (λ s. is_terminal s ≡ true)
          (l.cancel_requested || (l.aborted || is_abort_error thrown)) (λ _. refl) (λ _. refl))

  force_tick-Inv :
      (now : ℕ) (id : Text) (l : LiveJob) (m : JobManager)
      → Inv most m
      → m.objects id ≡ some l
      → Inv most (force_tick now l m)
  unfolding force_tick is_terminal
  force_tick-Inv now id l m inv o =
      let t = tracked m id l inv.place o in
      let unarmed : LiveJob = record l { force_timer = false } in
      let line = codes "Runner did not stop after SIGKILL; releasing the job slot" in
      let logged = append_log-Kept line unarmed in
      let u =
        Kept-IsTracked m.live m.queue m.running m.removing id l unarmed
          (Kept-intro l unarmed refl refl refl) t in
      either_branch (Inv most) l.finished
        (λ _.
          subst (λ i. Inv most (within i l (λ s. record s { live = unarmed }) m)) (sym t.own_id)
            (within-Inv most m id l (λ s. record s { live = unarmed }) inv u))
        (λ still.
          finish-Inv most now m id m.queue JobStatus.cancelled
            (some (codes "Cancelled (runner did not stop)")) none (append_log line unarmed) inv
            (λ j e q. q) (logged.same_id ∙ t.own_id) (logged.still_log t.is_log)
            (logged.same_finished ∙ still) refl)

  local-Inv :
      (id : Text) (e : LocalEvent) (m : JobManager)
      → Inv most m
      → Inv most (with_object id (local m.exited e) m)
  unfolding with_object
  local-Inv id e m inv = elim (Option-cases (m.objects id)) [
    | inl o ↦ rw (with_object, o) inv
    | inr (l, o) ↦
        rw (with_object, o)
          (within-Inv most m id l (local m.exited e) inv (
            Kept-IsTracked m.live m.queue m.running m.removing id l _
              (local-Kept m.exited e (record { live = l; rows = m.rows; output = m.output }))
              (tracked m id l inv.place o)))
  ]

  pub apply-Inv :
      (e : Event) (m : JobManager) → IsPossible most e m → Inv most m → Inv most (apply e m)
  unfolding apply
  apply-Inv (Event.create_job now id n) m h inv = create-Inv now id n m h.0 h.2 inv
  apply-Inv (Event.pump_turn now) m h inv = pump-Inv most now m inv
  apply-Inv (Event.limit now n) m h inv =
      unfold set_concurrency in
      pump-Inv most now (record m { concurrency = max 1 n })
        (record { limit = h; slots = inv.slots; place = inv.place })
  apply-Inv (Event.at_job id e) m h inv = local-Inv id e m inv
  apply-Inv (Event.settles now id outcome) m h inv = elim (Option-cases (m.objects id)) [
    | inl o ↦ rw (on_object, o) inv
    | inr (l, o) ↦ rw (on_object, o) (settle-Inv now outcome id l m inv o)
  ]
  apply-Inv (Event.force_fires now id) m h inv = elim (Option-cases (m.objects id)) [
    | inl o ↦ rw (on_object, o) inv
    | inr (l, o) ↦ rw (on_object, o) (force_tick-Inv now id l m inv o)
  ]
  apply-Inv (Event.cancel_job now id) m h inv = cancel-Inv most now id m inv
  apply-Inv (Event.remove_called now id) m h inv = remove_begin-Inv most now id m inv
  apply-Inv (Event.remove_resumes id) m h inv = remove_end-Inv most id m h inv
  apply-Inv (Event.clean now days) m h inv =
      unfold cleanup in record { limit = inv.limit; slots = inv.slots; place = inv.place }
  apply-Inv (Event.query now) m h inv = ensure_init-Inv most now m inv
  apply-Inv (Event.child_exits child) m h inv = record {
    limit = inv.limit;
    slots = inv.slots;
    place = inv.place;
  }
