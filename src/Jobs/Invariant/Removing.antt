-- ===== src/Jobs/Invariant/Removing.antt =====
-- `remove` of src/server/jobs/manager.ts: while it waits for `cancel`, its job is not queued.
use database_admin.Common.{
  ℕ, ◌≡◌, refl, sym, ap, ◌∙◌, inl, inr, Bool, true, false, not, ◌||◌, Option, none, some, List, [],
  ◌∷◌, ◌++◌, arith, ltb, Bool-cases, Option-cases, length, Text, codes, text_eq, has, either_branch,
}
use database_admin.Jobs.{JobStatus, is_terminal, row_to_job, get_row, remove_row}
use database_admin.Jobs.Manager.{LiveJob, Scope}
use database_admin.Jobs.Scheduler.{
  JobManager, delete, splice_out, live_get, within, ensure_init, start, is_queued, start_next,
  pump_from, pump, release, finish,
}
use database_admin.Jobs.Cancel.{
  cancel_row, cancel_live, cancel, mark_removed, remove_begin, remove_end,
}
use database_admin.Jobs.Members.{
  text_eq_refl, text_eq_same, text_eq_other, has-append_one, has-delete_same, has-splice_out,
  has-splice_out_back,
}
use database_admin.Jobs.Local.{Kept-intro}
use database_admin.Jobs.Invariant.{
  is_cancelling, IsPlaced, Inv, Others-IsPlaced, Kept-IsTracked, tracked,
}
use mathlib.Core.Path.{subst}
use database_admin.Jobs.Invariant.Slots.{live_get-object, live_get-dead, dead_status}
use database_admin.Jobs.Invariant.Cancelling.{
  ensure_init-Inv, within-Inv, cancel-Inv, cancel_scope_status, cancel_live-Inv,
}

-- No job of this id waits in the queue.
abbrev IsIdle : Option LiveJob → Type 0
IsIdle none = Unit
IsIdle (some l) = is_queued l.job.status ≡ false

start_next-live : (now : ℕ) (id : Text) (m : JobManager) → (start_next now id m).live ≡ m.live
unfolding start_next start within
start_next-live now id m = elim (Option-cases (live_get id m)) [
  | inl e ↦ rw (start_next, e) refl
  | inr (l, e) ↦
      rw (start_next, e)
        (either_branch (λ (n : JobManager). n.live ≡ m.live)
          (l.finished || not (is_queued l.job.status)) (λ _. refl) (λ _. refl))
]

pump_from-live :
    (now : ℕ) (queue : List Text) (m : JobManager) → (pump_from now queue m).live ≡ m.live
unfolding pump_from
pump_from-live now [] m = refl
pump_from-live now (id ∷ queue) m =
    let taken : JobManager = record m { queue = queue } in
    either_branch (λ (n : JobManager). n.live ≡ m.live) (ltb (length m.running) m.concurrency)
      (λ _. pump_from-live now queue (start_next now id taken) ∙ start_next-live now id taken)
      (λ _. refl)

finish-live :
    (now : ℕ) (status : JobStatus) (error result : Option Text) (l : LiveJob) (m : JobManager)
    → l.finished ≡ false
    → (finish now status error result l m).live ≡ delete l.job.id m.live
unfolding finish release within pump
finish-live now status error result l m still =
    either_branch (λ (n : JobManager). n.live ≡ delete l.job.id m.live) l.finished
      (λ e. absurd (cc (e, still))) (λ _. pump_from-live now m.queue _)

module _ (most : ℕ) where
  -- An id that is not live.
  dead-IsIdle :
      (m : JobManager) (id : Text) → Inv most m → has m.live id ≡ false → IsIdle (m.objects id)
  dead-IsIdle m id inv dead = elim (Option-cases (m.objects id)) [
    | inl e ↦ rw e tt
    | inr (l, e) ↦ rw e (dead_status l.job.status dead (tracked m id l inv.place e).is_live)
  ]

  not_live-IsIdle :
      (m : JobManager) (id : Text) → Inv most m → live_get id m ≡ none → IsIdle (m.objects id)
  not_live-IsIdle m id inv h = elim (Option-cases (m.objects id)) [
    | inl e ↦ rw e tt
    | inr (l, e) ↦
        let t = tracked m id l inv.place e in
        rw e (dead_status l.job.status (live_get-dead id m l e h) t.is_live)
  ]

  pub cancel_row-objects :
      (now : ℕ) (id : Text) (m : JobManager) → (cancel_row now id m).0.objects ≡ m.objects
  unfolding cancel_row
  cancel_row-objects now id m = elim (Option-cases (get_row id m.rows)) [
    | inl e ↦ rw (cancel_row, e) refl
    | inr (r, e) ↦
        rw (cancel_row, e)
          (either_branch (λ (p : JobManager × Bool). p.0.objects ≡ m.objects)
            (is_terminal (row_to_job r).status) (λ _. refl) (λ _. refl))
  ]

  asked_status :
      (status : JobStatus)
      → (is_cancelling status || is_terminal status) ≡ true
      → is_queued status ≡ false
  unfolding is_terminal
  asked_status JobStatus.queued h = absurd (cc h)
  asked_status JobStatus.running h = refl
  asked_status JobStatus.cancelling h = refl
  asked_status JobStatus.done h = refl
  asked_status JobStatus.failed h = refl
  asked_status JobStatus.cancelled h = refl

  over-IsIdle :
      (m : JobManager) (id : Text) (l : LiveJob)
      → Inv most m
      → m.objects id ≡ some l
      → (l.finished || l.cancel_requested) ≡ true
      → is_queued l.job.status ≡ false
  over-IsIdle m id l inv o h =
      let t = tracked m id l inv.place o in
      asked_status l.job.status (elim (Bool-cases l.finished) [
        | inl e ↦ rw (sym t.ended ∙ e) (ground arith)
        | inr e ↦ t.requested (ground (arith, h, e))
      ])

  -- After `cancel` no job of the id waits.
  cancel_live-IsIdle :
      (now : ℕ) (id : Text) (l : LiveJob) (m : JobManager)
      → Inv most m
      → m.objects id ≡ some l
      → Inv most (cancel_live now id l m).0
      → IsIdle ((cancel_live now id l m).0.objects id)
  unfolding cancel_live within
  cancel_live-IsIdle now id l m inv o =
      let t = tracked m id l inv.place o in
      let s : Scope = record { live = l; rows = m.rows; output = m.output } in
      let requested : LiveJob = record l { cancel_requested = true } in
      let dequeued : JobManager = record m { queue = splice_out id m.queue } in
      let Idle : JobManager × Bool → Type 0 = λ p. Inv most p.0 → IsIdle (p.0.objects id) in
      either_branch Idle (l.finished || l.cancel_requested)
        (λ over _. rw o (over-IsIdle m id l inv o over))
        (λ free.
          let still : l.finished ≡ false = ground (arith, free) in
          either_branch Idle (is_queued l.job.status)
            (λ _ after. dead-IsIdle _ id after (
              ap (λ live. has live id)
                (finish-live now JobStatus.cancelled (some (codes "Cancelled before it started"))
                  none requested dequeued still)
              ∙ (ap (λ i. has (delete i m.live) id) t.own_id ∙ has-delete_same id m.live)))
            (λ _ _. rw (text_eq_refl id) (ap is_queued (cancel_scope_status most now m.exited s))))

  cancel-IsIdle :
      (now : ℕ) (id : Text) (m : JobManager) → Inv most m → IsIdle ((cancel now id m).0.objects id)
  unfolding cancel
  cancel-IsIdle now id m0 inv0 =
      let m = ensure_init now m0 in
      let inv = ensure_init-Inv most now m0 inv0 in
      elim (Option-cases (live_get id m)) [
        | inl e ↦
            rw (cancel, e)
              (subst (λ o. IsIdle (o id)) (sym (cancel_row-objects now id m))
                (not_live-IsIdle m id inv e))
        | inr (l, e) ↦
            let o = live_get-object id m l e in
            let after = cancel_live-Inv most now id l m o inv in
            rw (cancel, e) (cancel_live-IsIdle now id l m inv o after)
      ]

  begun-Inv :
      (id : Text) (m : JobManager)
      → Inv most m
      → IsIdle (m.objects id)
      → Inv most (record m { removing = m.removing ++ id ∷ [] })
  begun-Inv id m inv idle = record {
    limit = inv.limit;
    slots = inv.slots;
    place = λ j. elim (Bool-cases (text_eq j id)) [
      | inl e ↦ rw (text_eq_same j id e) (here_placed (m.objects id) idle (inv.place id))
      | inr e ↦
          Others-IsPlaced m (record m { removing = m.removing ++ id ∷ [] }) j (m.objects j)
            (record {
              same_live = refl;
              in_queue = λ h. h;
              same_running = refl;
              in_removing =
                  λ h. ground (arith, has-append_one m.removing id j, h, text_eq_other j id e);
            })
            (inv.place j)
    ];
  }
    where
      here_placed :
          (o : Option LiveJob)
          → IsIdle o
          → IsPlaced m.live m.queue m.running m.removing id o
          → IsPlaced m.live m.queue m.running (m.removing ++ id ∷ []) id o
      here_placed none idle p = p
      here_placed (some l) idle t = record {
        own_id = t.own_id;
        is_log = t.is_log;
        ended = t.ended;
        is_live = t.is_live;
        waits = t.waits;
        runs = t.runs;
        requested = t.requested;
        not_done = t.not_done;
        stays = λ _. idle;
      }

  pub remove_begin-Inv :
      (now : ℕ) (id : Text) (m : JobManager) → Inv most m → Inv most (remove_begin now id m)
  unfolding remove_begin
  remove_begin-Inv now id m0 inv0 =
      let m = ensure_init now m0 in
      let inv = ensure_init-Inv most now m0 inv0 in
      elim (Option-cases (live_get id m)) [
        | inl e ↦ rw e (begun-Inv id m inv (not_live-IsIdle m id inv e))
        | inr (l, e) ↦
            let o = live_get-object id m l e in
            let P : JobManager → Type 0 =
              λ n. Inv most (record n { removing = n.removing ++ id ∷ [] }) in
            rw e (
              either_branch P l.finished
                (λ over.
                  begun-Inv id m inv (rw o (over-IsIdle m id l inv o (ground (arith, over)))))
                (λ _.
                  begun-Inv id (cancel now id m).0 (cancel-Inv most now id m inv)
                    (cancel-IsIdle now id m inv)))
      ]

  -- The rest of `remove`, whose job is not queued.
  ended-Inv :
      (id : Text) (m : JobManager)
      → has m.removing id ≡ true
      → Inv most m
      → Inv most (record m {
        queue = splice_out id m.queue;
        rows = remove_row id m.rows;
        removing = splice_out id m.removing;
      })
  ended-Inv id m r inv = record {
    limit = inv.limit;
    slots = inv.slots;
    place = λ j. elim (Bool-cases (text_eq j id)) [
      | inl e ↦ rw (text_eq_same j id e) (here_placed (m.objects id) (inv.place id))
      | inr e ↦
          Others-IsPlaced m
            (record m {
              queue = splice_out id m.queue;
              rows = remove_row id m.rows;
              removing = splice_out id m.removing;
            })
            j (m.objects j)
            (record {
              same_live = refl;
              in_queue = λ h. has-splice_out id j m.queue e ∙ h;
              same_running = refl;
              in_removing = has-splice_out_back id j m.removing;
            })
            (inv.place j)
    ];
  }
    where
      here_placed :
          (o : Option LiveJob)
          → IsPlaced m.live m.queue m.running m.removing id o
          → IsPlaced m.live (splice_out id m.queue) m.running (splice_out id m.removing) id o
      here_placed none p = p
      here_placed (some l) t = record {
        own_id = t.own_id;
        is_log = t.is_log;
        ended = t.ended;
        is_live = t.is_live;
        waits = λ q. absurd (cc (q, t.stays r));
        runs = t.runs;
        requested = t.requested;
        not_done = t.not_done;
        stays = λ _. t.stays r;
      }

  pub remove_end-Inv :
      (id : Text) (m : JobManager)
      → has m.removing id ≡ true
      → Inv most m
      → Inv most (remove_end id m).0
  unfolding remove_end within
  remove_end-Inv id m r inv = elim (Option-cases (live_get id m)) [
    | inl e ↦ rw (remove_end, e) (ended-Inv id m r inv)
    | inr (l, e) ↦
        let t = tracked m id l inv.place (live_get-object id m l e) in
        let marked : LiveJob = record l { removed = true } in
        rw (remove_end, e)
          (ended-Inv id (within id l mark_removed m) r (
            within-Inv most m id l mark_removed inv (
              Kept-IsTracked m.live m.queue m.running m.removing id l marked
                (Kept-intro l marked refl refl refl) t)))
  ]
