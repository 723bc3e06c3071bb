-- ===== src/Jobs/Invariant/Slots.antt =====
-- The slots of a JobManager (src/server/jobs/manager.ts): pump starts no more jobs than there are
-- slots, and finish gives one back.
use database_admin.Common.{
  ℕ, suc, ◌≤◌, ◌≡◌, refl, sym, ap, ◌∙◌, inl, inr, Bool, true, false, not, ◌||◌, Option, none, some,
  List, [], ◌∷◌, arith, ltb, Bool-cases, Option-cases, length, Text, codes, text_eq, has,
  either_branch,
}
use database_admin.Jobs.{JobStatus, is_terminal, JobProgress, Job}
use database_admin.Jobs.Manager.{LiveJob, Scope}
use database_admin.Jobs.Scheduler.{
  JobManager, add, live_get, within, start_scope, start, is_queued, start_next, pump_from, pump,
}
use database_admin.Jobs.Members.{text_eq_same, text_eq_other, has-add_same, has-add, length-add}
use database_admin.Jobs.Local.{persist-Kept}
use database_admin.Jobs.Invariant.{
  IsTracked, IsPlaced, Inv, Others, Others-IsPlaced, put-IsPlaced, Kept-IsTracked, tracked,
}
use mathlib.Core.Path.{subst}

queued_status : (status : JobStatus) → is_queued status ≡ true → status ≡ JobStatus.queued
queued_status JobStatus.queued h = refl
queued_status JobStatus.running h = absurd (cc h)
queued_status JobStatus.cancelling h = absurd (cc h)
queued_status JobStatus.done h = absurd (cc h)
queued_status JobStatus.failed h = absurd (cc h)
queued_status JobStatus.cancelled h = absurd (cc h)

-- `live.get`, seen from the objects.
pub live_get-object :
    (id : Text) (m : JobManager) (l : LiveJob) → live_get id m ≡ some l → m.objects id ≡ some l
unfolding live_get
live_get-object id m l h = ground (arith, h)

pub live_get-dead :
    (id : Text) (m : JobManager) (l : LiveJob)
    → m.objects id ≡ some l
    → live_get id m ≡ none
    → has m.live id ≡ false
unfolding live_get
live_get-dead id m l o h = elim (Bool-cases (has m.live id)) [
  | inl e ↦ absurd (cc (rw (e, o) at h))
  | inr e ↦ e
]

-- A job that is not live has ended, and waits no more.
pub dead_status :
    (status : JobStatus) {b : Bool}
    → b ≡ false
    → b ≡ not (is_terminal status)
    → is_queued status ≡ false
unfolding is_terminal
dead_status JobStatus.queued e h = absurd (cc (e, h))
dead_status JobStatus.running e h = refl
dead_status JobStatus.cancelling e h = refl
dead_status JobStatus.done e h = refl
dead_status JobStatus.failed e h = refl
dead_status JobStatus.cancelled e h = refl

terminal_status : (status : JobStatus) → is_terminal status ≡ true → is_queued status ≡ false
unfolding is_terminal
terminal_status JobStatus.queued h = absurd (cc h)
terminal_status JobStatus.running h = refl
terminal_status JobStatus.cancelling h = refl
terminal_status JobStatus.done h = refl
terminal_status JobStatus.failed h = refl
terminal_status JobStatus.cancelled h = refl

not_waiting :
    (l : LiveJob)
    → l.finished ≡ is_terminal l.job.status
    → (l.finished || not (is_queued l.job.status)) ≡ true
    → is_queued l.job.status ≡ false
not_waiting l t h = elim (Bool-cases l.finished) [
  | inl e ↦ terminal_status l.job.status (sym t ∙ e)
  | inr e ↦ ground (arith, h, e)
]

pub start_next-queue :
    (now : ℕ) (id : Text) (m : JobManager) → (start_next now id m).queue ≡ m.queue
unfolding start_next start within
start_next-queue now id m = elim (Option-cases (live_get id m)) [
  | inl e ↦ rw (start_next, e) refl
  | inr (l, e) ↦
      rw (start_next, e)
        (either_branch (λ (n : JobManager). n.queue ≡ m.queue)
          (l.finished || not (is_queued l.job.status)) (λ _. refl) (λ _. refl))
]

module _ (most : ℕ) where
  -- Taking the head of the queue of a job that does not wait.
  taken-Inv :
      (m : JobManager) (id : Text) (queue : List Text)
      → m.queue ≡ id ∷ queue
      → Inv most m
      → IsPlaced m.live queue m.running m.removing id (m.objects id)
      → Inv most (record m { queue = queue })
  taken-Inv m id queue q inv p = record {
    limit = inv.limit;
    slots = inv.slots;
    place = λ j. elim (Bool-cases (text_eq j id)) [
      | inl e ↦ rw (text_eq_same j id e) p
      | inr e ↦
          Others-IsPlaced m (record m { queue = queue }) j (m.objects j) (unqueued j e)
            (inv.place j)
    ];
  }
    where
      unqueued : (j : Text) → text_eq j id ≡ false → Others m (record m { queue = queue }) j
      unqueued j e = record {
        same_live = refl;
        in_queue = λ h. unfold has in ground (arith, rw q at h, text_eq_other j id e);
        same_running = refl;
        in_removing = λ h. h;
      }

  -- A job that waits no more is where it was without the queue.
  pub still-IsTracked :
      (m : JobManager) (id : Text) (queue : List Text) (l : LiveJob)
      → is_queued l.job.status ≡ false
      → IsTracked m.live m.queue m.running m.removing id l
      → IsTracked m.live queue m.running m.removing id l
  still-IsTracked m id queue l h t = record {
    own_id = t.own_id;
    is_log = t.is_log;
    ended = t.ended;
    is_live = t.is_live;
    waits = λ q. absurd (cc (h, q));
    runs = t.runs;
    requested = t.requested;
    not_done = t.not_done;
    stays = t.stays;
  }

  start_scope-IsTracked :
      (now : ℕ) (m : JobManager) (queue : List Text) (id : Text) (s : Scope)
      → is_queued s.live.job.status ≡ true
      → IsTracked m.live m.queue m.running m.removing id s.live
      → IsTracked m.live queue (add id m.running) m.removing id (start_scope now s).live
  unfolding start_scope is_terminal
  start_scope-IsTracked now m queue id s q t =
      let progress : JobProgress = record (s.live.job.progress) { phase = codes "starting" } in
      let job : Job = record (s.live.job) {
        status = JobStatus.running;
        started_at = some now;
        progress = progress;
      } in
      let live : LiveJob = record (s.live) { job = job; last_persist_at = now } in
      let is : s.live.job.status ≡ JobStatus.queued = queued_status s.live.job.status q in
      let active : is_terminal s.live.job.status ≡ false = rw is refl in
      Kept-IsTracked m.live queue (add id m.running) m.removing id live _
        (persist-Kept now (record s { live = live }))
        (record {
          own_id = t.own_id;
          is_log = t.is_log;
          ended = t.ended ∙ active;
          is_live = t.is_live ∙ ap not active;
          waits = λ h. absurd (cc h);
          runs = has-add_same id m.running;
          requested = λ c. absurd (cc (rw is at (t.requested c)));
          not_done = λ c. refl;
          stays = λ r. refl;
        })

  -- `start` of the job at the head of the queue.
  start-Inv :
      (now : ℕ) (m : JobManager) (id : Text) (queue : List Text) (l : LiveJob)
      → m.queue ≡ id ∷ queue
      → Inv most m
      → suc (length m.running) ≤ most
      → m.objects id ≡ some l
      → is_queued l.job.status ≡ true
      → Inv most (start now l (record m { queue = queue }))
  unfolding start within
  start-Inv now m id queue l q inv room o waits =
      let t = tracked m id l inv.place o in
      let s : Scope = record { live = l; rows = m.rows; output = m.output } in
      let started : Text → JobManager = λ i.
        let taken : JobManager = record m { queue = queue } in
        within i l (start_scope now) (record taken { running = add i m.running }) in
      subst (λ i. Inv most (started i)) (sym t.own_id)
        (record {
          limit = inv.limit;
          slots = omega (arith, length-add id m.running);
          place =
              put-IsPlaced m (started id) id (start_scope now s).live
                (λ j e. record {
                  same_live = refl;
                  in_queue = λ h. unfold has in ground (arith, rw q at h, text_eq_other j id e);
                  same_running = has-add id j m.running e;
                  in_removing = λ h. h;
                })
                (start_scope-IsTracked now m queue id s waits t) inv.place;
        })

  gone-IsPlaced :
      (m : JobManager) (id : Text) (queue : List Text)
      → live_get id (record m { queue = queue }) ≡ none
      → (o : Option LiveJob) → m.objects id ≡ o
      → IsPlaced m.live m.queue m.running m.removing id o
      → IsPlaced m.live queue m.running m.removing id (m.objects id)
  gone-IsPlaced m id queue e none o p = rw o p
  gone-IsPlaced m id queue e (some l) o t =
      let dead = live_get-dead id (record m { queue = queue }) l o e in
      rw o (still-IsTracked m id queue l (dead_status l.job.status dead t.is_live) t)

  -- The head of the queue, where there is a slot.
  pub start_next-Inv :
      (now : ℕ) (m : JobManager) (id : Text) (queue : List Text)
      → m.queue ≡ id ∷ queue
      → Inv most m
      → suc (length m.running) ≤ most
      → Inv most (start_next now id (record m { queue = queue }))
  unfolding start_next
  start_next-Inv now m id queue q inv room =
      let taken : JobManager = record m { queue = queue } in
      elim (Option-cases (live_get id taken)) [
        | inl e ↦
            rw (start_next, e)
              (taken-Inv m id queue q inv
                (gone-IsPlaced m id queue e (m.objects id) refl (inv.place id)))
        | inr (l, e) ↦
            let o : m.objects id ≡ some l = live_get-object id taken l e in
            let t = tracked m id l inv.place o in
            rw (start_next, e)
              (either_branch (Inv most) (l.finished || not (is_queued l.job.status))
                (λ h.
                  taken-Inv m id queue q inv
                    (rw o (still-IsTracked m id queue l (not_waiting l t.ended h) t)))
                (λ h. start-Inv now m id queue l q inv room o (ground (arith, h))))
      ]

  pump_from-Inv :
      (now : ℕ) (queue : List Text) (m : JobManager)
      → m.queue ≡ queue
      → Inv most m
      → Inv most (pump_from now queue m)
  unfolding pump_from
  pump_from-Inv now [] m q inv = record {
    limit = inv.limit;
    slots = inv.slots;
    place =
        subst (λ q. (j : Text) → IsPlaced m.live q m.running m.removing j (m.objects j)) q
          inv.place;
  }
  pump_from-Inv now (id ∷ queue) m q inv =
      let taken : JobManager = record m { queue = queue } in
      either_branch (Inv most) (ltb (length m.running) m.concurrency)
        (λ h.
          pump_from-Inv now queue (start_next now id taken) (start_next-queue now id taken)
            (start_next-Inv now m id queue q inv (ground (arith, h, inv.limit))))
        (λ h. record {
          limit = inv.limit;
          slots = inv.slots;
          place =
              subst (λ q. (j : Text) → IsPlaced m.live q m.running m.removing j (m.objects j)) q
                inv.place;
        })

  pub pump-Inv : (now : ℕ) (m : JobManager) → Inv most m → Inv most (pump now m)
  unfolding pump
  pump-Inv now m inv = pump_from-Inv now m.queue m refl inv
