-- ===== src/Jobs/Steps.antt =====
-- The events of a JobManager (src/server/jobs/manager.ts) and the states that they lead to: the
-- calls of routes and runners, the turns of the event loop and the timers, in any order in which
-- they can come. `IsPossible` says when: a runner's context exists from the start of its job on, a
-- runner settles once it has started, a timer fires where it is armed, and randomUUID gives an id
-- that nothing has.
use database_admin.Common.{
  ℕ, ◌≤◌, max, ◌≡◌, ◌≢◌, Bool, true, false, Option, none, some, List, ◌∷◌, Text, has,
}
use database_admin.Jobs.{get_row}
use database_admin.Jobs.Manager.{Thrown, LiveJob, Scope}
use database_admin.Jobs.Scheduler.{JobManager, with_object, cleanup, ensure_init, pump}
use database_admin.Jobs.Cancel.{cancel, remove_begin, remove_end}
use database_admin.Jobs.Context.{
  NewJob, create, set_concurrency, ProgressPatch, report, log, register_child, on_cancel,
  hook_failed, flush_tick, kill_tick, force_tick, Outcome, settle,
}

-- What acts on one job through a closure and leaves the slots alone.
pub data LocalEvent : Type 0 where
  report_progress : (now : ℕ) (patch : ProgressPatch) → LocalEvent
  write_log : (line : Text) → LocalEvent
  child_registered : (child : ℕ) → LocalEvent
  hook_registered : (hook : ℕ) → LocalEvent
  hook_threw : (thrown : Thrown) → LocalEvent
  flush_fires : (now : ℕ) → LocalEvent
  kill_fires : LocalEvent

pub data Event : Type 0 where
  create_job : (now : ℕ) (id : Text) (n : NewJob) → Event
  pump_turn : (now : ℕ) → Event
  limit : (now n : ℕ) → Event
  at_job : (id : Text) (e : LocalEvent) → Event
  settles : (now : ℕ) (id : Text) (outcome : Outcome) → Event
  force_fires : (now : ℕ) (id : Text) → Event
  cancel_job : (now : ℕ) (id : Text) → Event
  remove_called : (now : ℕ) (id : Text) → Event
  remove_resumes : (id : Text) → Event
  clean : (now days : ℕ) → Event
  query : (now : ℕ) → Event
  child_exits : (child : ℕ) → Event

unfoldable pub local : List ℕ → LocalEvent → Scope → Scope
unfolding report log register_child on_cancel hook_failed flush_tick kill_tick
local exited (report_progress now patch) = report now patch
local exited (write_log line) = log line
local exited (child_registered child) = register_child exited child
local exited (hook_registered hook) = on_cancel hook
local exited (hook_threw thrown) = hook_failed thrown
local exited (flush_fires now) = flush_tick now
local exited kill_fires = kill_tick exited

unfoldable pub on_object : Text → (LiveJob → JobManager → JobManager) → JobManager → JobManager
on_object id f m = elim (m.objects id) [ none ↦ m | some l ↦ f l m ]

unfoldable pub apply : Event → JobManager → JobManager
unfolding on_object create pump set_concurrency with_object local settle force_tick cancel
    remove_begin remove_end cleanup ensure_init
apply (create_job now id n) m = (create now id n m).0
apply (pump_turn now) m = pump now m
apply (limit now n) m = set_concurrency now n m
apply (at_job id e) m = with_object id (local m.exited e) m
apply (settles now id outcome) m = on_object id (settle now outcome) m
apply (force_fires now id) m = on_object id (force_tick now) m
apply (cancel_job now id) m = (cancel now id m).0
apply (remove_called now id) m = remove_begin now id m
apply (remove_resumes id) m = (remove_end id m).0
apply (clean now days) m = cleanup days now m
apply (query now) m = ensure_init now m
apply (child_exits child) m = record m { exited = child ∷ m.exited }

-- A job that has started, by what `start` writes.
abbrev HasStarted : Option LiveJob → Type 0
HasStarted none = ⊥
HasStarted (some l) = l.job.started_at ≢ none

abbrev IsArmed : (LiveJob → Bool) → Option LiveJob → Type 0
IsArmed timer none = ⊥
IsArmed timer (some l) = timer l ≡ true

abbrev IsLocallyPossible : LocalEvent → Option LiveJob → Type 0
IsLocallyPossible (flush_fires now) l = IsArmed (λ l. l.flush_timer) l
IsLocallyPossible kill_fires l = IsArmed (λ l. l.kill_timer) l
IsLocallyPossible _ l = HasStarted l

-- `most` bounds what setConcurrency is called with.
abbrev pub IsPossible : ℕ → Event → JobManager → Type 0
IsPossible most (create_job now id n) m =
    (m.objects id ≡ none) × (get_row id m.rows ≡ none) × (has m.removing id ≡ false)
IsPossible most (limit now n) m = max 1 n ≤ most
IsPossible most (at_job id e) m = IsLocallyPossible e (m.objects id)
IsPossible most (settles now id outcome) m = HasStarted (m.objects id)
IsPossible most (force_fires now id) m = IsArmed (λ l. l.force_timer) (m.objects id)
IsPossible most (remove_resumes id) m = has m.removing id ≡ true
IsPossible most _ m = Unit

pub data Step (most : ℕ) : JobManager → JobManager → Type 0 where
  step : (e : Event) (m : JobManager) → IsPossible most e m → Step most m (apply e m)

pub data Reach (most : ℕ) (m : JobManager) : JobManager → Type 0 where
  here : Reach most m m
  next : {n o : JobManager} → Reach most m n → Step most n o → Reach most m o
