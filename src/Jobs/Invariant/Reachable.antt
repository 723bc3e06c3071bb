-- ===== src/Jobs/Invariant/Reachable.antt =====
-- The states that a JobManager (src/server/jobs/manager.ts) can reach, and that no slot stays idle
-- while a job waits.
use database_admin.Common.{
  ℕ, ◌≤◌, ◌≡◌, refl, ◌⊎◌, inl, inr, false, Option, List, [], ◌∷◌, arith, ltb, length, Text, has,
  either_branch,
}
use database_admin.Jobs.{JobStatus, JobRow}
use database_admin.Jobs.Manager.{LiveJob}
use database_admin.Jobs.Scheduler.{JobManager, new_manager, pump_from, pump, release, finish}
use database_admin.Jobs.Invariant.{Inv}
use database_admin.Jobs.Steps.{Step, step, Reach, here, next}
use database_admin.Jobs.Invariant.Events.{apply-Inv}

new_manager-Inv :
    (most : ℕ) (concurrency retention env_concurrency env_retention : Option ℕ) (rows : List JobRow)
    → (new_manager concurrency retention env_concurrency env_retention rows).concurrency ≤ most
    → Inv most (new_manager concurrency retention env_concurrency env_retention rows)
unfolding new_manager
new_manager-Inv most concurrency retention env_concurrency env_retention rows h = record {
  limit = h;
  slots = omega arith;
  place = λ id. unfold has in refl;
}

Step-Inv : (most : ℕ) {m n : JobManager} → Step most m n → Inv most m → Inv most n
Step-Inv most (step e m h) inv = apply-Inv most e m h inv

Reach-Inv : (most : ℕ) {m n : JobManager} → Reach most m n → Inv most m → Inv most n
Reach-Inv most here inv = inv
Reach-Inv most (next r s) inv = Step-Inv most s (Reach-Inv most r inv)

-- In every state that a new manager reaches by any sequence of events, no more jobs hold a slot
-- than the concurrency that was ever set, and every job is where its status says: one that has not
-- ended is live, in the queue or in a slot; one that has ended is in no slot, and is not "done"
-- where its cancellation was requested; and every log is short and made of short lines.
pub Reach-Inv_new :
    (most : ℕ) (concurrency retention env_concurrency env_retention : Option ℕ) (rows : List JobRow)
    (m : JobManager)
    → (new_manager concurrency retention env_concurrency env_retention rows).concurrency ≤ most
    → Reach most (new_manager concurrency retention env_concurrency env_retention rows) m
    → Inv most m
Reach-Inv_new most concurrency retention env_concurrency env_retention rows m h r =
    Reach-Inv most r
      (new_manager-Inv most concurrency retention env_concurrency env_retention rows h)

-- The queue is empty or every slot is taken.
unfoldable pub IsSaturated : JobManager → Type 0
IsSaturated m = (m.queue ≡ []) ⊎ (m.concurrency ≤ length m.running)

pump_from-IsSaturated :
    (now : ℕ) (queue : List Text) (m : JobManager) → IsSaturated (pump_from now queue m)
unfolding pump_from IsSaturated
pump_from-IsSaturated now [] m = inl refl
pump_from-IsSaturated now (id ∷ queue) m =
    either_branch IsSaturated (ltb (length m.running) m.concurrency)
      (λ _. pump_from-IsSaturated now queue _) (λ full. inr (ground (arith, full)))

pump-IsSaturated : (now : ℕ) (m : JobManager) → IsSaturated (pump now m)
unfolding pump
pump-IsSaturated now m = pump_from-IsSaturated now m.queue m

-- A job that ends hands its slot on: afterwards no job waits, or every slot is taken.
pub finish-IsSaturated :
    (now : ℕ) (status : JobStatus) (error result : Option Text) (l : LiveJob) (m : JobManager)
    → l.finished ≡ false
    → IsSaturated (finish now status error result l m)
unfolding finish
finish-IsSaturated now status error result l m still =
    either_branch IsSaturated l.finished (λ e. absurd (cc (e, still)))
      (λ _. pump-IsSaturated now (release now status error result l.job.id l m))
