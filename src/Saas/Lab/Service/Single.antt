-- ===== src/Saas/Lab/Service/Single.antt =====
-- internal/saas/epoch/service.go: one epoch runs at a time, and what the service tells of it.
use trandingnok.Base.{
  ℕ, ◌≡◌, refl, ◌∙◌, inl, inr, Bool, true, false, Option, none, some, List, [], ◌∷◌, String, arith,
  ◌==◌, Option-cases,
}
use trandingnok.Float.{Float64}
use trandingnok.Quant.Genome.{SpawnPoint}
use trandingnok.Saas.Store.{find_first}
use trandingnok.Saas.Lab.{running, EvolutionTask}
use trandingnok.Saas.Lab.Spawn.{CreateTaskRequest, prepare_request}
use trandingnok.Saas.Lab.Service.{
  Job, EpochService, Ended, error, result, is_busy, next_task_id, cancel_active_task, update_task,
  remove_job, task_of, launch, create_and_run_task, on_progress, finish_epoch,
}

-- What happens to the service: a request with its resolved spawn point and the database's answer,
-- a cancellation, and from the epoch of a task a progress report or its end.
pub data Event (R : Type 0) : Type 0 where
  request : Bool → Option (SpawnPoint R) → CreateTaskRequest R → Event R
  cancel : Event R
  progress : Bool → ℕ → ℕ → R → Event R
  ends : Bool → ℕ → Ended R → Event R

module _ {R : Type 0} where
  abbrev pub job_of : ℕ → EpochService R → Option (Job R)
  job_of id s = find_first (λ (j : Job R). j.task_id == id) s.jobs

  abbrev pub new_service : EpochService R
  new_service = record {
    tasks = [];
    active_task = none;
    cancel_fn = none;
    cancelled = [];
    jobs = [];
  }

module _ {R : Type 0} ⦃f : Float64 R⦄ (marshal : CreateTaskRequest R → String) where
  -- Only an epoch that runs reports or ends.
  unfoldable pub step : Event R → EpochService R → EpochService R
  step (request fails spawn req) s = (create_and_run_task marshal fails spawn req s).0
  step cancel s = cancel_active_task s
  step (progress fails id gen best) s = elim (job_of id s) [
    | none ↦ s
    | some job ↦ on_progress fails job gen best s
  ]
  step (ends fails id e) s = elim (job_of id s) [ none ↦ s | some job ↦ finish_epoch fails job e s ]

  unfoldable pub run_events : List (Event R) → EpochService R → EpochService R
  run_events [] s = s
  run_events (e ∷ es) s = run_events es (step e s)

  -- No epoch runs and none is shown as running, or the one that runs is the active task's.
  pub data IsSingle (s : EpochService R) : Type 0 where
    idle : s.jobs ≡ [] → is_busy s.active_task ≡ false → IsSingle s
    busy :
        (j : Job R) (t : EvolutionTask R)
        → s.jobs ≡ j ∷ []
        → s.active_task ≡ some t
        → t.status ≡ running
        → t.id ≡ j.task_id
        → IsSingle s

  create-IsSingle :
      (fails : Bool) (spawn : Option (SpawnPoint R)) (req : CreateTaskRequest R)
      (s : EpochService R)
      → IsSingle s
      → IsSingle (create_and_run_task marshal fails spawn req s).0
  unfolding create_and_run_task launch
  create-IsSingle fails spawn req s (busy j t jobs act run own) =
      let taken : is_busy s.active_task ≡ true = rw act (ground arith) in
      rw taken (busy j t jobs act run own)
  create-IsSingle fails none req s (idle jobs act) = rw act (idle jobs act)
  create-IsSingle true (some spawn) req s (idle jobs act) = rw act (idle jobs act)
  create-IsSingle false (some spawn) req s (idle jobs act) =
      let id = next_task_id s.tasks in
      let req' = prepare_request req in
      let job : Job R = record { task_id = id; request = req'; spawn = spawn } in
      rw act (busy job (task_of marshal id req') (rw jobs refl) refl refl refl)

  finish-IsSingle :
      (fails : Bool) (j : Job R) (e : Ended R) (s : EpochService R) (t : EvolutionTask R)
      → s.jobs ≡ j ∷ []
      → s.active_task ≡ some t
      → IsSingle (finish_epoch fails j e s)
  unfolding finish_epoch update_task remove_job
  finish-IsSingle true j (error msg) s t jobs act = idle (rw jobs (ground arith)) (rw act refl)
  finish-IsSingle true j (result r) s t jobs act = idle (rw jobs (ground arith)) (rw act refl)
  finish-IsSingle false j (error msg) s t jobs act = idle (rw jobs (ground arith)) (rw act refl)
  finish-IsSingle false j (result r) s t jobs act = idle (rw jobs (ground arith)) (rw act refl)

  -- What leaves the epochs and the active task.
  Same : EpochService R → EpochService R → Type 0
  Same s s' = (s'.jobs ≡ s.jobs) × (s'.active_task ≡ s.active_task)

  Same-IsSingle : (s s' : EpochService R) → Same s s' → IsSingle s → IsSingle s'
  unfolding Same
  Same-IsSingle s s' (js, a) (idle jobs act) = idle (js ∙ jobs) (rw a act)
  Same-IsSingle s s' (js, a) (busy j t jobs act run own) = busy j t (js ∙ jobs) (a ∙ act) run own

  progress-Same :
      (fails : Bool) (j : Job R) (gen : ℕ) (best : R) (s : EpochService R)
      → Same s (on_progress fails j gen best s)
  unfolding on_progress update_task Same
  progress-Same true j gen best s = (refl, refl)
  progress-Same false j gen best s = (refl, refl)

  cancel-Same : (s : EpochService R) → Same s (cancel_active_task s)
  unfolding cancel_active_task Same
  cancel-Same s = ground arith

  finish_known-IsSingle :
      (fails : Bool) (id : ℕ) (e : Ended R) (s : EpochService R) (j' : Job R)
      → job_of id s ≡ some j'
      → IsSingle s
      → IsSingle (finish_epoch fails j' e s)
  finish_known-IsSingle fails id e s j' known (idle jobs act) = absurd (ground arith)
  finish_known-IsSingle fails id e s j' known (busy j t jobs act run own) =
      let same : j ≡ j' = ground arith in finish-IsSingle fails j' e s t (rw (← same) jobs) act

  step-IsSingle : (e : Event R) (s : EpochService R) → IsSingle s → IsSingle (step e s)
  unfolding step
  step-IsSingle (request fails spawn req) s h = create-IsSingle fails spawn req s h
  step-IsSingle cancel s h = Same-IsSingle s (cancel_active_task s) (cancel-Same s) h
  step-IsSingle (progress fails id gen best) s h = elim (Option-cases (job_of id s)) [
    | inl gone ↦ rw (gone, step) h
    | inr (j, known) ↦
        rw (known, step)
          (Same-IsSingle s (on_progress fails j gen best s) (progress-Same fails j gen best s) h)
  ]
  step-IsSingle (ends fails id e) s h = elim (Option-cases (job_of id s)) [
    | inl gone ↦ rw (gone, step) h
    | inr (j, known) ↦ rw (known, step) (finish_known-IsSingle fails id e s j known h)
  ]

  run_events-keeps :
      (es : List (Event R)) (s : EpochService R) → IsSingle s → IsSingle (run_events es s)
  unfolding run_events
  run_events-keeps [] s h = h
  run_events-keeps (e ∷ es) s h = run_events-keeps es (step e s) (step-IsSingle e s h)

  -- Whatever requests, cancellations, progress reports and ends come, with any failing calls, at
  -- most one epoch runs: either none does and the service shows no running task, or the one that
  -- runs is that of the active task, which is shown as running.
  pub run_events-IsSingle : (es : List (Event R)) → IsSingle (run_events es new_service)
  run_events-IsSingle es = run_events-keeps es new_service (idle refl refl)
