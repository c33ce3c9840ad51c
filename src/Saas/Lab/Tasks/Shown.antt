-- ===== src/Saas/Lab/Tasks/Shown.antt =====
-- internal/saas/api and internal/saas/epoch: the progress that a client is shown.
use trandingnok.Base.{
  ℕ, ◌+◌, ◌==◌, ◌≡◌, refl, inl, inr, Bool, true, false, Option, none, some, List, [], ◌∷◌, String,
  arith, Bool-cases, Option-cases, All,
}
use trandingnok.Float.{Float64, nought}
use trandingnok.Quant.Genome.{SpawnPoint}
use trandingnok.Saas.Store.{update_where}
use trandingnok.Saas.Lab.{TaskStatus, GeneRecord, EvolutionTask}
use trandingnok.Saas.Lab.Spawn.{CreateTaskRequest}
use trandingnok.Saas.Lab.Service.{
  Job, EpochService, Ended, is_busy, cancel_active_task, update_task, with_status, launch,
  create_and_run_task, on_progress, finish_epoch,
}
use trandingnok.Saas.Lab.Service.Single.{
  Event, request, cancel, progress, ends, job_of, step, run_events, new_service,
}
use trandingnok.Saas.Lab.Tasks.{list_tasks}

module _ {R : Type 0} ⦃f : Float64 R⦄ (marshal : CreateTaskRequest R → String) where
  -- The active task shows no generation and no score.
  abbrev pub IsBlank : Option (EvolutionTask R) → Type 0
  IsBlank none = Unit
  IsBlank (some t) = (t.current_generation ≡ 0) × (t.best_score ≡ nought)

  create-IsBlank :
      (fails : Bool) (spawn : Option (SpawnPoint R)) (req : CreateTaskRequest R)
      (s : EpochService R)
      → IsBlank s.active_task
      → IsBlank (create_and_run_task marshal fails spawn req s).0.active_task
  unfolding create_and_run_task launch
  create-IsBlank fails spawn req s h = elim (Bool-cases (is_busy s.active_task)) [
    | inl taken ↦ rw taken h
    | inr free ↦ elim (Option-cases spawn) [
      | inl lacking ↦ rw (free, lacking) h
      | inr (sp, given) ↦ elim (Bool-cases fails) [
        | inl bad ↦ rw (free, given, bad) h
        | inr good ↦ rw (free, given, good) (refl, refl)
      ]
    ]
  ]

  with_status-IsBlank :
      (st : TaskStatus) (o : Option (EvolutionTask R)) → IsBlank o → IsBlank (with_status st o)
  with_status-IsBlank st none h = tt
  with_status-IsBlank st (some t) h = h

  finish-IsBlank :
      (fails : Bool) (j : Job R) (e : Ended R) (s : EpochService R)
      → IsBlank s.active_task
      → IsBlank (finish_epoch fails j e s).active_task
  unfolding finish_epoch update_task
  finish-IsBlank true j e s h = with_status-IsBlank _ s.active_task h
  finish-IsBlank false j e s h = with_status-IsBlank _ s.active_task h

  progress-active :
      (fails : Bool) (j : Job R) (gen : ℕ) (best : R) (s : EpochService R)
      → (on_progress fails j gen best s).active_task ≡ s.active_task
  unfolding on_progress update_task
  progress-active true j gen best s = refl
  progress-active false j gen best s = refl

  cancel-active : (s : EpochService R) → (cancel_active_task s).active_task ≡ s.active_task
  unfolding cancel_active_task
  cancel-active s = ground arith

  step-IsBlank :
      (e : Event R) (s : EpochService R)
      → IsBlank s.active_task
      → IsBlank (step marshal e s).active_task
  unfolding step
  step-IsBlank (request fails spawn req) s h = create-IsBlank fails spawn req s h
  step-IsBlank cancel s h = rw (cancel-active s) h
  step-IsBlank (progress fails id gen best) s h = elim (Option-cases (job_of id s)) [
    | inl gone ↦ rw (gone, step) h
    | inr (j, known) ↦ rw (known, step, progress-active fails j gen best s) h
  ]
  step-IsBlank (ends fails id e) s h = elim (Option-cases (job_of id s)) [
    | inl gone ↦ rw (gone, step) h
    | inr (j, known) ↦ rw (known, step) (finish-IsBlank fails j e s h)
  ]

  run_events-IsBlank :
      (es : List (Event R)) (s : EpochService R)
      → IsBlank s.active_task
      → IsBlank (run_events marshal es s).active_task
  unfolding run_events
  run_events-IsBlank [] s h = h
  run_events-IsBlank (e ∷ es) s h = run_events-IsBlank es (step marshal e s) (step-IsBlank e s h)

  -- The rows of a task show a generation and a score.
  abbrev pub Reached : ℕ → ℕ → R → List (EvolutionTask R) → Type 0
  Reached id gen best =
      All
        (λ (t : EvolutionTask R). t.id ≡ id → (t.current_generation ≡ gen) × (t.best_score ≡ best))

  update-Reached :
      (id gen : ℕ) (best : R) (g : EvolutionTask R → EvolutionTask R) (ts : List (EvolutionTask R))
      → ((t : EvolutionTask R) → ((g t).current_generation ≡ gen) × ((g t).best_score ≡ best))
      → Reached id gen best (update_where (λ t. t.id == id) g ts)
  update-Reached id gen best g [] sets = tt
  update-Reached id gen best g (t ∷ ts) sets = elim (Bool-cases (t.id == id)) [
    | inl mine ↦ rw mine (λ _. sets t, update-Reached id gen best g ts sets)
    | inr other ↦ rw other (λ e. absurd (ground arith), update-Reached id gen best g ts sets)
  ]

  progress-Reached :
      (j : Job R) (gen : ℕ) (best : R) (s : EpochService R)
      → Reached j.task_id (gen + 1) best (on_progress false j gen best s).tasks
  unfolding on_progress update_task
  progress-Reached j gen best s =
      update-Reached j.task_id (gen + 1) best _ s.tasks (λ t. (refl, refl))

  -- After any events, when the epoch of a task reports a generation and its row is updated, the row
  -- shows that generation and its score, and the list of tasks shows generation 0 and score 0: the
  -- active task in memory is the record as it was created.
  pub list_tasks-stale :
      (parse : String → List (String × R)) (fails : Bool) (genes : List (GeneRecord R))
      (es : List (Event R)) (id gen : ℕ) (best : R) (j : Job R) (t : EvolutionTask R)
      → job_of id (run_events marshal es new_service) ≡ some j
      → (run_events marshal es new_service).active_task ≡ some t
      → let s' = step marshal (progress false id gen best) (run_events marshal es new_service) in
        Reached j.task_id (gen + 1) best s'.tasks
        × ((list_tasks parse fails genes s').progress ≡ some (0, nought, t.status))
  unfolding step list_tasks
  list_tasks-stale parse fails genes es id gen best j t known act =
      let s = run_events marshal es new_service in
      let blank : IsBlank (some t) = rw act at (run_events-IsBlank es new_service tt) in
      let same = progress-active false j gen best s in
      rw (known, step)
        (progress-Reached j gen best s, rw (same, act, list_tasks, blank.0, blank.1) refl)
