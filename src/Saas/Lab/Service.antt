-- ===== src/Saas/Lab/Service.antt =====
-- internal/saas/epoch/service.go: tasks of the evolution, one at a time.
pub mod Single
use trandingnok.Base.{
  ℕ, ◌+◌, Bool, false, Option, none, some, List, [], ◌∷◌, ◌++◌, String, ltb, ◌==◌, if◌then◌else◌, ℤ,
  pos, leb_ℤ,
}
use trandingnok.Float.{Float64, ◌⊘◌, lit, nought}
use trandingnok.Quant.Genome.{SpawnPoint}
use trandingnok.Saas.Store.{update_where}
use trandingnok.Saas.Lab.Spawn.{CreateTaskRequest, prepare_request}
use trandingnok.Saas.Lab.{TaskStatus, running, done, failed, is_running, EvolutionTask}

-- An epoch that runs in a goroutine.
pub record Job (R : Type 0) : Type 0 where
  pub task_id : ℕ
  pub request : CreateTaskRequest R
  pub spawn : SpawnPoint R

-- `EpochService`, with the table of tasks, the epochs that run, and the tasks whose context is
-- cancelled. The cancel function that it keeps is that of a task.
pub record EpochService (R : Type 0) : Type 0 where
  pub tasks : List (EvolutionTask R)
  pub active_task : Option (EvolutionTask R)
  pub cancel_fn : Option ℕ
  pub cancelled : List ℕ
  pub jobs : List (Job R)

-- `EpochResult`.
pub record EpochResult (R : Type 0) : Type 0 where
  pub best_score : R
  pub generations : ℕ
  pub challenger_id : ℕ

-- The outcome of `CreateAndRunTask`.
pub data Created (R : Type 0) : Type 0 where
  busy : Created R
  bad_spawn : Created R
  db_failed : Created R
  created : EvolutionTask R → Created R

-- The outcome of `RunEpoch`: an error's message, or a result.
pub data Ended (R : Type 0) : Type 0 where
  error : String → Ended R
  result : EpochResult R → Ended R

module _ {R : Type 0} where
  abbrev pub is_busy : Option (EvolutionTask R) → Bool
  is_busy none = false
  is_busy (some t) = is_running t.status

  -- A primary key that no task has.
  unfoldable pub next_task_id : List (EvolutionTask R) → ℕ
  next_task_id [] = 1
  next_task_id (t ∷ ts) = let n = next_task_id ts in if ltb t.id n then n else t.id + 1

  -- `CancelActiveTask`.
  unfoldable pub cancel_active_task : EpochService R → EpochService R
  cancel_active_task s = elim (s.cancel_fn) [
    | none ↦ s
    | some id ↦ record s { cancelled = id ∷ s.cancelled }
  ]

  -- `updateTask`; a failure is logged.
  unfoldable pub update_task :
      Bool → ℕ → (EvolutionTask R → EvolutionTask R) → EpochService R → EpochService R
  update_task fails id g s =
      if fails then s else record s { tasks = update_where (λ t. t.id == id) g s.tasks }

  -- The assignment to the status of the active task.
  abbrev pub with_status : TaskStatus → Option (EvolutionTask R) → Option (EvolutionTask R)
  with_status st none = none
  with_status st (some t) = some (record t { status = st })

  -- The goroutine of a task ends.
  unfoldable pub remove_job : ℕ → List (Job R) → List (Job R)
  remove_job id [] = []
  remove_job id (j ∷ js) = let rest = remove_job id js in if j.task_id == id then rest else j ∷ rest

module _ {R : Type 0} ⦃f : Float64 R⦄ where
  abbrev pub task_of : (CreateTaskRequest R → String) → ℕ → CreateTaskRequest R → EvolutionTask R
  task_of marshal id req = record {
    id = id;
    strategy_id = req.strategy_id;
    status = running;
    progress = nought;
    current_generation = 0;
    best_score = nought;
    error_msg = "";
    config = marshal req;
  }

  -- The end of `CreateAndRunTask`: the row is written, and the epoch is launched.
  unfoldable pub launch :
      (CreateTaskRequest R → String)
      → Bool
      → SpawnPoint R
      → CreateTaskRequest R
      → EpochService R
      → EpochService R × Created R
  launch marshal create_fails spawn req s =
      let task = task_of marshal (next_task_id s.tasks) req in
      if create_fails then (s, db_failed) else (
        record s {
          tasks = s.tasks ++ (task ∷ []);
          active_task = some task;
          cancel_fn = some task.id;
          jobs = s.jobs ++ (record { task_id = task.id; request = req; spawn = spawn } ∷ []);
        },
        created task,
      )

  -- `CreateAndRunTask`, on the spawn point that was resolved.
  unfoldable pub create_and_run_task :
      (CreateTaskRequest R → String)
      → Bool
      → Option (SpawnPoint R)
      → CreateTaskRequest R
      → EpochService R
      → EpochService R × Created R
  create_and_run_task marshal create_fails resolved req s =
      let ready : EpochService R × Created R = elim resolved [
        | none ↦ (s, bad_spawn)
        | some spawn ↦ launch marshal create_fails spawn (prepare_request req) s
      ] in
      if is_busy s.active_task then (s, busy) else ready

  -- The generations that the progress is measured by.
  abbrev pub planned : CreateTaskRequest R → ℤ
  planned req = if leb_ℤ req.max_generations (pos 0) then pos 25 else req.max_generations

  -- `onProgress` of an epoch: a row of the table.
  unfoldable pub on_progress : Bool → Job R → ℕ → R → EpochService R → EpochService R
  on_progress fails job gen best s =
      update_task fails job.task_id
        (λ t. record t {
          current_generation = gen + 1;
          best_score = best;
          progress = f.of_int (pos (gen + 1)) ⊘ f.of_int (planned job.request);
        })
        s

  abbrev pub fail_task : String → EvolutionTask R → EvolutionTask R
  fail_task msg t = record t { status = failed; progress = lit 1 0; error_msg = msg }

  abbrev pub finish_task : EpochResult R → EvolutionTask R → EvolutionTask R
  finish_task r t = record t {
    status = done;
    progress = lit 1 0;
    current_generation = r.generations;
    best_score = r.best_score;
  }

  abbrev pub end_status : Ended R → TaskStatus
  end_status (error msg) = failed
  end_status (result r) = done

  abbrev pub end_task : Ended R → EvolutionTask R → EvolutionTask R
  end_task (error msg) = fail_task msg
  end_task (result r) = finish_task r

  -- The rest of `runEpoch`, after `RunEpoch` returned: the row, and the active task.
  unfoldable pub finish_epoch : Bool → Job R → Ended R → EpochService R → EpochService R
  finish_epoch fails job ended s =
      let s' = update_task fails job.task_id (end_task ended) s in
      record s' {
        active_task = with_status (end_status ended) s'.active_task;
        jobs = remove_job job.task_id s'.jobs;
      }
