-- ===== src/Saas/Lab/Tasks.antt =====
-- internal/saas/api/handler_evolution.go: CreateTask and ListTasks.
pub mod Shown
use trandingnok.Base.{
  ℕ, Bool, false, Option, none, some, List, [], ◌∷◌, String, map, if◌then◌else◌, ℤ, ltb_ℤ,
}
use trandingnok.Float.{Float64}
use trandingnok.Saas.Lab.{TaskStatus, is_running, is_challenger, GeneRecord}
use trandingnok.Ga.Random.{Rand}
use trandingnok.Ga.Evolvable.{Codec}
use trandingnok.Saas.Lab.Spawn.{CreateTaskRequest, resolve_spawn_point}
use trandingnok.Saas.Lab.Service.{
  EpochService, Created, busy, bad_spawn, db_failed, created, create_and_run_task,
}

-- `challengerItem`; the scores of the windows are parsed from their text, an empty map if that
-- fails.
pub record ChallengerItem (R : Type 0) : Type 0 where
  pub id : ℕ
  pub created_at : ℤ
  pub score_total : R
  pub max_drawdown : R
  pub window_scores : List (String × R)

-- The response of `ListTasks`: the challengers, whether a task runs, and of an active task the
-- generation, the best score so far and the status.
pub record TasksResponse (R : Type 0) : Type 0 where
  pub challengers : List (ChallengerItem R)
  pub is_active : Bool
  pub progress : Option (ℕ × R × TaskStatus)

module _ {R : Type 0} where
  -- `Order("created_at desc")`.
  unfoldable pub insert_newest : GeneRecord R → List (GeneRecord R) → List (GeneRecord R)
  insert_newest g [] = g ∷ []
  insert_newest g (h ∷ hs) =
      let rest = insert_newest g hs in
      if ltb_ℤ g.created_at h.created_at then h ∷ rest else g ∷ h ∷ hs

  unfoldable pub newest_challengers : List (GeneRecord R) → List (GeneRecord R)
  newest_challengers [] = []
  newest_challengers (g ∷ gs) =
      let rest = newest_challengers gs in
      if is_challenger g.role then insert_newest g rest else rest

  abbrev pub item_of : (String → List (String × R)) → GeneRecord R → ChallengerItem R
  item_of parse g = record {
    id = g.id;
    created_at = g.created_at;
    score_total = g.score_total;
    max_drawdown = g.max_drawdown;
    window_scores = parse g.window_scores;
  }

  -- `ListTasks`; a query that fails finds no challengers.
  unfoldable pub list_tasks :
      (String → List (String × R)) → Bool → List (GeneRecord R) → EpochService R → TasksResponse R
  list_tasks parse fails genes s = record {
    challengers = map (item_of parse) (if fails then [] else newest_challengers genes);
    is_active = elim (s.active_task) [ none ↦ false | some t ↦ is_running t.status ];
    progress = elim (s.active_task) [
      | none ↦ none
      | some t ↦ some (t.current_generation, t.best_score, t.status)
    ];
  }

  -- The HTTP status of `CreateTask`; the message of a conflict begins with "another".
  abbrev pub create_status : Created R → ℕ
  create_status busy = 409
  create_status bad_spawn = 500
  create_status db_failed = 500
  create_status (created t) = 201

module _ {R : Type 0} ⦃f : Float64 R⦄ where
  -- `CreateTask`; a body that does not parse is none. The database answers the query for the
  -- champion and the creation of the row.
  unfoldable pub create_task :
      {G : Type 0}
      → (CreateTaskRequest R → String)
      → Codec R
      → Rand G R
      → G
      → Bool
      → Bool
      → List (GeneRecord R)
      → Option (CreateTaskRequest R)
      → EpochService R
      → EpochService R × ℕ
  create_task marshal codec rnd g query_fails create_fails genes none s = (s, 400)
  create_task marshal codec rnd g query_fails create_fails genes (some req) s =
      let spawn = resolve_spawn_point codec rnd g query_fails genes req in
      let (s', outcome) = create_and_run_task marshal create_fails spawn req s in
      (s', create_status outcome)
