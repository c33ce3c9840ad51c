-- ===== src/Examples/Labs.antt =====
-- Runs of the evolution's service and handlers.
use trandingnok.Base.{
  arith, ◌≡◌, ◌≢◌, refl, false, Option, some, none, List, [], ◌∷◌, String, pos, ◌-ℤ◌, arith,
}
use trandingnok.Float.Fixed.{Fixed, Fixed-IsOrdered, fixed_float}
use trandingnok.Float.{nought}
use trandingnok.Examples.Sample.{dec, spawn}
use trandingnok.Examples.Genes.{seed, codec}
use trandingnok.Examples.Server.{instance_7, feed}
use trandingnok.Quant.Genome.{Chromosome}
use trandingnok.Ga.Engine.{Individual}
use trandingnok.Ga.Evolvable.{parse_pack}
use trandingnok.Saas.Load.{Feed, decode_pack, load_champion_params}
use trandingnok.Saas.Lab.{challenger, champion, GeneRecord, champion_of, newest}
use trandingnok.Saas.Lab.Promote.{Genes, Answers, promote_challenger, stored_champion, write_cache}
use trandingnok.Saas.Lab.Promote.Crowned.{Promotion, IsOnly, promote_challenger-Promotion}
use trandingnok.Saas.Lab.Champion.{with_genes, load_champion_params-stale}
use trandingnok.Saas.Lab.Spawn.{CreateTaskRequest, prepare_request}
use trandingnok.Saas.Lab.Service.{Job, create_and_run_task, next_task_id, launch, task_of}
use trandingnok.Saas.Lab.Service.Single.{
  Event, request, cancel, progress, new_service, step, run_events, IsSingle, run_events-IsSingle,
}
use trandingnok.Saas.Lab.Tasks.{list_tasks}
use trandingnok.Saas.Lab.Tasks.Shown.{Reached, list_tasks-stale}
use trandingnok.Saas.Lab.Challenger.{EpochTask, write_challenger}
use trandingnok.Saas.Lab.Challenger.Reigns.{load_champion_params-write_challenger}

abbrev old : GeneRecord Fixed
old = record {
  id = 1;
  created_at = pos 5;
  strategy_id = 1;
  task_id = 3;
  role = champion;
  param_pack = "old";
  score_total = dec 1;
  max_drawdown = dec 0;
  window_scores = "{}";
}

abbrev new : GeneRecord Fixed
new = record old { id = 2; task_id = 4; role = challenger; param_pack = "new" }

abbrev genes : Genes Fixed
genes = record { records = old ∷ new ∷ []; cache = [] }

abbrev up : Answers
up = record { find_fails = false; retire_fails = false; promote_fails = false; cache_fails = false }

new-IsOnly : IsOnly new genes.records
new-IsOnly = (λ e. absurd (omega arith), (λ e. refl, tt))

promote_challenger-Promotion_example :
    Promotion up
      (some 4)
      genes
      (promote_challenger up (some 4) genes).0
      (promote_challenger up (some 4) genes).1
promote_challenger-Promotion_example =
    promote_challenger-Promotion up (some 4) genes (λ c t e. ground arith)

-- A cached text stands for the old champion.
abbrev unmarshal : String → Option (GeneRecord Fixed)
unmarshal raw = some old

load_champion_params-stale_example :
    let s' = (promote_challenger up (some 4) genes).0 in
    let s'' = write_cache (λ g. "old") false 1 old s' in
    (old ≢ new)
    × (newest (champion_of 1) s''.records ≡ some (record new { role = champion }))
    × (load_champion_params (with_genes unmarshal s'' feed) instance_7
        ≡ some (decode_pack feed.codec "old"))
unfolding promote_challenger stored_champion newest
load_champion_params-stale_example =
    load_champion_params-stale unmarshal (λ g. "old") up up 4 genes old new feed instance_7 refl
      refl refl refl refl refl new-IsOnly refl

abbrev wish : CreateTaskRequest Fixed
wish = record {
  strategy_id = 1;
  symbol = "BTCUSDT";
  interval = "1h";
  pop_size = pos 10;
  max_generations = pos 3;
  spawn_mode = "inherit";
  spawn_point = none;
  test_mode = false;
  lot_step = dec 1;
  lot_min = dec 1;
}

abbrev marshal : CreateTaskRequest Fixed → String
marshal req = "{}"

abbrev history : List (Event Fixed)
history =
    request false (some spawn) wish
    ∷ request false (some spawn) wish
    ∷ progress false 1 0 (dec 7)
    ∷ cancel
    ∷ []

run_events-IsSingle_example : IsSingle marshal (run_events marshal history new_service)
run_events-IsSingle_example = run_events-IsSingle marshal history

abbrev job : Job Fixed
job = record { task_id = 1; request = wish; spawn = spawn }

abbrev begun : List (Event Fixed)
begun = request false (some spawn) wish ∷ []

list_tasks-stale_example :
    let s' = step marshal (progress false 1 0 (dec 7)) (run_events marshal begun new_service) in
    Reached marshal 1 1 (dec 7) s'.tasks
    × ((list_tasks (λ raw. []) false genes.records s').progress
        ≡ some (0, nought, (task_of marshal 1 wish).status))
unfolding step run_events create_and_run_task launch prepare_request next_task_id
list_tasks-stale_example =
    list_tasks-stale marshal (λ raw. []) false genes.records begun 1 0 (dec 7) job
      (task_of marshal 1 wish) refl refl

abbrev best : Individual (Chromosome Fixed) Fixed
best = record { gene = seed; fitness = dec 3 }

abbrev goal : EpochTask Fixed
goal = record { strategy_id = 1; task_id = 9; spawn = spawn; now_ms = pos 8 }

abbrev fed : Feed Fixed
fed = record feed { codec = codec }

load_champion_params-write_challenger_example :
    let after = write_challenger codec (λ m. "{}") false goal best [] 25 genes.records in
    let s' = promote_challenger up (some 9) (record genes { records = after.0 }) in
    load_champion_params (with_genes unmarshal s'.0 fed) instance_7 ≡ some (seed, spawn)
unfolding ◌-ℤ◌ parse_pack
load_champion_params-write_challenger_example =
    load_champion_params-write_challenger Fixed-IsOrdered (λ m. "{}") unmarshal goal best [] 25
      genes fed instance_7 (record { parsed = refl; nonempty = refl })
      ((refl, refl), (refl, refl), (refl, refl)) refl refl
