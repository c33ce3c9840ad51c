-- ===== src/Saas/Lab/Challenger/Reigns.antt =====
-- From an epoch to a tick: internal/saas/ga/engine.go, internal/saas/api/handler_evolution.go and
-- internal/saas/instance/manager.go.
use trandingnok.Base.{
  ℕ, ◌+◌, ◌<◌, ◌≤◌, ◌≡◌, refl, ap, ◌∙◌, inl, inr, Bool, true, false, Option, none, some, List, [],
  ◌∷◌, ◌++◌, String, arith, if◌then◌else◌, ltb, Bool-cases, All, All-mono, All-append,
}
use trandingnok.Float.{Float64, IsOrdered}
use trandingnok.Quant.Genome.{Chromosome}
use trandingnok.Quant.Genome.Legal.{IsLegal}
use trandingnok.Quant.Crucible.{CrucibleResult}
use trandingnok.Ga.Engine.{Individual}
use trandingnok.Ga.Evolvable.Pack.{RoundTrips, decode_elite-encode_result}
use trandingnok.Saas.Store.{StrategyInstance, find_first}
use trandingnok.Saas.Load.{Feed, load_champion_params}
use trandingnok.Saas.Lab.{GeneRecord, challenger_of}
use trandingnok.Saas.Lab.Promote.{Genes, Answers, promote_challenger}
use trandingnok.Saas.Lab.Promote.Crowned.{IsOnly}
use trandingnok.Saas.Lab.Champion.{with_genes, load_champion_params-promote}
use trandingnok.Saas.Lab.Challenger.{EpochTask, next_gene_id, record_of, write_challenger}

module _ {R : Type 0} where
  pub ids-lt-next :
      (gs : List (GeneRecord R)) → All (λ (g : GeneRecord R). g.id < next_gene_id gs) gs
  unfolding next_gene_id
  ids-lt-next [] = tt
  ids-lt-next (g ∷ gs) =
      let n = next_gene_id gs in
      let up : n ≤ (if ltb g.id n then n else g.id + 1) = ground arith in
      (ground arith, All-mono gs (λ h k. omega arith) (ids-lt-next gs))

  -- A record that is added under a new key is the only one with it.
  added-IsOnly :
      (c : GeneRecord R) (gs : List (GeneRecord R))
      → c.id ≡ next_gene_id gs
      → IsOnly c (gs ++ (c ∷ []))
  added-IsOnly c gs e =
      All-append _ gs (c ∷ []) (All-mono gs (λ g k same. absurd (omega arith)) (ids-lt-next gs))
        (λ _. refl, tt)

  find_first-added :
      (p : GeneRecord R → Bool) (gs : List (GeneRecord R)) (c : GeneRecord R)
      → find_first p gs ≡ none
      → p c ≡ true
      → find_first p (gs ++ (c ∷ [])) ≡ some c
  find_first-added p [] c e h = rw h refl
  find_first-added p (g ∷ gs) c e h = elim (Bool-cases (p g)) [
    | inl hit ↦ absurd (ground arith)
    | inr miss ↦ rw miss (find_first-added p gs c (rw miss at e) h)
  ]

module _ {R : Type 0} ⦃f : Float64 R⦄ (ord : IsOrdered R) where
  -- An epoch's best gene reaches the trading: where the epoch stores its record, as the first
  -- challenger of its task, and the promotion of that task meets no failing call, the next tick of
  -- an instance of the strategy trades with exactly that gene and the spawn point that it was
  -- evolved for, for a legal gene and a codec that reads back what it wrote.
  pub load_champion_params-write_challenger :
      (marshal_scores : List (String × R) → String) (unmarshal : String → Option (GeneRecord R))
      (task : EpochTask R) (best : Individual (Chromosome R) R) (results : List (CrucibleResult R))
      (gen_done : ℕ) (s : Genes R) (feed : Feed R) (inst : StrategyInstance)
      → RoundTrips feed.codec (record { spawn_point = task.spawn; config = best.gene })
      → IsLegal best.gene
      → find_first (challenger_of task.task_id) s.records ≡ none
      → inst.template_id ≡ task.strategy_id
      → let up : Answers = record {
        find_fails = false;
        retire_fails = false;
        promote_fails = false;
        cache_fails = false;
      } in
        let stored =
          write_challenger feed.codec marshal_scores false task best results gen_done s.records in
        let s' = promote_challenger up (some task.task_id) (record s { records = stored.0 }) in
        load_champion_params (with_genes unmarshal s'.0 feed) inst ≡ some (best.gene, task.spawn)
  unfolding write_challenger promote_challenger
  load_champion_params-write_challenger marshal_scores unmarshal task best results gen_done s feed
        inst json legal fresh mine =
      let up : Answers = record {
        find_fails = false;
        retire_fails = false;
        promote_fails = false;
        cache_fails = false;
      } in
      let c = record_of feed.codec marshal_scores task (next_gene_id s.records) best results in
      let s1 : Genes R = record s { records = s.records ++ (c ∷ []) } in
      let found = find_first-added (challenger_of task.task_id) s.records c fresh (ground arith) in
      let (gene, spawn) =
        decode_elite-encode_result ord feed.codec best.gene task.spawn json legal in
      let loads =
        load_champion_params-promote unmarshal up task.task_id s1 c feed inst refl
          (rw (found, promote_challenger) refl) found (added-IsOnly c s.records refl) mine in
      loads ∙ ap (λ x. some x) (λ i. (gene i, spawn i))
