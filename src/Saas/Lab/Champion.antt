-- ===== src/Saas/Lab/Champion.antt =====
-- internal/saas/instance/manager.go: the champion that a tick reads from the cache and the gene
-- records, with the handlers of internal/saas/api/handler_evolution.go before it.
use trandingnok.Base.{
  ℕ, inl, inr, ◌≢◌, ◌≡◌, refl, ap, Bool, true, false, Option, none, some, List, [], ◌∷◌, String,
  arith, if◌then◌else◌, Bool-cases, Option-cases,
}
use text.Mathlib.Text.{◌==◌ as str_eq}
use trandingnok.Float.{Float64}
use trandingnok.Saas.Store.{StrategyInstance, find_first}
use trandingnok.Saas.Store.First.{find_first_lem}
use trandingnok.Saas.Load.{
  Lookup, query_error, not_found, champion, Feed, decode_pack, load_champion_params,
}
use trandingnok.Saas.Lab as Lab
use trandingnok.Saas.Lab.{
  Role, is_champion, is_challenger, GeneRecord, champion_of, challenger_of, newest,
}
use trandingnok.Saas.Lab.Promote.{
  Genes, Answers, promoted, champion_is, cache_get, cache_set, cached, promote_challenger,
  stored_champion, write_cache,
}
use trandingnok.Saas.Lab.Promote.Crowned.{IsOnly, promote_challenger_done}

module _ {R : Type 0} where
  abbrev pub pack_of : Option (GeneRecord R) → Option String
  pack_of none = none
  pack_of (some g) = some g.param_pack

  -- The lookup in the database.
  unfoldable pub stored_pack : Bool → ℕ → Genes R → Lookup
  stored_pack fails id s =
      let row : Lookup = elim (newest (champion_of id) s.records) [
        | none ↦ not_found
        | some g ↦ champion g.param_pack
      ] in
      if fails then query_error else row

  -- A tick that reads these gene records and this cache, both of which answer.
  abbrev pub with_genes : (String → Option (GeneRecord R)) → Genes R → Feed R → Feed R
  with_genes unmarshal s feed = record feed {
    cached_champion = λ id. pack_of (cached unmarshal false id s);
    stored_champion = λ id. stored_pack false id s;
  }

module _ {R : Type 0} ⦃f : Float64 R⦄ (unmarshal : String → Option (GeneRecord R)) where
  stored_pack-eq :
      (s : Genes R) (g : GeneRecord R) (id : ℕ)
      → newest (champion_of id) s.records ≡ some g
      → stored_pack false id s ≡ champion g.param_pack
  unfolding stored_pack
  stored_pack-eq s g id best = rw best refl

  cached-miss :
      (s : Genes R) (id : ℕ) → cache_get id s.cache ≡ none → cached unmarshal false id s ≡ none
  unfolding cached
  cached-miss s id miss = rw miss refl

  load-stored :
      (feed : Feed R) (inst : StrategyInstance) (pack : String)
      → feed.cached_champion inst.template_id ≡ none
      → feed.stored_champion inst.template_id ≡ champion pack
      → load_champion_params feed inst ≡ some (decode_pack feed.codec pack)
  unfolding load_champion_params
  load-stored feed inst pack miss row = rw (miss, load_champion_params, row) refl

  load-miss :
      (s : Genes R) (g : GeneRecord R) (id : ℕ) (feed : Feed R) (inst : StrategyInstance)
      → inst.template_id ≡ id
      → cache_get id s.cache ≡ none
      → newest (champion_of id) s.records ≡ some g
      → load_champion_params (with_genes unmarshal s feed) inst
        ≡ some (decode_pack feed.codec g.param_pack)
  load-miss s g id feed inst mine miss best =
      load-stored (with_genes unmarshal s feed) inst g.param_pack
        (rw mine (ap pack_of (cached-miss s id miss))) (rw mine (stored_pack-eq s g id best))

  load-hit :
      (s : Genes R) (g : GeneRecord R) (raw : String) (id : ℕ) (feed : Feed R)
      (inst : StrategyInstance)
      → inst.template_id ≡ id
      → cache_get id s.cache ≡ some raw
      → str_eq raw "" ≡ false
      → unmarshal raw ≡ some g
      → load_champion_params (with_genes unmarshal s feed) inst
        ≡ some (decode_pack feed.codec g.param_pack)
  unfolding load_champion_params cached
  load-hit s g raw id feed inst mine hit full read =
      rw (mine, hit, load_champion_params, cached, full, read) refl

  -- After a promotion that the cache followed, the next tick of an instance of the challenger's
  -- strategy reads the challenger's parameters, whatever was cached before.
  pub load_champion_params-promote :
      (ans : Answers) (task_id : ℕ) (s : Genes R) (c : GeneRecord R) (feed : Feed R)
      (inst : StrategyInstance)
      → ans.cache_fails ≡ false
      → (promote_challenger ans (some task_id) s).1 ≡ promoted c.id
      → find_first (challenger_of task_id) s.records ≡ some c
      → IsOnly c s.records
      → inst.template_id ≡ c.strategy_id
      → load_champion_params
          (with_genes unmarshal (promote_challenger ans (some task_id) s).0 feed)
          inst
        ≡ some (decode_pack feed.codec c.param_pack)
  load_champion_params-promote ans task_id s c feed inst up ok found only mine =
      let (best, miss) = promote_challenger_done ans task_id s c found only up ok in
      load-miss (promote_challenger ans (some task_id) s).0 (record c { role = Lab.champion })
        c.strategy_id feed inst mine miss best

  cache_get-cache_set :
      (k : ℕ) (v : String) (m : List (ℕ × String)) → cache_get k (cache_set k v m) ≡ some v
  unfolding cache_get cache_set
  cache_get-cache_set k v m = ground arith

  find_first_holds :
      (p : GeneRecord R → Bool) (gs : List (GeneRecord R)) (g : GeneRecord R)
      → find_first p gs ≡ some g
      → p g ≡ true
  find_first_holds p gs g e = (find_first_lem p (λ x. x) gs g e).0

  apart :
      (old c : GeneRecord R)
      → old ≡ c
      → is_champion old.role ≡ true
      → is_challenger c.role ≡ true
      → ⊥
  apart old c e reigns ruled = ground (arith, ap (λ (g : GeneRecord R). g.role) e)

  newest-holds :
      (p : GeneRecord R → Bool) (gs : List (GeneRecord R)) (g : GeneRecord R)
      → newest p gs ≡ some g
      → p g ≡ true
  unfolding newest
  newest-holds p [] g e = ground arith
  newest-holds p (h ∷ gs) g e = elim (Bool-cases (p h)) [
    | inl hit ↦ elim (Option-cases (newest p gs)) [
      | inl last ↦ ground arith
      | inr (k, rest) ↦ ground (arith, newest-holds p gs k)
    ]
    | inr miss ↦ newest-holds p gs g (rw miss at e)
  ]

  -- A `GetChampion` that misses the cache and finds the old champion in the database, is overtaken
  -- by a promotion, and then writes what it found, hides the promotion: the old champion is not the
  -- challenger, the newest champion is, and a tick still reads the old parameters from the cache,
  -- where the codec reads back what it wrote.
  pub load_champion_params-stale :
      (marshal : GeneRecord R → String) (ans ans' : Answers) (task_id : ℕ) (s : Genes R)
      (old c : GeneRecord R) (feed : Feed R) (inst : StrategyInstance)
      → unmarshal (marshal old) ≡ some old
      → str_eq (marshal old) "" ≡ false
      → stored_champion ans c.strategy_id s ≡ champion_is old
      → ans'.cache_fails ≡ false
      → (promote_challenger ans' (some task_id) s).1 ≡ promoted c.id
      → find_first (challenger_of task_id) s.records ≡ some c
      → IsOnly c s.records
      → inst.template_id ≡ c.strategy_id
      → let s' = (promote_challenger ans' (some task_id) s).0 in
        let s'' = write_cache marshal false c.strategy_id old s' in
        (old ≢ c)
        × (newest (champion_of c.strategy_id) s''.records ≡ some (record c { role = Lab.champion }))
        × (load_champion_params (with_genes unmarshal s'' feed) inst
            ≡ some (decode_pack feed.codec old.param_pack))
  unfolding write_cache stored_champion
  load_champion_params-stale marshal ans ans' task_id s old c feed inst back full was up ok found
        only mine =
      let s' = (promote_challenger ans' (some task_id) s).0 in
      let (best, miss) = promote_challenger_done ans' task_id s c found only up ok in
      let s'' : Genes R = record s' { cache = cache_set c.strategy_id (marshal old) s'.cache } in
      let hit = cache_get-cache_set c.strategy_id (marshal old) s'.cache in
      let first : newest (champion_of c.strategy_id) s.records ≡ some old = ground arith in
      let reigns = newest-holds (champion_of c.strategy_id) s.records old first in
      let ruled = find_first_holds (challenger_of task_id) s.records c found in
      (
        λ e. apart old c e (ground arith) (ground arith),
        best,
        load-hit s'' old (marshal old) c.strategy_id feed inst mine hit full back,
      )
