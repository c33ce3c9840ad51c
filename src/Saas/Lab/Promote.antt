-- ===== src/Saas/Lab/Promote.antt =====
-- internal/saas/api/handler_evolution.go: promotion of a challenger, and the champion's cache.
pub mod Crowned
use trandingnok.Base.{ℕ, Bool, ◌||◌, Option, none, some, List, [], ◌∷◌, String, ◌==◌, if◌then◌else◌}
use text.Mathlib.Text.{◌==◌ as str_eq}
use trandingnok.Saas.Store.{find_first, update_where}
use trandingnok.Saas.Lab.{champion, retired, GeneRecord, champion_of, challenger_of, newest}

-- The gene records, and the cache: the texts under the keys of the strategies.
pub record Genes (R : Type 0) : Type 0 where
  pub records : List (GeneRecord R)
  pub cache : List (ℕ × String)

-- `Get`, `Del` and `Set` of the cache.
unfoldable pub cache_get : ℕ → List (ℕ × String) → Option String
cache_get k [] = none
cache_get k ((j, v) ∷ m) = if j == k then some v else cache_get k m

unfoldable pub cache_del : ℕ → List (ℕ × String) → List (ℕ × String)
cache_del k [] = []
cache_del k ((j, v) ∷ m) = let rest = cache_del k m in if j == k then rest else (j, v) ∷ rest

unfoldable pub cache_set : ℕ → String → List (ℕ × String) → List (ℕ × String)
cache_set k v m = (k, v) ∷ cache_del k m

-- The answers of the database and of the cache to the calls of a handler.
pub record Answers : Type 0 where
  pub find_fails : Bool
  pub retire_fails : Bool
  pub promote_fails : Bool
  pub cache_fails : Bool

-- What a handler responds: the HTTP status, with the champion's id or record where there is one.
pub data Response (R : Type 0) : Type 0 where
  bad_request : Response R
  not_found : Response R
  server_error : Response R
  promoted : ℕ → Response R
  champion_is : GeneRecord R → Response R

module _ {R : Type 0} where
  -- The two updates of the transaction, the second by the primary key.
  unfoldable pub crown : GeneRecord R → List (GeneRecord R) → List (GeneRecord R)
  crown c gs =
      update_where (λ g. g.id == c.id) (λ g. record g { role = champion })
        (update_where (champion_of c.strategy_id) (λ g. record g { role = retired }) gs)

  -- `PromoteChallenger`; the id of the task is none where it is no number.
  unfoldable pub promote_challenger : Answers → Option ℕ → Genes R → Genes R × Response R
  promote_challenger ans none s = (s, bad_request)
  promote_challenger ans (some task_id) s =
      let found : Genes R × Response R = elim (find_first (challenger_of task_id) s.records) [
        | none ↦ (s, not_found)
        | some c ↦ if ans.retire_fails || ans.promote_fails then (s, server_error) else (
          record {
            records = crown c s.records;
            cache = if ans.cache_fails then s.cache else cache_del c.strategy_id s.cache;
          },
          promoted c.id,
        )
      ] in
      if ans.find_fails then (s, server_error) else found

  -- A cached record; an empty text and one that does not parse are a miss.
  unfoldable pub cached :
      (String → Option (GeneRecord R)) → Bool → ℕ → Genes R → Option (GeneRecord R)
  cached unmarshal fails id s =
      let hit : Option (GeneRecord R) = elim (cache_get id s.cache) [
        | none ↦ none
        | some raw ↦ if str_eq raw "" then none else unmarshal raw
      ] in
      if fails then none else hit

  -- The database's part of `GetChampion`.
  unfoldable pub stored_champion : Answers → ℕ → Genes R → Response R
  stored_champion ans id s =
      let row : Response R = elim (newest (champion_of id) s.records) [
        | none ↦ not_found
        | some g ↦ champion_is g
      ] in
      if ans.find_fails then server_error else row

  -- The write to the cache after a miss.
  unfoldable pub write_cache : (GeneRecord R → String) → Bool → ℕ → GeneRecord R → Genes R → Genes R
  write_cache marshal fails id g s =
      if fails then s else record s { cache = cache_set id (marshal g) s.cache }

  abbrev pub remember :
      (GeneRecord R → String) → Bool → ℕ → Response R → Genes R → Genes R × Response R
  remember marshal fails id (champion_is g) s = (write_cache marshal fails id g s, champion_is g)
  remember marshal fails id r s = (s, r)

  -- `GetChampion`: the cache, then the database, whose answer is written to the cache. The id of
  -- the strategy is none where it is no number; `set_fails` is the cache's answer to the write.
  unfoldable pub get_champion :
      (String → Option (GeneRecord R))
      → (GeneRecord R → String)
      → Answers
      → Bool
      → Option ℕ
      → Genes R
      → Genes R × Response R
  get_champion unmarshal marshal ans set_fails none s = (s, bad_request)
  get_champion unmarshal marshal ans set_fails (some id) s =
      let known : Genes R × Response R = elim (cached unmarshal ans.cache_fails id s) [
        | none ↦ remember marshal set_fails id (stored_champion ans id s) s
        | some g ↦ (s, champion_is g)
      ] in
      if id == 0 then (s, bad_request) else known
