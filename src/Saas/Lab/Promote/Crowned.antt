-- ===== src/Saas/Lab/Promote/Crowned.antt =====
-- internal/saas/api/handler_evolution.go: what a promotion leaves.
use trandingnok.Base.{
  ℕ, ◌≡◌, ◌≢◌, ◌⊎◌, refl, ap, inl, inr, Bool, true, false, ◌||◌, Option, none, some, List, [], ◌∷◌,
  String, arith, ◌==◌, if◌then◌else◌, Bool-cases, Option-cases, All, map,
}
use trandingnok.Saas.Store.{find_first}
use trandingnok.Saas.Lab.{champion, retired, GeneRecord, champion_of, challenger_of, newer, newest}
use trandingnok.Saas.Lab.Promote.{
  Genes, Answers, Response, promoted, cache_get, cache_del, crown, promote_challenger,
}

cache_get-cache_del : (k : ℕ) (m : List (ℕ × String)) → cache_get k (cache_del k m) ≡ none
unfolding cache_get cache_del
cache_get-cache_del k [] = refl
cache_get-cache_del k ((j, v) ∷ m) = ground (arith, cache_get-cache_del k m)

module _ {R : Type 0} where
  -- The primary key: the only record with a record's id is that record.
  abbrev pub IsOnly : GeneRecord R → List (GeneRecord R) → Type 0
  IsOnly c = All (λ (g : GeneRecord R). g.id ≡ c.id → g ≡ c)

  -- Only a record's id belongs to a champion of its strategy.
  abbrev pub IsSoleChampion : GeneRecord R → List (GeneRecord R) → Type 0
  IsSoleChampion c = All (λ (g : GeneRecord R). champion_of c.strategy_id g ≡ true → g.id ≡ c.id)

  -- What a promotion makes of one record.
  abbrev pub crowned : GeneRecord R → GeneRecord R → GeneRecord R
  crowned c g =
      if g.id == c.id
      then record g { role = champion }
      else if champion_of c.strategy_id g
      then record g { role = retired }
      else g

  crown-eq-map : (c : GeneRecord R) (gs : List (GeneRecord R)) → crown c gs ≡ map (crowned c) gs
  unfolding crown
  crown-eq-map c [] = refl
  crown-eq-map c (g ∷ gs) =
      let rest = crown-eq-map c gs in
      elim (Bool-cases (champion_of c.strategy_id g)) [
        | inl was ↦ elim (Bool-cases (g.id == c.id)) [
          | inl same ↦ rw (was, same, rest) refl
          | inr other ↦ rw (was, other, rest) refl
        ]
        | inr never ↦ elim (Bool-cases (g.id == c.id)) [
          | inl same ↦ rw (never, same, rest) refl
          | inr other ↦ rw (never, other, rest) refl
        ]
      ]

  map-IsSoleChampion :
      (c : GeneRecord R) (gs : List (GeneRecord R)) → IsSoleChampion c (map (crowned c) gs)
  map-IsSoleChampion c [] = tt
  map-IsSoleChampion c (g ∷ gs) = (ground arith, map-IsSoleChampion c gs)

  abbrev winner : GeneRecord R → GeneRecord R
  winner c = record c { role = champion }

  crowned_self :
      (c g : GeneRecord R)
      → g ≡ c
      → (crowned c g ≡ winner c) × (champion_of c.strategy_id (winner c) ≡ true)
  crowned_self c g e = rw e (ground arith)

  crowned_other :
      (c g : GeneRecord R)
      → (g.id == c.id) ≡ false
      → champion_of c.strategy_id (crowned c g) ≡ false
  crowned_other c g other = ground arith

  -- The winner, or no champion.
  IsWinner : GeneRecord R → Option (GeneRecord R) → Type 0
  IsWinner c n = (n ≡ none) ⊎ (n ≡ some (winner c))

  newer-winner :
      (c : GeneRecord R) (n : Option (GeneRecord R)) → IsWinner c n → newer (winner c) n ≡ winner c
  unfolding IsWinner
  newer-winner c n (inl e) = rw e refl
  newer-winner c n (inr e) = rw e (ground arith)

  newest_self :
      (c g : GeneRecord R) (gs : List (GeneRecord R))
      → g ≡ c
      → IsWinner c (newest (champion_of c.strategy_id) (map (crowned c) gs))
      → newest (champion_of c.strategy_id) (map (crowned c) (g ∷ gs)) ≡ some (winner c)
  unfolding newest
  newest_self c g gs e n =
      let (now, wins) = crowned_self c g e in rw (now, wins) (ap (λ r. some r) (newer-winner c _ n))

  newest-IsWinner :
      (c : GeneRecord R) (gs : List (GeneRecord R))
      → IsOnly c gs
      → IsWinner c (newest (champion_of c.strategy_id) (map (crowned c) gs))
  unfolding newest IsWinner
  newest-IsWinner c [] only = inl refl
  newest-IsWinner c (g ∷ gs) (here, only) =
      let rest = newest-IsWinner c gs only in
      elim (Bool-cases (g.id == c.id)) [
        | inl same ↦ inr (newest_self c g gs (here (ground arith)) rest)
        | inr other ↦ rw (crowned_other c g other) rest
      ]

  rest_of :
      (c g : GeneRecord R) (gs : List (GeneRecord R)) (p : GeneRecord R → Bool)
      → (g.id == c.id) ≡ false
      → find_first p (g ∷ gs) ≡ some c
      → find_first p gs ≡ some c
  rest_of c g gs p other found = elim (Bool-cases (p g)) [
    | inl hit ↦
        let same : g ≡ c = ground arith in
        absurd (ground (arith, ap (λ (r : GeneRecord R). r.id) same))
    | inr miss ↦ rw miss at found
  ]

  -- The newest champion after a promotion is the promoted record.
  newest-crowned :
      (c : GeneRecord R) (gs : List (GeneRecord R)) (p : GeneRecord R → Bool)
      → IsOnly c gs
      → find_first p gs ≡ some c
      → newest (champion_of c.strategy_id) (map (crowned c) gs) ≡ some (winner c)
  unfolding newest
  newest-crowned c [] p only found = ground arith
  newest-crowned c (g ∷ gs) p (here, only) found = elim (Bool-cases (g.id == c.id)) [
    | inl same ↦ newest_self c g gs (here (ground arith)) (newest-IsWinner c gs only)
    | inr other ↦
        rw (crowned_other c g other) (newest-crowned c gs p only (rest_of c g gs p other found))
  ]

  -- What a response of a promotion means.
  pub data Promotion (ans : Answers) (task : Option ℕ) (s s' : Genes R) (r : Response R)
      : Type 0 where
    refused : s' ≡ s → ((id : ℕ) → r ≢ promoted id) → Promotion ans task s s' r
    done :
        (c : GeneRecord R) (task_id : ℕ)
        → task ≡ some task_id
        → find_first (challenger_of task_id) s.records ≡ some c
        → r ≡ promoted c.id
        → s'.records ≡ map (crowned c) s.records
        → IsSoleChampion c s'.records
        → newest (champion_of c.strategy_id) s'.records ≡ some (record c { role = champion })
        → (ans.cache_fails ≡ false → cache_get c.strategy_id s'.cache ≡ none)
        → Promotion ans task s s' r

  -- A promotion is refused and changes nothing, or it crowns the challenger of the task, whose
  -- primary key is its own: the champions of its strategy are retired, it is the strategy's newest
  -- and only champion, every other record stays, and a cache that answers has no entry of it.
  pub promote_challenger-Promotion :
      (ans : Answers) (task : Option ℕ) (s : Genes R)
      → ((c : GeneRecord R) (t : ℕ)
          → find_first (challenger_of t) s.records ≡ some c
          → IsOnly c s.records)
      → Promotion ans task s (promote_challenger ans task s).0 (promote_challenger ans task s).1
  unfolding promote_challenger
  promote_challenger-Promotion ans none s keys = refused refl (λ id. ground arith)
  promote_challenger-Promotion ans (some task_id) s keys = elim (Bool-cases ans.find_fails) [
    | inl bad ↦ rw bad (refused refl (λ id. ground arith))
    | inr ok ↦ elim (Option-cases (find_first (challenger_of task_id) s.records)) [
      | inl gone ↦ rw (ok, gone, promote_challenger) (refused refl (λ id. ground arith))
      | inr (c, found) ↦ elim (Bool-cases (ans.retire_fails || ans.promote_fails)) [
        | inl bad ↦ rw (ok, found, promote_challenger, bad) (refused refl (λ id. ground arith))
        | inr good ↦
            let rows = crown-eq-map c s.records in
            rw (ok, found, promote_challenger, good)
              (done c task_id refl found refl rows (rw rows (map-IsSoleChampion c s.records))
                (rw rows
                  (newest-crowned c s.records (challenger_of task_id) (keys c task_id found) found))
                (λ up. rw up (cache_get-cache_del c.strategy_id s.cache)))
      ]
    ]
  ]

  -- The records and the cache after a promotion of a known challenger that the cache followed.
  pub promote_challenger_done :
      (ans : Answers) (task_id : ℕ) (s : Genes R) (c : GeneRecord R)
      → find_first (challenger_of task_id) s.records ≡ some c
      → IsOnly c s.records
      → ans.cache_fails ≡ false
      → (promote_challenger ans (some task_id) s).1 ≡ promoted c.id
      → let s' = (promote_challenger ans (some task_id) s).0 in
        (newest (champion_of c.strategy_id) s'.records ≡ some (record c { role = champion }))
        × (cache_get c.strategy_id s'.cache ≡ none)
  unfolding promote_challenger
  promote_challenger_done ans task_id s c found only up ok = elim (Bool-cases ans.find_fails) [
    | inl bad ↦ absurd (ground arith)
    | inr known ↦ elim (Bool-cases (ans.retire_fails || ans.promote_fails)) [
      | inl bad ↦ absurd (ground arith)
      | inr good ↦
          rw (known, found, promote_challenger, good, up)
            (
              rw (crown-eq-map c s.records)
                  (newest-crowned c s.records (challenger_of task_id) only found),
              cache_get-cache_del c.strategy_id s.cache,
            )
    ]
  ]
