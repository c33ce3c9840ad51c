-- ===== src/Saas/Lifecycle/Moves.antt =====
-- internal/saas/instance/manager.go: the state machine of an instance.
use trandingnok.Base.{
  ℕ, ◌≡◌, refl, ap, ◌≢◌, inl, inr, Bool, true, false, none, List, [], ◌∷◌, arith, Bool-cases,
  Option-cases,
}
use trandingnok.Saas.Store.{
  Status, running, stopped, errored, deleted, eqb_status, StrategyInstance, find_first,
  update_where,
}
use trandingnok.Saas.Lifecycle.{
  with_id, in_status, done, change_status, Op, start, stop, delete, mark_error, apply_op, run_ops,
}

-- The transitions that the package's comment draws.
pub data Moves : Status → Status → Type 0 where
  keeps : (s : Status) → Moves s s
  starts : Moves stopped running
  stops : Moves running stopped
  breaks : Moves running errored
  goes : (s : Status) → Moves s deleted

-- Two lists of rows, row by row.
abbrev pub Rows :
    (StrategyInstance → StrategyInstance → Type 0)
    → List StrategyInstance
    → List StrategyInstance
    → Type 0
Rows P [] [] = Unit
Rows P (i ∷ is) (j ∷ js) = P i j × Rows P is js
Rows P _ _ = ⊥

-- The same instance, after at most one transition.
abbrev pub Step : StrategyInstance → StrategyInstance → Type 0
Step i j = (j.id ≡ i.id) × (j.user_id ≡ i.user_id) × Moves i.status j.status

Rows-refl : (is : List StrategyInstance) → Rows Step is is
Rows-refl [] = tt
Rows-refl (i ∷ is) = ((refl, refl, keeps i.status), Rows-refl is)

update_where-Rows :
    (p : StrategyInstance → Bool) (to : Status) (is : List StrategyInstance)
    → ((i : StrategyInstance) → p i ≡ true → Moves i.status to)
    → Rows Step is (update_where p (λ i. record i { status = to }) is)
update_where-Rows p to [] h = tt
update_where-Rows p to (i ∷ is) h = elim (Bool-cases (p i)) [
  | inl hit ↦ rw hit ((refl, refl, h i hit), update_where-Rows p to is h)
  | inr miss ↦ rw miss ((refl, refl, keeps i.status), update_where-Rows p to is h)
]

pub eqb_status_eq : (s t : Status) → eqb_status s t ≡ true → s ≡ t
eqb_status_eq s t h = ground arith

change_status-Rows :
    (fails : Bool) (id : ℕ) (from to : Status) (is : List StrategyInstance)
    → Moves from to
    → Rows Step is (change_status fails id from to is).0
unfolding change_status
change_status-Rows true id from to is m = Rows-refl is
change_status-Rows false id from to is m =
    update_where-Rows (in_status id from) to is
      (λ i h. let e : i.status ≡ from = eqb_status_eq i.status from (ground arith) in rw e m)

update_where-none :
    (p : StrategyInstance → Bool) (to : Status) (is : List StrategyInstance)
    → find_first p is ≡ none
    → update_where p (λ i. record i { status = to }) is ≡ is
update_where-none p to [] h = refl
update_where-none p to (i ∷ is) h = elim (Bool-cases (p i)) [
  | inl hit ↦ absurd (ground arith)
  | inr miss ↦ rw miss (ap (◌∷◌ i) (update_where-none p to is (rw miss at h)))
]

change_status_error :
    (fails : Bool) (id : ℕ) (from to : Status) (is : List StrategyInstance)
    → (change_status fails id from to is).1 ≢ done
    → (change_status fails id from to is).0 ≡ is
unfolding change_status
change_status_error true id from to is h = refl
change_status_error false id from to is h =
    elim (Option-cases (find_first (in_status id from) is)) [
      | inl gone ↦ update_where-none (in_status id from) to is gone
      | inr (i, found) ↦ absurd (h (ground arith))
    ]

-- Every call leaves the instances in order, with their ids and owners, and each either keeps its
-- status or makes one of the drawn transitions. A call that reports an error, because the database
-- failed or the instance was not in the state asked for, changes nothing.
pub apply_op-Rows :
    (o : Op) (is : List StrategyInstance)
    → Rows Step is (apply_op o is).0 × ((apply_op o is).1 ≢ done → (apply_op o is).0 ≡ is)
unfolding apply_op
apply_op-Rows (start fails id) is = (
  change_status-Rows fails id stopped running is starts,
  change_status_error fails id stopped running is,
)
apply_op-Rows (stop fails id) is = (
  change_status-Rows fails id running stopped is stops,
  change_status_error fails id running stopped is,
)
apply_op-Rows (delete true id) is = (Rows-refl is, λ h. refl)
apply_op-Rows (delete false id) is =
    (update_where-Rows (with_id id) deleted is (λ i h. goes i.status), λ h. absurd (h refl))
apply_op-Rows (mark_error fails id) is =
    (change_status-Rows fails id running errored is breaks, λ h. absurd (h refl))

-- An instance that has failed or was deleted.
abbrev pub is_dead : Status → Bool
is_dead errored = true
is_dead deleted = true
is_dead _ = false

abbrev pub StaysDead : StrategyInstance → StrategyInstance → Type 0
StaysDead i j = is_dead i.status ≡ true → is_dead j.status ≡ true

Moves-dead : (s t : Status) → Moves s t → is_dead s ≡ true → is_dead t ≡ true
Moves-dead _ _ (keeps s) h = h
Moves-dead _ _ starts h = absurd (ground arith)
Moves-dead _ _ stops h = absurd (ground arith)
Moves-dead _ _ breaks h = refl
Moves-dead _ _ (goes s) h = refl

Rows-chain :
    (is js ks : List StrategyInstance)
    → Rows Step is js
    → Rows StaysDead js ks
    → Rows StaysDead is ks
Rows-chain [] [] [] m n = tt
Rows-chain (i ∷ is) (j ∷ js) (k ∷ ks) (m, ms) (n, ns) =
    (λ h. n (Moves-dead i.status j.status m.2 h), Rows-chain is js ks ms ns)
Rows-chain _ _ _ m n = ground arith

Rows-dead : (is : List StrategyInstance) → Rows StaysDead is is
Rows-dead [] = tt
Rows-dead (i ∷ is) = (λ h. h, Rows-dead is)

-- Over any sequence of calls, failing or not, an instance that is in ERROR or DELETED is in one of
-- the two at the end: no call starts it again.
pub run_ops-StaysDead :
    (os : List Op) (is : List StrategyInstance) → Rows StaysDead is (run_ops os is)
unfolding run_ops
run_ops-StaysDead [] is = Rows-dead is
run_ops-StaysDead (o ∷ os) is =
    Rows-chain is (apply_op o is).0 _ (apply_op-Rows o is).0
      (run_ops-StaysDead os (apply_op o is).0)
