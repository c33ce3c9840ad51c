-- ===== src/Saas/Store/First.antt =====
-- internal/saas/store/models.go: the first row that a query takes, after an update or a new row.
use trandingnok.Base.{
  ℕ, ◌≡◌, ◌≢◌, refl, ap, inl, inr, Bool, true, false, some, List, [], ◌∷◌, ◌++◌, arith, ◌==◌,
  if◌then◌else◌, Bool-cases,
}
use trandingnok.Saas.Store.{find_first, update_where}

-- The first row that qualifies does, and after an update that keeps rows qualified it is updated.
pub find_first_lem :
    {A : Type 0} (p : A → Bool) (g : A → A) (xs : List A) (a : A)
    → find_first p xs ≡ some a
    → (p a ≡ true)
      × (((x : A) → p x ≡ true → p (g x) ≡ true) → find_first p (update_where p g xs) ≡ some (g a))
find_first_lem p g [] a e = absurd (ground arith)
find_first_lem p g (x ∷ xs) a e = elim (Bool-cases (p x)) [
  | inl hit ↦
      let same : x ≡ a = ground arith in
      (rw (← same) hit, λ keep. rw hit (rw (keep x hit) (ap (λ y. some (g y)) same)))
  | inr miss ↦
      let (holds, moved) = find_first_lem p g xs a (rw miss at e) in
      (holds, λ keep. rw miss (rw miss (moved keep)))
]

-- An update of other rows, and a new row that does not qualify, leave the first row that does.
pub find_first-update_where :
    {A : Type 0} (q p : A → Bool) (g : A → A) (xs : List A)
    → ((x : A) → p x ≡ true → q x ≡ false)
    → ((x : A) → p x ≡ true → q (g x) ≡ false)
    → find_first q (update_where p g xs) ≡ find_first q xs
find_first-update_where q p g [] before after = refl
find_first-update_where q p g (x ∷ xs) before after = elim (Bool-cases (p x)) [
  | inl hit ↦ rw (hit, before x hit, after x hit) (find_first-update_where q p g xs before after)
  | inr miss ↦
      rw miss (ap (λ r. if q x then some x else r) (find_first-update_where q p g xs before after))
]

pub find_first-append :
    {A : Type 0} (q : A → Bool) (xs : List A) (y : A)
    → q y ≡ false
    → find_first q (xs ++ (y ∷ [])) ≡ find_first q xs
find_first-append q [] y e = ground arith
find_first-append q (x ∷ xs) y e = ap (λ r. if q x then some x else r) (find_first-append q xs y e)

pub eqb_other : (id other n : ℕ) → other ≢ id → (n == id) ≡ true → (n == other) ≡ false
eqb_other id other n differs h = ground arith
