-- ===== src/Agent/Client/Backoff.antt =====
-- internal/agent/ws/client.go: the waits between two sessions.
use trandingnok.Base.{
  ℕ, suc, ◌*◌, ◌^◌, ◌≡◌, refl, inl, inr, List, [], ◌∷◌, arith, ltb, if◌then◌else◌, Bool-cases,
}
use native.Mathlib.Numerals.{unary_clauses}
use trandingnok.Agent.Client.{
  Turn, cancelled_before, cancelled_after, cancelled_waiting, waited, next_backoff, run_waits,
}

-- 2 ^ n seconds, at most five minutes.
abbrev pub backoff_at : ℕ → ℕ
backoff_at n = if ltb 300 (2 ^ n) then 300 else 2 ^ n

next_backoff-backoff_at : (n : ℕ) → next_backoff (backoff_at n) ≡ backoff_at (suc n)
unfolding next_backoff
next_backoff-backoff_at n =
    let double : 2 ^ suc n ≡ 2 ^ n * 2 = simp unary_clauses refl in
    rw double
      (elim (Bool-cases (ltb 300 (2 ^ n))) [ inl over ↦ ground arith | inr under ↦ ground arith ])

-- The waits from the n-th on.
abbrev pub AreDoubling : ℕ → List ℕ → Type 0
AreDoubling n [] = Unit
AreDoubling n (w ∷ ws) = (w ≡ backoff_at n) × AreDoubling (suc n) ws

run_waits-from : (n b : ℕ) (ts : List Turn) → b ≡ backoff_at n → AreDoubling n (run_waits b ts)
unfolding run_waits
run_waits-from n b [] e = tt
run_waits-from n b (waited ∷ ts) e =
    let next : next_backoff b ≡ backoff_at (suc n) = rw e (next_backoff-backoff_at n) in
    (e, run_waits-from (suc n) (next_backoff b) ts next)
run_waits-from n b (cancelled_waiting ∷ ts) e = (e, tt)
run_waits-from n b (cancelled_before ∷ ts) e = tt
run_waits-from n b (cancelled_after ∷ ts) e = tt

-- In every run of the reconnect loop the n-th wait, from 0 on, is the lesser of 2 ^ n seconds and
-- five minutes.
pub run_waits-AreDoubling : (ts : List Turn) → AreDoubling 0 (run_waits 1 ts)
run_waits-AreDoubling ts = run_waits-from 0 1 ts refl
