-- ===== src/Agent/Exchange/Fill.antt =====
-- internal/agent/exchange/bitget.go: what the wait for a fill returns.
use trandingnok.Base.{
  ℕ, zero, suc, ◌+◌, ◌≤◌, ◌<◌, ◌≡◌, refl, inl, inr, Bool, true, false, none, some, arith, String,
  Bool-cases, Option-cases,
}
use native.Mathlib.Decide.{dec_lt}
use trandingnok.Float.{Float64}
use trandingnok.Agent.Exchange.{
  Execution, Market, Placed, filled, failed, zero_fill, fetch_order_info, is_stopped, poll,
  wait_for_fill,
}

module _ {R : Type 0} ⦃f : Float64 R⦄ (market : Market R) (client_oid order_id : String) where
  -- The i-th query finds a fill.
  abbrev pub has_fill : ℕ → Bool
  has_fill i = elim (fetch_order_info market i client_oid order_id) [
    | none ↦ false
    | some (ex, done) ↦ done
  ]

  -- From the i-th query to before the j-th, none finds a fill and no wait is cancelled.
  abbrev pub IsQuiet : ℕ → ℕ → Type 0
  IsQuiet i j = (k : ℕ) → i ≤ k → k < j → (is_stopped market k ≡ false) × (has_fill k ≡ false)

  -- A wait is cancelled first, a query finds a fill first, or neither happens.
  pub data Outcome (i j : ℕ) (r : Placed R) : Type 0 where
    stopped :
        (k : ℕ)
        → i ≤ k
        → k < j
        → IsQuiet i k
        → is_stopped market k ≡ true
        → r ≡ failed
        → Outcome i j r
    found :
        (k : ℕ) (ex : Execution R)
        → i ≤ k
        → k < j
        → IsQuiet i k
        → is_stopped market k ≡ false
        → fetch_order_info market k client_oid order_id ≡ some (ex, true)
        → r ≡ filled ex
        → Outcome i j r
    given_up : IsQuiet i j → r ≡ filled (zero_fill client_oid) → Outcome i j r

  IsQuiet-later :
      (i j : ℕ) → is_stopped market i ≡ false → has_fill i ≡ false → IsQuiet (i + 1) j → IsQuiet i j
  IsQuiet-later i j calm miss rest k from to = elim (dec_lt i k) [
    | yes later ↦ rest k (omega arith) to
    | no now ↦ let here : i ≡ k = omega arith in rw (← here) (calm, miss)
  ]

  Outcome-later :
      (i j : ℕ) (r : Placed R)
      → is_stopped market i ≡ false
      → has_fill i ≡ false
      → Outcome (i + 1) j r
      → Outcome i j r
  Outcome-later i j r calm miss (stopped k from to quiet s e) =
      stopped k (omega arith) to (IsQuiet-later i k calm miss quiet) s e
  Outcome-later i j r calm miss (found k ex from to quiet s x e) =
      found k ex (omega arith) to (IsQuiet-later i k calm miss quiet) s x e
  Outcome-later i j r calm miss (given_up quiet e) = given_up (IsQuiet-later i j calm miss quiet) e

  none_before : (i : ℕ) → IsQuiet i i
  none_before i k from to = absurd (omega arith)

  poll-Outcome : (left i : ℕ) → Outcome i (i + left) (poll market left i client_oid order_id)
  unfolding poll
  poll-Outcome zero i = given_up (λ k from to. absurd (omega arith)) refl
  poll-Outcome (suc left) i =
      let r = poll market left (i + 1) client_oid order_id in
      let one_more : i + 1 + left ≡ i + suc left = omega arith in
      let later : Outcome (i + 1) (i + suc left) r = rw one_more at (poll-Outcome left (i + 1)) in
      let last : i < i + suc left = omega arith in
      elim (Bool-cases (is_stopped market i)) [
        | inl halt ↦ rw halt (stopped i (omega arith) last (none_before i) halt refl)
        | inr calm ↦ elim (Option-cases (fetch_order_info market i client_oid order_id)) [
          | inl bad ↦
              let miss : has_fill i ≡ false = rw (bad, has_fill) refl in
              rw (calm, bad) (Outcome-later i (i + suc left) r calm miss later)
          | inr ((ex, done), got) ↦ elim (Bool-cases done) [
            | inl full ↦
                let fill : fetch_order_info market i client_oid order_id ≡ some (ex, true) =
                  rw full at got in
                rw (calm, fill) (found i ex (omega arith) last (none_before i) calm fill refl)
            | inr live ↦
                let miss : has_fill i ≡ false = rw (got, has_fill) live in
                rw (calm, got, live) (Outcome-later i (i + suc left) r calm miss later)
          ]
        ]
      ]

  -- The wait for a fill ends in one of three ways, by what comes first in at most six queries: a
  -- cancelled wait is an error, a query that finds a fill gives that fill, and without either the
  -- result is no error but an execution of the order with nothing filled.
  pub wait_for_fill-Outcome : Outcome 0 6 (wait_for_fill market client_oid order_id)
  unfolding wait_for_fill
  wait_for_fill-Outcome = poll-Outcome 6 0
