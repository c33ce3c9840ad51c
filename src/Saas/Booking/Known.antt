-- ===== src/Saas/Booking/Known.antt =====
-- internal/saas/instance and internal/saas/ws: the orders that the table knows, and the commands
-- that were sent for them.
use trandingnok.Base.{
  ℕ, ◌≡◌, refl, ◌∙◌, sym, inl, inr, Bool, true, false, ◌||◌, none, List, [], ◌∷◌, ◌++◌, arith,
  String, if◌then◌else◌, Bool-cases,
}
use text.Mathlib.Text.{◌==◌ as str_eq}
use trandingnok.Saas.DeltaReport.{mark}
use text.Mathlib.TextEquality.{eq_iff}
use trandingnok.Saas.Store.{SpotExecution, find_first}
use trandingnok.Saas.Dispatch.{World, TradeCommand}

-- An execution has a client order id.
abbrev pub is_known : String → List SpotExecution → Bool
is_known order [] = false
is_known order (e ∷ es) = str_eq e.client_order_id order || is_known order es

-- The commands of an order that were sent.
abbrev pub sent_of : String → List (ℕ × TradeCommand) → List (ℕ × TradeCommand)
sent_of order [] = []
sent_of order (m ∷ ms) =
    let rest = sent_of order ms in if str_eq m.1.client_order_id order then m ∷ rest else rest

pub is_known-append :
    (order : String) (es : List SpotExecution) (e : SpotExecution)
    → is_known order es ≡ true
    → is_known order (es ++ (e ∷ [])) ≡ true
is_known-append order [] e h = absurd (ground arith)
is_known-append order (x ∷ es) e h = elim (Bool-cases (str_eq x.client_order_id order)) [
  | inl own ↦ rw own refl
  | inr other ↦ rw other (is_known-append order es e (rw other at h))
]

pub sent_of-append :
    (order : String) (ms : List (ℕ × TradeCommand)) (m : ℕ × TradeCommand)
    → str_eq m.1.client_order_id order ≡ false
    → sent_of order (ms ++ (m ∷ [])) ≡ sent_of order ms
sent_of-append order [] m h = rw h refl
sent_of-append order (x ∷ ms) m h = rw (sent_of-append order ms m h) refl

-- An id that no execution has is not that of a known order.
pub is_known-fresh :
    (order fresh : String) (es : List SpotExecution)
    → find_first (λ (e : SpotExecution). str_eq e.client_order_id fresh) es ≡ none
    → is_known order es ≡ true
    → str_eq fresh order ≡ false
is_known-fresh order fresh [] free known = absurd (ground arith)
is_known-fresh order fresh (e ∷ es) free known =
    elim (Bool-cases (str_eq e.client_order_id fresh)) [
      | inl taken ↦ absurd (ground arith)
      | inr other ↦ elim (Bool-cases (str_eq e.client_order_id order)) [
        | inl own ↦ elim (Bool-cases (str_eq fresh order)) [
          | inl same ↦
              let named : e.client_order_id ≡ fresh =
                (eq_iff e.client_order_id order).0 own ∙ sym ((eq_iff fresh order).0 same) in
              let taken = (eq_iff e.client_order_id fresh).1 named in absurd (ground arith)
          | inr differs ↦ differs
        ]
        | inr not_own ↦ is_known-fresh order fresh es (rw other at free) (rw not_own at known)
      ]
    ]

pub is_known-mark :
    (order : String) (id : ℕ) (es : List SpotExecution)
    → is_known order (mark id es) ≡ is_known order es
unfolding mark
is_known-mark order id [] = refl
is_known-mark order id (e ∷ es) = ground (arith, is_known-mark order id es)

module _ {R : Type 0} where
  -- A known order stays known, and is not sent.
  abbrev pub IsQuiet : String → World R → World R → Type 0
  IsQuiet order w w' =
      is_known order w.db.executions ≡ true
      → (is_known order w'.db.executions ≡ true) × (sent_of order w'.sent ≡ sent_of order w.sent)
