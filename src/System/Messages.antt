-- ===== src/System/Messages.antt =====
-- What one side writes is what the other side reads.
use trandingnok.Base.{
  ◌≡◌, refl, ◌⊎◌, inl, inr, Bool, true, false, ◌&&◌, if◌then◌else◌, Option, none, some, List, [],
  ◌∷◌, arith, map, Bool-cases,
}
use trandingnok.Float.{Float64}
use trandingnok.Json.{
  Json, Items, num, str, obj, end, field, nil, cons, items, items_of, is_finite, write_num,
}
use trandingnok.Ga.Engine.{◌>>=◌}
use trandingnok.Saas.DeltaReport.{ExecutionMsg, BalanceMsg, DeltaReport}
use trandingnok.Saas.Dispatch.{TradeCommand}
use trandingnok.Saas.Dispatch.Envelope.{action_text, engine_text, lot_type_text}
use trandingnok.Saas.Hub.Handler.{
  read_execution, read_balance, read_pointer, read_report, read_inbound as hub_read_inbound,
}
use trandingnok.Saas.Hub.Replies.{report, ignored, kind_of}
use trandingnok.Agent.Exchange.{Command, Execution, Balance}
use trandingnok.Agent.Client.{write_execution, write_balance, build_delta_report}

-- A command as the agent sees it.
abbrev pub command_of : TradeCommand → Command
command_of c = record {
  client_order_id = c.client_order_id;
  action = action_text c.action;
  engine = engine_text c.engine;
  symbol = c.symbol;
  amount_usdt = c.amount_usdt;
  qty_asset = c.qty_asset;
  lot_type = lot_type_text c.lot_type;
}

-- An execution and a balance as the server sees them.
module _ {R : Type 0} where
  abbrev pub execution_msg : Execution R → ExecutionMsg R
  execution_msg e = record {
    client_order_id = e.client_order_id;
    filled_qty = e.filled_qty;
    filled_price = e.filled_price;
    fee = e.fee;
  }

  abbrev pub balance_msg : Balance R → BalanceMsg R
  balance_msg b = record { asset = b.asset; available = b.available; frozen = b.frozen }

  abbrev pub balances_msg : Option (List (Balance R)) → List (BalanceMsg R)
  balances_msg none = []
  balances_msg (some bs) = map balance_msg bs

  abbrev pub pointer_msg : Option (Execution R) → Option (ExecutionMsg R)
  pointer_msg none = none
  pointer_msg (some e) = some (execution_msg e)

  abbrev pub delta_report : Option (Execution R) → Option (List (Balance R)) → DeltaReport R
  delta_report exec balances = record {
    execution = pointer_msg exec;
    balances = balances_msg balances;
  }

module _ {R : Type 0} ⦃f : Float64 R⦄ where
  abbrev pub is_finite_execution : Option (Execution R) → Bool
  is_finite_execution none = true
  is_finite_execution (some e) =
      is_finite e.filled_qty && is_finite e.filled_price && is_finite e.fee

  abbrev pub are_finite : List (Balance R) → Bool
  are_finite [] = true
  are_finite (b ∷ bs) = is_finite b.available && is_finite b.frozen && are_finite bs

  abbrev pub are_finite_balances : Option (List (Balance R)) → Bool
  are_finite_balances none = true
  are_finite_balances (some bs) = are_finite bs

  -- What a writer and a reader make of a value together: the value read, or no message.
  abbrev IsExchanged : {A : Type 0} → Bool → Option (Json R) → (Json R → Option A) → A → Type 0
  IsExchanged ok written read x =
      ((ok ≡ true) × (v : Json R) × (written ≡ some v) × (read v ≡ some x))
      ⊎ (ok ≡ false) × (written ≡ none)

  abbrev execution_object : Execution R → Json R
  execution_object e = obj (
      field "client_order_id" (str e.client_order_id) (
        field "filled_qty" (num e.filled_qty)
          (field "filled_price" (num e.filled_price) (field "fee" (num e.fee) end))))

  read-write_execution :
      (e : Execution R)
      → ((is_finite_execution (some e) ≡ true) × (write_execution e ≡ some (execution_object e)))
        ⊎ (is_finite_execution (some e) ≡ false) × (write_execution e ≡ none)
  unfolding write_execution write_num
  read-write_execution e = elim (Bool-cases (is_finite e.filled_qty)) [
    | inr bad ↦ rw bad (inr (refl, refl))
    | inl qty ↦ elim (Bool-cases (is_finite e.filled_price)) [
      | inr bad ↦ rw (qty, bad) (inr (refl, refl))
      | inl price ↦ elim (Bool-cases (is_finite e.fee)) [
        | inr bad ↦ rw (qty, price, bad) (inr (refl, refl))
        | inl fee ↦ rw (qty, price, fee) (inl (refl, refl))
      ]
    ]
  ]

  read-write_balance :
      (b : Balance R)
      → IsExchanged
          (is_finite b.available && is_finite b.frozen)
          (write_balance b)
          read_balance
          (balance_msg b)
  unfolding write_balance write_num read_balance
  read-write_balance b = elim (Bool-cases (is_finite b.available)) [
    | inr bad ↦ rw bad (inr (refl, refl))
    | inl available ↦ elim (Bool-cases (is_finite b.frozen)) [
      | inr bad ↦ rw (available, bad) (inr (refl, refl))
      | inl frozen ↦ rw (available, frozen) (inl (refl, _, refl, refl))
    ]
  ]

  items_of-items :
      (bs : List (Balance R))
      → ((are_finite bs ≡ true)
          × (vs : Items R) × (items write_balance bs ≡ some vs)
          × (items_of read_balance vs ≡ some (map balance_msg bs)))
        ⊎ (are_finite bs ≡ false) × (items write_balance bs ≡ none)
  items_of-items [] = inl (refl, nil, refl, refl)
  items_of-items (b ∷ bs) = elim (read-write_balance b) [
    | inr (bad, lost) ↦ inr (ground arith, rw (lost, items) refl)
    | inl (ok, v, written, read) ↦ elim (items_of-items bs) [
      | inr (bad, lost) ↦ inr (ground arith, rw (written, items, lost) refl)
      | inl (oks, vs, all_, reads) ↦
          inl (
            ground arith,
            cons v vs,
            rw (written, items, all_) refl,
            rw (read, items_of, reads) refl,
          )
    ]
  ]

  -- The server reads a report that the agent sends as the agent meant it, if every number in it is
  -- finite; if one is not, the agent sends an empty message, which the server ignores.
  pub kind_of-build_delta_report :
      (exec : Option (Execution R)) (balances : Option (List (Balance R)))
      → kind_of (build_delta_report exec balances) ≡ (
          if is_finite_execution exec && are_finite_balances balances
          then report (delta_report exec balances)
          else ignored)
  unfolding kind_of build_delta_report hub_read_inbound read_report read_pointer read_execution
  kind_of-build_delta_report none none = refl
  kind_of-build_delta_report none (some bs) = elim (items_of-items bs) [
    | inr (bad, lost) ↦ rw (bad, lost) refl
    | inl (ok, vs, written, read) ↦ rw (ok, written, ◌>>=◌, read) refl
  ]
  kind_of-build_delta_report (some e) none = elim (read-write_execution e) [
    | inr (bad, lost) ↦ rw (bad, lost) refl
    | inl (ok, written) ↦ rw (ok, written, ◌>>=◌) refl
  ]
  kind_of-build_delta_report (some e) (some bs) = elim (read-write_execution e) [
    | inr (bad, lost) ↦ rw (bad, lost) refl
    | inl (ok, written) ↦ elim (items_of-items bs) [
      | inr (bad, lost) ↦ rw (ok, bad, written, lost, ◌>>=◌) refl
      | inl (fine, vs, all_, read) ↦ rw (ok, fine, written, all_, ◌>>=◌, read) refl
    ]
  ]
