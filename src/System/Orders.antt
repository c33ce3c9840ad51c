-- ===== src/System/Orders.antt =====
-- An order that is not filled in time, up to the ledger: internal/agent and internal/saas/ws together.
use trandingnok.Base.{
  zero, suc, ℕ, ◌+◌, ◌≡◌, refl, ◌∙◌, inl, inr, true, false, ◌&&◌, some, String, Option-cases,
}
use trandingnok.Float.{Float64, nought}
use text.Mathlib.Text.{◌==◌ as str_eq}
use trandingnok.Saas.Store.{SpotExecution, PortfolioRow}
use trandingnok.Saas.DeltaReport.{StoredCommand, Call}
use trandingnok.Saas.Hub.Handler.{Session, Peer, handle_message}
use trandingnok.Saas.Hub.Replies.{act, handle_message_lem}
use trandingnok.Agent.Exchange as Exchange
use trandingnok.Agent.Exchange.{
  Command, Execution, Market, PlaceResp, OrderBody, fetch_order_info, poll, wait_for_fill,
  order_body, place_order, get_balances, zero_fill, is_stopped,
}
use trandingnok.Agent.Exchange.Fill.{has_fill}
use trandingnok.Saas.Dispatch.{TradeCommand}
use trandingnok.Agent.Client.{execute_and_report}
use trandingnok.System.Filled.{IsOpen, IsSettled, process-IsSettled}
use trandingnok.Json.{is_finite}
use trandingnok.System.Messages.{
  command_of, execution_msg, balances_msg, is_finite_execution, are_finite_balances,
  kind_of-build_delta_report,
}

module _ {R : Type 0} ⦃f : Float64 R⦄ (market : Market R) (cmd : Command) where
  -- The exchange takes the order under a number of its own.
  abbrev pub IsPlaced : String → Type 0
  IsPlaced order_id =
      (body : OrderBody) × (resp : PlaceResp) × (order_body market cmd ≡ some body)
      × (market.post_order body ≡ some resp)
      × (str_eq resp.code "00000" ≡ true)
      × (resp.order_id ≡ order_id)

  place_order-eq :
      (order_id : String)
      → IsPlaced order_id
      → place_order market cmd ≡ wait_for_fill market cmd.client_order_id order_id
  unfolding place_order
  place_order-eq order_id (body, resp, formed, posted, ok, named) =
      rw (formed, place_order, posted, ok, named) refl

  poll-missed :
      (order_id : String) (left i : ℕ)
      → ((k : ℕ) → is_stopped market k ≡ false)
      → ((k : ℕ) → has_fill market cmd.client_order_id order_id k ≡ false)
      → poll market left i cmd.client_order_id order_id
        ≡ Exchange.filled (zero_fill cmd.client_order_id)
  unfolding poll
  poll-missed order_id zero i calm missed = refl
  poll-missed order_id (suc left) i calm missed =
      let rest = poll-missed order_id left (i + 1) calm missed in
      elim (Option-cases (fetch_order_info market i cmd.client_order_id order_id)) [
        | inl bad ↦ rw (calm i, bad) rest
        | inr ((ex, done), got) ↦
            let live : done ≡ false = rw (got, has_fill) at (missed i) in
            rw (calm i, got, live) rest
      ]

module _ {R : Type 0} ⦃f : Float64 R⦄ (peer : Peer) (market : Market R) where
  -- The execution that a command ends with, as the server reads it.
  handle_message-IsSettled :
      (user_id : ℕ) (cmd : Command) (x : Execution R) (e : SpotExecution) (stored : StoredCommand)
      (p : PortfolioRow R) (s : Session R)
      → ((n : ℕ) → peer.writes n ≡ true)
      → ((c : Call) → peer.fails s.reports c ≡ false)
      → place_order market cmd ≡ Exchange.filled x
      → (is_finite_execution (some x) && are_finite_balances (get_balances market)) ≡ true
      → IsOpen peer.decode x.client_order_id e stored p s.db
      → IsSettled e stored
          (execution_msg x)
          p
          s.db
          (handle_message peer user_id (execute_and_report market cmd) s).0.db
  unfolding execute_and_report act
  handle_message-IsSettled user_id cmd x e stored p s sends ok done finite o =
      let m = execute_and_report market cmd in
      let bs = get_balances market in
      let here = handle_message_lem peer sends user_id m s in
      let what = kind_of-build_delta_report (some x) bs in
      rw (here, done, what, finite)
        (process-IsSettled peer.decode (peer.fails s.reports) user_id (execution_msg x)
          (balances_msg bs) e stored p s.db ok o)

  -- An order that the exchange takes and does not fill in time, with no wait cancelled, is booked
  -- as filled too: its execution is marked filled and a trade of quantity 0 is added, where the
  -- order is open, no call fails, and the balances that the exchange tells are finite numbers, as 0
  -- is.
  pub unfilled-IsSettled :
      (user_id : ℕ) (c : TradeCommand) (order_id : String) (e : SpotExecution)
      (stored : StoredCommand) (p : PortfolioRow R) (s : Session R)
      → ((n : ℕ) → peer.writes n ≡ true)
      → ((k : Call) → peer.fails s.reports k ≡ false)
      → IsPlaced market (command_of c) order_id
      → ((k : ℕ) → is_stopped market k ≡ false)
      → ((k : ℕ) → has_fill market c.client_order_id order_id k ≡ false)
      → is_finite {R = R} nought ≡ true
      → are_finite_balances (get_balances market) ≡ true
      → IsOpen peer.decode c.client_order_id e stored p s.db
      → let m = execute_and_report market (command_of c) in
        IsSettled e stored
          (execution_msg (zero_fill c.client_order_id))
          p
          s.db
          (handle_message peer user_id m s).0.db
  unfolding wait_for_fill
  unfilled-IsSettled user_id c order_id e stored p s sends ok placed calm missed zero_ finite o =
      let cmd = command_of c in
      let done : place_order market cmd ≡ Exchange.filled (zero_fill c.client_order_id) =
        place_order-eq market cmd order_id placed
        ∙ poll-missed market cmd order_id 6 0 calm missed in
      handle_message-IsSettled user_id cmd (zero_fill c.client_order_id) e stored p s sends ok done
        (rw (zero_, finite) refl) o
