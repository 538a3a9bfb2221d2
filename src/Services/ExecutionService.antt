-- ===== src/Services/ExecutionService.antt =====
-- `ExecutionService` of backend/services/execution_service.py, over the database and the simulated
-- broker. Fresh ids and the readings of the clock are arguments. The direction of a signal is one of
-- the texts of `SignalDirection`, as the pipeline stores it. Logging and payloads are left out.
pub mod Operations
pub mod AgentResults
pub mod Permission
pub mod Repeats
pub mod Sync
pub mod Fills
pub mod Clean
pub mod Tickets
pub mod RoundTrip
use aurexis.Base.{
  ℕ, ◌+◌, String, Bool, true, false, Option, none, some, List, [], ◌∷◌, ◌++◌, ◌==◌, str_eq,
  if◌then◌else◌, pos, any, Dict, insert, ℕ_key,
}
use Prim.Native.String.{◌++◌ as join}
use aurexis.Decimal.{value_or, Decimal, dec, dec_zero, leb_dec}
use aurexis.Brain.Interfaces.{SignalDirection}
use aurexis.Risk.Snapshot.{RiskDecision}
use aurexis.Execution.Commands.{
  OrderType, buy, sell, CommandAction, CommandState, ExecutionCommand, transition_to,
}
use aurexis.Execution.Reports.{ExecutionStatus, ExecutionReport}
use aurexis.Execution.Reconciliation.{ServerPosition, Positions, side_text}
use aurexis.Execution.Simulator.{Simulator}
use aurexis.Services.Database.{
  CommandRow, ReportRow, PositionRow, opened, is_opened, SignalRow, Database,
}

-- What one call takes from its surroundings: `uuid.uuid4()` twice, and the clock where the command
-- is made, where it is marked as sent, and where the broker works.
pub record Dispatch : Type 0 where
  pub command_id : String
  pub fresh_correlation_id : String
  pub created_at : ℕ
  pub sent_at : ℕ
  pub broker_at : ℕ

-- The arguments of the call.
pub record Request : Type 0 where
  pub account_id : String
  pub signal : SignalRow
  pub decision : RiskDecision
  pub current_price : Option Decimal
  pub correlation_id : Option String
  pub idempotency_key : Option String

pub record World : Type 0 where
  pub db : Database
  pub simulator : Simulator

-- `None`; the error of a unique constraint at the commit; or the row of the report.
pub data Outcome : Type 0 where
  refused constraint_violated : Outcome
  reported : ReportRow → Outcome

-- `a or b`, where an empty text is false.
abbrev pub text_or : Option String → String → String
text_or none b = b
text_or (some a) b = if str_eq a "" then b else a

-- `"BUY" if "BUY" in dir_str.upper() else "SELL"`
abbrev pub order_type_of : SignalDirection → OrderType
order_type_of SignalDirection.buy = buy
order_type_of SignalDirection.sell = sell
order_type_of SignalDirection.no_direction = sell

-- `if not decision.authorized_lot_size or decision.authorized_lot_size <= Decimal("0")`
abbrev positive : Option Decimal → Option Decimal
positive none = none
positive (some lots) = if leb_dec lots dec_zero then none else some lots

unfoldable pub dispatched_lots : RiskDecision → Option Decimal
dispatched_lots decision = positive decision.authorized_lot_size

-- `idempotency_key or f"cmd_{account_id}_{cmd_id}"`
abbrev pub command_key : Dispatch → Request → String
command_key d q =
    text_or q.idempotency_key (join "cmd_" (join q.account_id (join "_" d.command_id)))

abbrev pub has_key : String → CommandRow → Bool
has_key key row = str_eq row.idempotency_key key

unfoldable pub key_exists : String → Database → Bool
key_exists key db = any (has_key key) db.commands

-- `timedelta(seconds=5)`
abbrev pub command_lifetime : ℕ
command_lifetime = 5000000

abbrev pub default_price : Decimal
default_price = dec 200000 2

-- `mem_command`
unfoldable pub new_command : Dispatch → Request → Decimal → ExecutionCommand
new_command d q lots = record {
  command_id = d.command_id;
  account_id = q.account_id;
  action = CommandAction.order_open;
  symbol = q.signal.symbol;
  order_type = order_type_of q.signal.direction;
  volume_lots = lots;
  price = value_or q.current_price default_price;
  slippage_points = pos 20;
  idempotency_key = command_key d q;
  correlation_id =
      text_or q.correlation_id (text_or (some q.decision.correlation_id) d.fresh_correlation_id);
  state = CommandState.created;
  signal_id = none;
  stop_loss = q.signal.suggested_stop_loss;
  take_profit = q.signal.suggested_take_profit;
  magic_number = 202609;
  position_ticket = none;
  created_at = d.created_at;
  expires_at = d.created_at + command_lifetime;
  sent_at = none;
  acknowledged_at = none;
  fill_price = none;
  fill_volume_lots = none;
  broker_ticket = none;
  rejection_reason = none;
}

-- The transitions of `mem_command` after the report, and the status of the row.
abbrev pub path_of : ExecutionStatus → List CommandState
path_of ExecutionStatus.filled =
    CommandState.acknowledged ∷ CommandState.executing ∷ CommandState.filled ∷ []
path_of ExecutionStatus.expired = CommandState.expired ∷ []
path_of _ = CommandState.rejected ∷ []

abbrev pub row_state : ExecutionStatus → CommandState
row_state ExecutionStatus.filled = CommandState.filled
row_state ExecutionStatus.expired = CommandState.expired
row_state _ = CommandState.rejected

unfoldable pub follow : ℕ → List CommandState → ExecutionCommand → ExecutionCommand
unfolding transition_to
follow now [] c = c
follow now (s ∷ states) c = follow now states (transition_to now c s none).0

unfoldable pub command_row : Dispatch → Request → ExecutionCommand → ExecutionStatus → CommandRow
command_row d q c status = record {
  id = d.command_id;
  account_id = c.account_id;
  signal_id = some q.signal.id;
  correlation_id = c.correlation_id;
  idempotency_key = c.idempotency_key;
  action = c.action;
  symbol = c.symbol;
  order_type = side_text c.order_type;
  volume_lots = c.volume_lots;
  price = q.current_price;
  stop_loss = c.stop_loss;
  take_profit = c.take_profit;
  status = row_state status;
  expires_at = c.expires_at;
  sent_at = some d.sent_at;
}

abbrev pub status_text : ExecutionStatus → String
status_text ExecutionStatus.filled = "FILLED"
status_text ExecutionStatus.partially_filled = "PARTIALLY_FILLED"
status_text ExecutionStatus.rejected = "REJECTED"
status_text ExecutionStatus.expired = "EXPIRED"
status_text ExecutionStatus.error = "ERROR"

unfoldable pub report_row : Request → ExecutionCommand → ExecutionReport → ReportRow
report_row q c r = record {
  account_id = c.account_id;
  command_id = some c.command_id;
  correlation_id = some c.correlation_id;
  idempotency_key = q.idempotency_key;
  broker_ticket = r.broker_ticket;
  broker_deal_id = r.broker_deal_id;
  status = status_text r.status;
  fill_volume_lots = r.filled_volume_lots;
  fill_price = r.fill_price;
  slippage_points = r.slippage_points;
  commission_usd = r.commission_usd;
  swap_usd = r.swap_usd;
  broker_error_code = r.broker_error_code;
  broker_error_message = r.broker_error_message;
  executed_at = r.reported_at;
}

unfoldable pub position_row : Request → ExecutionCommand → ExecutionReport → ℕ → PositionRow
position_row q c r ticket = record {
  account_id = c.account_id;
  command_id = some c.command_id;
  broker_ticket = ticket;
  symbol = c.symbol;
  side = side_text c.order_type;
  lots = value_or r.filled_volume_lots c.volume_lots;
  open_price = value_or r.fill_price (value_or q.current_price default_price);
  stop_loss = c.stop_loss;
  take_profit = c.take_profit;
  current_price = r.fill_price;
  unrealized_pnl_usd = dec 0 2;
  commission_usd = value_or r.commission_usd (dec 0 2);
  swap_usd = value_or r.swap_usd (dec 0 2);
  status = opened;
  opened_at = r.reported_at;
  closed_at = none;
  close_price = none;
}

-- `report.status in (ExecutionStatus.FILLED, "FILLED") and report.broker_ticket`
abbrev filled_ticket : ExecutionStatus → Option ℕ → Option ℕ
filled_ticket ExecutionStatus.filled (some ticket) = if ticket == 0 then none else some ticket
filled_ticket _ _ = none

unfoldable pub opened_ticket : ExecutionReport → Option ℕ
opened_ticket r = filled_ticket r.status r.broker_ticket
