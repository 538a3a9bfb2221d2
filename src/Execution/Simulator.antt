-- ===== src/Execution/Simulator.antt =====
-- backend/execution/simulator.py: the simulated broker. The clock is an argument; logging and the raw
-- broker response are left out.
pub mod Book
use aurexis.Base.{
  ℕ, suc, ◌+◌, String, Bool, true, false, not, Option, none, some, List, [], ◌∷◌, ◌==◌,
  if◌then◌else◌, pos, Dict, lookup, insert, erase, ℕ_key, is_some, map, magnitude,
}
use Prim.Native.String.{◌++◌ as join}
use aurexis.Decimal.{value_or, Decimal, dec}
use aurexis.Execution.Commands.{
  CommandAction, order_open, order_close, basket_close, position_modify, OrderType, buy, sell,
  ExecutionCommand, is_expired,
}
use aurexis.Execution.Reports.{ExecutionReport, ExecutionStatus, PositionReport}

pub record Simulator : Type 0 where
  pub simulated_bid : Decimal
  pub simulated_ask : Decimal
  pub ticket_counter : ℕ
  pub positions : Dict ℕ PositionReport

-- `MT5AgentSimulator(bid, ask)`
abbrev pub new_simulator : Decimal → Decimal → Simulator
new_simulator bid ask = record {
  simulated_bid = bid;
  simulated_ask = ask;
  ticket_counter = 1000000;
  positions = [];
}

-- `_next_ticket`, and `get_open_positions`.
unfoldable pub next_ticket : Simulator → ℕ × Simulator
next_ticket s = (s.ticket_counter + 1, record s { ticket_counter = s.ticket_counter + 1 })

unfoldable pub get_open_positions : Simulator → List PositionReport
get_open_positions s = map (λ e. e.1) s.positions

abbrev pub base_report : ℕ → ExecutionCommand → ExecutionStatus → ExecutionReport
base_report now c status = record {
  command_id = c.command_id;
  account_id = c.account_id;
  report_id = join "rep_" c.command_id;
  correlation_id = "";
  status = status;
  broker_ticket = none;
  broker_deal_id = none;
  fill_price = none;
  filled_volume_lots = none;
  slippage_points = some (pos 0);
  commission_usd = none;
  swap_usd = none;
  broker_error_code = none;
  broker_error_message = none;
  reported_at = now;
  is_simulated = true;
}

abbrev pub opened_position : ℕ → ExecutionCommand → ℕ → Decimal → PositionReport
opened_position now c ticket fill_price = record {
  account_id = c.account_id;
  broker_ticket = ticket;
  symbol = c.symbol;
  side = c.order_type;
  lots = c.volume_lots;
  open_price = fill_price;
  current_price = fill_price;
  stop_loss = c.stop_loss;
  take_profit = c.take_profit;
  unrealized_pnl_broker = dec 0 2;
  commission_broker = dec 0 2;
  swap_broker = dec 0 2;
  magic_number = c.magic_number;
  reported_at = now;
}

abbrev pub market_side : Simulator → OrderType → Decimal
market_side s buy = s.simulated_ask
market_side s sell = s.simulated_bid

-- ORDER_OPEN
unfoldable pub open_order :
    ℕ → ExecutionCommand → Option Decimal → Simulator → ExecutionReport × Simulator
unfolding next_ticket
open_order now c market_price s =
    let fill_price = value_or market_price (market_side s c.order_type) in
    let (ticket, s') = next_ticket s in
    (
      record (base_report now c ExecutionStatus.filled) {
        broker_ticket = some ticket;
        filled_volume_lots = some c.volume_lots;
        fill_price = some fill_price;
        commission_usd = some (dec 0 2);
        swap_usd = some (dec 0 2);
      },
      record s' {
        positions = insert ticket (opened_position now c ticket fill_price) s'.positions;
      },
    )

-- `if target_ticket and target_ticket in self._positions: del self._positions[target_ticket]`
abbrev pub drop_position : Option ℕ → Dict ℕ PositionReport → Dict ℕ PositionReport
drop_position none positions = positions
drop_position (some ticket) positions = if ticket == 0 then positions else erase ticket positions

-- ORDER_CLOSE and BASKET_CLOSE
unfoldable pub close_order :
    ℕ → ExecutionCommand → Option Decimal → Simulator → ExecutionReport × Simulator
close_order now c market_price s = (
  record (base_report now c ExecutionStatus.filled) {
    broker_ticket = c.position_ticket;
    filled_volume_lots = some c.volume_lots;
    fill_price = some (value_or market_price s.simulated_bid);
  },
  record s { positions = drop_position c.position_ticket s.positions },
)

unfoldable pub dispatch :
    CommandAction → ℕ → ExecutionCommand → Option Decimal → Simulator → ExecutionReport × Simulator
dispatch order_open now c market_price s = open_order now c market_price s
dispatch order_close now c market_price s = close_order now c market_price s
dispatch basket_close now c market_price s = close_order now c market_price s
dispatch position_modify now c market_price s = (base_report now c ExecutionStatus.rejected, s)

unfoldable pub execute_command :
    ℕ → ExecutionCommand → Option Decimal → Simulator → ExecutionReport × Simulator
execute_command now c market_price s =
    if is_expired now c
    then (base_report now c ExecutionStatus.expired, s)
    else dispatch c.action now c market_price s
