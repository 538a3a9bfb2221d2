-- ===== src/Execution/Reports.antt =====
-- backend/execution/reports.py: what the broker side reports. `ExecutionReport.__init__` takes two
-- names for three of its fields (`fill_volume_lots`, `commission_broker`, `swap_broker`) and for its
-- time; the model has its arguments as a record. The broker's raw response is left out.
use aurexis.Base.{ℕ, String, Bool, Option, ℤ}
use aurexis.Decimal.{Decimal}
use aurexis.Execution.Commands.{OrderType}

pub data ExecutionStatus : Type 0 where
  filled partially_filled rejected expired error : ExecutionStatus

pub record PositionReport : Type 0 where
  pub account_id : String
  pub broker_ticket : ℕ
  pub symbol : String
  pub side : OrderType
  pub lots : Decimal
  pub open_price : Decimal
  pub current_price : Decimal
  pub stop_loss : Option Decimal
  pub take_profit : Option Decimal
  pub unrealized_pnl_broker : Decimal
  pub commission_broker : Decimal
  pub swap_broker : Decimal
  pub magic_number : ℕ
  pub reported_at : ℕ

pub record ExecutionReport : Type 0 where
  pub command_id : String
  pub account_id : String
  pub report_id : String
  pub correlation_id : String
  pub status : ExecutionStatus
  pub broker_ticket : Option ℕ
  pub broker_deal_id : Option ℕ
  pub fill_price : Option Decimal
  pub filled_volume_lots : Option Decimal
  pub slippage_points : Option ℤ
  pub commission_usd : Option Decimal
  pub swap_usd : Option Decimal
  pub broker_error_code : Option ℤ
  pub broker_error_message : Option String
  pub reported_at : ℕ
  pub is_simulated : Bool
