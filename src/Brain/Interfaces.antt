-- ===== src/Brain/Interfaces.antt =====
-- brain/strategy/interfaces.py: the strategy's output, which the risk engine evaluates.
use aurexis.Base.{String, Bool, Option}
use aurexis.Decimal.{Decimal}

pub data SignalDirection : Type 0 where
  buy sell no_direction : SignalDirection

-- The texts and annotations that no modelled code reads (`market_state_summary`, `correlation_id`,
-- `expires_at`, `evidence`, `setup_type`) are left out.
pub record CandidateSignal : Type 0 where
  pub symbol : String
  pub direction : SignalDirection
  pub confidence_score : Option Decimal
  pub suggested_stop_loss : Option Decimal
  pub suggested_take_profit : Option Decimal
  pub strategy_id : String
  pub strategy_version : String
  pub is_configured : Bool
  pub entry_reference : Option Decimal
