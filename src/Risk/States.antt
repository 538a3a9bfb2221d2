-- ===== src/Risk/States.antt =====
-- backend/risk/states.py: the operational states, the decisions, and what each state permits.
use aurexis.Base.{Bool, true, false}

pub data RiskState : Type 0 where
  not_configured normal caution protected stopped emergency_stop : RiskState

pub data SignalDecision : Type 0 where
  approved blocked not_configured emergency : SignalDecision

-- Membership in `TRADING_ALLOWED_STATES`.
unfoldable pub trading_allowed_in : RiskState → Bool
trading_allowed_in normal = true
trading_allowed_in _ = false

-- Membership in `POSITION_MANAGEMENT_ALLOWED_STATES`.
unfoldable pub position_management_allowed_in : RiskState → Bool
position_management_allowed_in normal = true
position_management_allowed_in caution = true
position_management_allowed_in protected = true
position_management_allowed_in _ = false
