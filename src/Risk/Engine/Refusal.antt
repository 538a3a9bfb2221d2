-- ===== src/Risk/Engine/Refusal.antt =====
-- What a check returns when it stops the evaluation: never an approval, always a state that fits.
use aurexis.Base.{String, ◌≡◌, ◌≢◌, Bool, true, false, Option, none, some, arith, or_else}
use aurexis.Decimal.{Decimal}
use aurexis.Risk.States.{RiskState, SignalDecision}
use aurexis.Risk.Config.{RiskConfig}
use aurexis.Risk.Snapshot.{AccountRiskSnapshot, MarketCondition, RiskDecision}
use aurexis.Risk.Gates.{Runtime}
use aurexis.Risk.Gates.Checks.{
  emergency_gate, configuration_gate, market_gate, news_gate, daily_loss_gate, drawdown_gate,
  profit_lock_gate, positions_gate, lots_gate,
}
use aurexis.Risk.Engine.{early_decision}

-- The states that go with each decision.
abbrev pub fits : SignalDecision → RiskState → Bool
fits SignalDecision.approved RiskState.normal = true
fits SignalDecision.blocked RiskState.caution = true
fits SignalDecision.blocked RiskState.protected = true
fits SignalDecision.blocked RiskState.stopped = true
fits SignalDecision.not_configured RiskState.not_configured = true
fits SignalDecision.emergency RiskState.emergency_stop = true
fits _ _ = false

abbrev pub IsRefusal : Option RiskDecision → Type 0
IsRefusal none = Unit {0}
IsRefusal (some d) =
    (d.decision ≢ SignalDecision.approved)
    × (fits d.decision d.risk_state ≡ true)
    × (d.authorized_lot_size ≡ none)

or_else-IsRefusal :
    (a b : Option RiskDecision) → IsRefusal a → IsRefusal b → IsRefusal (or_else a b)
or_else-IsRefusal none b h k = k
or_else-IsRefusal (some d) b h k = h

module _ (rt : Runtime) (config : RiskConfig) (cid : String) (s : AccountRiskSnapshot) where
  emergency_gate-IsRefusal : IsRefusal (emergency_gate rt config cid s)
  unfolding emergency_gate
  emergency_gate-IsRefusal = ground arith

  configuration_gate-IsRefusal : IsRefusal (configuration_gate rt config cid s)
  unfolding configuration_gate
  configuration_gate-IsRefusal = ground arith

  market_gate-IsRefusal : (m : Option MarketCondition) → IsRefusal (market_gate rt config cid s m)
  unfolding market_gate
  market_gate-IsRefusal m = ground arith

  news_gate-IsRefusal : (news : Option String) → IsRefusal (news_gate rt config cid s news)
  unfolding news_gate
  news_gate-IsRefusal news = ground arith

  daily_loss_gate-IsRefusal : IsRefusal (daily_loss_gate rt config cid s)
  unfolding daily_loss_gate
  daily_loss_gate-IsRefusal = ground arith

  drawdown_gate-IsRefusal : IsRefusal (drawdown_gate rt config cid s)
  unfolding drawdown_gate
  drawdown_gate-IsRefusal = ground arith

  profit_lock_gate-IsRefusal : IsRefusal (profit_lock_gate rt config cid s)
  unfolding profit_lock_gate
  profit_lock_gate-IsRefusal = ground arith

  positions_gate-IsRefusal : IsRefusal (positions_gate rt config cid s)
  unfolding positions_gate
  positions_gate-IsRefusal = ground arith

  pub lots_gate-IsRefusal : (lots : Option Decimal) → IsRefusal (lots_gate rt config cid s lots)
  unfolding lots_gate
  lots_gate-IsRefusal lots = ground arith

  ruleset refusals = (
    or_else-IsRefusal, emergency_gate-IsRefusal, configuration_gate-IsRefusal,
    market_gate-IsRefusal, news_gate-IsRefusal, daily_loss_gate-IsRefusal, drawdown_gate-IsRefusal,
    profit_lock_gate-IsRefusal, positions_gate-IsRefusal,
  )

pub early_decision-IsRefusal :
    (rt : Runtime) (config : RiskConfig) (s : AccountRiskSnapshot) (m : Option MarketCondition)
    (news c : Option String)
    → IsRefusal (early_decision rt config s m news c)
unfolding early_decision
early_decision-IsRefusal rt config s m news c = search refusals depth 20
