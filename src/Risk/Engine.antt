-- ===== src/Risk/Engine.antt =====
-- `RiskEngine` of backend/risk/engine.py: the sizing policy in force, and `evaluate`, which runs the
-- gates of `Gates` in the code's order. Logging is left out.
pub mod Permission
mod Refusal
pub mod Approval
pub mod Entry
use aurexis.Base.{Option, none, some, String, or_else}
use aurexis.Decimal.{Decimal, Checked, ok, ◌>>=◌}
use aurexis.Brain.Interfaces.{CandidateSignal}
use aurexis.Risk.Config.{RiskConfig}
use aurexis.Risk.Sizing.{
  PositionSizingPolicy, percentage_equity, fixed_lot, percentage_policy, calculate_lot_size,
}
use aurexis.Risk.Snapshot.{AccountRiskSnapshot, MarketCondition, RiskDecision}
use aurexis.Risk.Gates.{Runtime, correlation}
use aurexis.Risk.Gates.Checks.{
  emergency_gate, configuration_gate, market_gate, news_gate, daily_loss_gate, drawdown_gate,
  profit_lock_gate, positions_gate, lots_gate, approval,
}

-- `_get_sizing_policy`, given the policy of the constructor.
unfoldable pub sizing_policy :
    RiskConfig → Option PositionSizingPolicy → Option PositionSizingPolicy
sizing_policy config (some policy) = some policy
sizing_policy config none = elim config.risk_per_trade_pct [
  | some pct ↦ some (percentage_equity (percentage_policy pct))
  | none ↦ elim config.default_position_size_lots [
    | some lots ↦ some (fixed_lot lots)
    | none ↦ none
  ]
]

-- 9. What the policy gives for the signal, before the fallback.
abbrev signal_lots :
    Option PositionSizingPolicy → Option CandidateSignal → Decimal → Checked (Option Decimal)
signal_lots (some policy) (some signal) equity =
    calculate_lot_size policy equity signal.entry_reference signal.suggested_stop_loss
signal_lots (some policy) none equity = ok none
signal_lots none _ equity = ok none

unfoldable pub authorized_lots :
    RiskConfig
    → Option PositionSizingPolicy
    → Option CandidateSignal
    → Decimal
    → Checked (Option Decimal)
unfolding sizing_policy
authorized_lots config policy signal equity = do
  lots ← signal_lots (sizing_policy config policy) signal equity
  ok (or_else lots config.default_position_size_lots)

abbrev returned_or {ℓ} : {A : Type ℓ} {B : Type 0} → Option B → (B → A) → A → A
returned_or none f next = next
returned_or (some d) f next = f d

-- Checks 1 to 8, in order: the first that returns decides.
unfoldable pub early_decision :
    Runtime
    → RiskConfig
    → AccountRiskSnapshot
    → Option MarketCondition
    → Option String
    → Option String
    → Option RiskDecision
early_decision rt config snapshot market news_state correlation_id =
    let cid = correlation rt correlation_id in
    or_else (emergency_gate rt config cid snapshot) (
      or_else (configuration_gate rt config cid snapshot) (
        or_else (market_gate rt config cid snapshot market) (
          or_else (news_gate rt config cid snapshot news_state) (
            or_else (daily_loss_gate rt config cid snapshot) (
              or_else (drawdown_gate rt config cid snapshot) (
                or_else (profit_lock_gate rt config cid snapshot)
                  (positions_gate rt config cid snapshot)))))))

-- Checks 9 and 10, and the approval.
unfoldable pub late_decision :
    Runtime
    → RiskConfig
    → Option PositionSizingPolicy
    → AccountRiskSnapshot
    → Option CandidateSignal
    → Option String
    → Checked RiskDecision
late_decision rt config policy snapshot signal correlation_id = do
  lots ← authorized_lots config policy signal snapshot.current_equity_usd
  let cid = correlation rt correlation_id
  returned_or (lots_gate rt config cid snapshot lots) ok (ok (approval rt config cid snapshot lots))

unfoldable pub evaluate :
    Runtime
    → RiskConfig
    → Option PositionSizingPolicy
    → AccountRiskSnapshot
    → Option CandidateSignal
    → Option MarketCondition
    → Option String
    → Option String
    → Checked RiskDecision
evaluate rt config policy snapshot signal market news_state correlation_id =
    returned_or (early_decision rt config snapshot market news_state correlation_id) ok
      (late_decision rt config policy snapshot signal correlation_id)
