-- ===== src/Risk/Gates/Checks.antt =====
-- The numbered checks of `RiskEngine.evaluate` (backend/risk/engine.py), each of which may return
-- early: a gate gives the decision that the code returns there, or `none` to go on.
use aurexis.Base.{String, not, Option, none, some, [], ◌∷◌, one_of, if◌then◌else◌}
use aurexis.Decimal
use aurexis.Decimal.{Decimal, dec_zero, Checked, ok, ◌>>=◌, ltb_dec, leb_dec}
use aurexis.Risk.States.{RiskState, SignalDecision}
use aurexis.Risk.Config.{RiskConfig, is_fully_configured, missing_parameters}
use aurexis.Risk.Snapshot.{AccountRiskSnapshot, MarketCondition, ReasonCode, RiskDecision}
use aurexis.Risk.Gates.{
  Runtime, comma_separated, at_least_ℤ, is_stale, spread_too_wide, total_daily_pnl, drawdown,
  caution_reached, profit_lock, lock_breached, total_lots,
}

module _ (rt : Runtime) (config : RiskConfig) (cid : String) (snapshot : AccountRiskSnapshot) where
  -- A decision with the optional fields at their default, `None`.
  abbrev pub bare : SignalDecision → ReasonCode → RiskState → RiskDecision
  bare d r s = record {
    decision = d;
    reason_code = r;
    risk_state = s;
    account_id = snapshot.account_id;
    correlation_id = cid;
    decided_at = rt.now;
    equity_at_decision = none;
    drawdown_at_decision = none;
    daily_pnl_at_decision = none;
    profit_lock_status = none;
    authorized_lot_size = none;
  }

  abbrev pub blocked_for : ReasonCode → RiskState → RiskDecision
  blocked_for r s = record (bare SignalDecision.blocked r s) {
    equity_at_decision = some snapshot.current_equity_usd;
  }

  -- 1. The emergency stop overrides everything.
  unfoldable pub emergency_gate : Option RiskDecision
  emergency_gate =
      if config.emergency_stop_active
      then some
          (record (bare SignalDecision.emergency ReasonCode.emergency_stop_active
            RiskState.emergency_stop) { equity_at_decision = some snapshot.current_equity_usd })
      else none

  -- 2. A required parameter is missing.
  unfoldable pub configuration_gate : Option RiskDecision
  configuration_gate =
      if is_fully_configured config
      then none
      else some (
          bare SignalDecision.not_configured
            (ReasonCode.missing_parameter_names (comma_separated (missing_parameters config)))
            RiskState.not_configured)

  -- 3. Market data health, the age of the tick, the spread.
  unfoldable pub market_gate : Option MarketCondition → Option RiskDecision
  market_gate none = none
  market_gate (some m) =
      if not (one_of m.market_data_status ("READY" ∷ "OK" ∷ []))
      then some
          (blocked_for (ReasonCode.market_data_not_ready m.market_data_status) RiskState.caution)
      else if is_stale rt config m
      then some (blocked_for ReasonCode.stale_market_data RiskState.caution)
      else if spread_too_wide config m
      then some (blocked_for ReasonCode.spread_too_high RiskState.caution)
      else none

  -- 4. The news filter.
  unfoldable pub news_gate : Option String → Option RiskDecision
  news_gate none = none
  news_gate (some state) =
      if one_of state ("PRE_EVENT" ∷ "IN_EVENT" ∷ "POST_EVENT" ∷ [])
      then some (blocked_for (ReasonCode.news_event_window state) RiskState.caution)
      else if one_of state ("UNKNOWN" ∷ "PROVIDER_UNAVAILABLE" ∷ "STALE" ∷ [])
      then some (blocked_for (ReasonCode.news_data_unavailable state) RiskState.caution)
      else none

  -- 5. The daily loss limit, on realized and floating profit.
  unfoldable pub daily_loss_gate : Option RiskDecision
  daily_loss_gate = elim config.daily_loss_limit_usd [
    | none ↦ none
    | some limit ↦
        if leb_dec (total_daily_pnl snapshot) (Decimal.neg limit)
        then some (record (blocked_for ReasonCode.daily_loss_limit_hit RiskState.stopped) {
          daily_pnl_at_decision = some (total_daily_pnl snapshot);
        })
        else none
  ]

  abbrev pub drawdown_block : ReasonCode → RiskState → RiskDecision
  drawdown_block r s = record (blocked_for r s) { drawdown_at_decision = some (drawdown snapshot) }

  -- 6. The drawdown from the lifetime high, and the caution level below its limit.
  unfoldable pub drawdown_gate : Option RiskDecision
  drawdown_gate = elim config.max_drawdown_usd [
    | none ↦ none
    | some max_dd ↦
        if leb_dec max_dd (drawdown snapshot)
        then some (drawdown_block ReasonCode.max_drawdown_hit RiskState.stopped)
        else if caution_reached config snapshot max_dd
        then some (drawdown_block ReasonCode.caution_drawdown_reached RiskState.caution)
        else none
  ]

  -- 7. The profit-lock floor.
  unfoldable pub profit_lock_gate : Option RiskDecision
  profit_lock_gate =
      if lock_breached (profit_lock config snapshot)
      then some (record (blocked_for ReasonCode.profit_lock_floor_breached RiskState.protected) {
        daily_pnl_at_decision = some (total_daily_pnl snapshot);
        profit_lock_status = profit_lock config snapshot;
      })
      else none

  -- 8. The number of open positions.
  unfoldable pub positions_gate : Option RiskDecision
  positions_gate = elim config.max_open_positions [
    | none ↦ none
    | some max_pos ↦
        if at_least_ℤ snapshot.open_position_count max_pos
        then some (record (blocked_for ReasonCode.max_positions_reached RiskState.caution) {
          profit_lock_status = profit_lock config snapshot;
        })
        else none
  ]

  -- 10. The exposure of the basket with the proposed lots.
  unfoldable pub lots_gate : Option Decimal → Option RiskDecision
  lots_gate lots = elim config.max_open_lots [
    | none ↦ none
    | some limit ↦
        if ltb_dec limit (total_lots snapshot lots)
        then some (record (blocked_for ReasonCode.max_lots_exceeded RiskState.caution) {
          profit_lock_status = profit_lock config snapshot;
        })
        else none
  ]

  -- What is returned when all checks have passed.
  unfoldable pub approval : Option Decimal → RiskDecision
  approval lots =
      record (bare SignalDecision.approved ReasonCode.all_checks_passed RiskState.normal) {
        equity_at_decision = some snapshot.current_equity_usd;
        drawdown_at_decision = some (drawdown snapshot);
        daily_pnl_at_decision = some (total_daily_pnl snapshot);
        profit_lock_status = profit_lock config snapshot;
        authorized_lot_size = lots;
      }
