-- ===== src/Services/RiskGate/Checks.antt =====
-- The checks of `evaluate_risk_gate` (backend/services/risk_gate.py), in the order of the code, and
-- the decision: a check gives the output that the code returns there, or `none` to go on.
use aurexis.Base.{
  String, Bool, false, not, ◌&&◌, Option, none, some, [], ◌∷◌, str_eq, one_of, any, or_else,
  if◌then◌else◌, leb,
}
use aurexis.Decimal
use aurexis.Decimal.{Decimal, dec_zero, ltb_dec, leb_dec}
use aurexis.Risk.Snapshot.{Timestamp}
use aurexis.Risk.Gates.{total_daily_pnl, drawdown}
use aurexis.Services.RiskGate.{
  Tick, NewsEvent, GateReason, RiskDecisionOutput, Surroundings, canonical_symbol, normalize_symbol,
  evaluate_freshness, max_staleness, is_fresh, allow, block, kill_switch_active, invalid_symbol,
  agent_offline, market_data_not_ready, market_data_stale, invalid_spread, invalid_bid, invalid_ask,
  account_state_unavailable, risk_limit_block, news_blackout, risk_ok,
}

abbrev pub refuse : GateReason → String → Option Tick → Option RiskDecisionOutput
refuse reason symbol tick =
    some (record { decision = block; reason_code = reason; symbol = symbol; market_data = tick })

abbrev pub or_else_value : Option Bool → Bool → Bool
or_else_value none computed = computed
or_else_value (some given) _ = given

-- The query's filter, and `w_start <= now <= w_end`.
abbrev pub blackout : Timestamp → NewsEvent → Bool
blackout now ev =
    one_of ev.currency ("USD" ∷ "XAU" ∷ [])
    && (one_of ev.impact ("HIGH" ∷ "CRITICAL" ∷ [])
        && (leb ev.pre_event_window_start now && leb now ev.post_event_window_end))

module _ (s : Surroundings) (symbol : String) where
  -- 1. The kill switch.
  unfoldable pub kill_switch_check : Option RiskDecisionOutput
  kill_switch_check =
      if s.config.emergency_stop_active then refuse kill_switch_active symbol none else none

  -- 2. The only symbol is XAUUSD; the refusal names the symbol as it was given.
  unfoldable pub symbol_check : String → Option RiskDecisionOutput
  symbol_check given =
      if str_eq symbol canonical_symbol then none else refuse invalid_symbol given none

  -- 3. The agent of the account and its connection.
  unfoldable pub agent_check : Option Bool → Option RiskDecisionOutput
  agent_check override = elim s.agent [
    | none ↦ refuse agent_offline symbol none
    | some agent_id ↦
        if or_else_value override (s.is_connected agent_id)
        then none
        else refuse agent_offline symbol none
  ]

  -- 4. A tick, and a fresh one.
  unfoldable pub tick_check : Option Tick → Option RiskDecisionOutput
  tick_check none = refuse market_data_not_ready symbol none
  tick_check (some tick) =
      if is_fresh (evaluate_freshness s.runtime tick (max_staleness s.config))
      then none
      else refuse market_data_stale symbol (some tick)

  abbrev pub too_wide : Decimal → Bool
  too_wide spread = elim s.config.max_spread_usd [
    | none ↦ false
    | some limit ↦ ltb_dec limit spread
  ]

  abbrev pub prices_check : Tick → Decimal → Decimal → Decimal → Option RiskDecisionOutput
  prices_check tick bid ask spread =
      if leb_dec bid dec_zero
      then refuse invalid_bid symbol (some tick)
      else if leb_dec ask bid
      then refuse invalid_ask symbol (some tick)
      else if ltb_dec spread dec_zero
      then refuse invalid_spread symbol (some tick)
      else if too_wide spread
      then refuse invalid_spread symbol (some tick)
      else none

  -- 5. The prices and the spread.
  unfoldable pub price_check : Option Tick → Option RiskDecisionOutput
  price_check none = none
  price_check (some tick) = elim tick.bid [
    | none ↦ refuse invalid_spread symbol (some tick)
    | some bid ↦ elim tick.ask [
      | none ↦ refuse invalid_spread symbol (some tick)
      | some ask ↦ elim tick.spread [
        | none ↦ refuse invalid_spread symbol (some tick)
        | some spread ↦ prices_check tick bid ask spread
      ]
    ]
  ]

  -- 6. The account and its equity.
  unfoldable pub account_check : Option Tick → Option RiskDecisionOutput
  account_check tick =
      if not s.account_active
      then refuse account_state_unavailable symbol tick
      else if leb_dec s.snapshot.current_equity_usd dec_zero
      then refuse account_state_unavailable symbol tick
      else none

  abbrev pub loss_breached : Bool
  loss_breached = elim s.config.daily_loss_limit_usd [
    | none ↦ false
    | some limit ↦ leb_dec (total_daily_pnl s.snapshot) (Decimal.neg limit)
  ]

  abbrev pub drawdown_breached : Bool
  drawdown_breached = elim s.config.max_drawdown_usd [
    | none ↦ false
    | some limit ↦ leb_dec limit (drawdown s.snapshot)
  ]

  -- 7. The daily loss and the drawdown.
  unfoldable pub limits_check : Option Tick → Option RiskDecisionOutput
  limits_check tick =
      if loss_breached
      then refuse risk_limit_block symbol tick
      else if drawdown_breached
      then refuse risk_limit_block symbol tick
      else none

  -- 8. A high-impact event whose window is open.
  unfoldable pub news_check : Option Tick → Option RiskDecisionOutput
  news_check tick =
      if any (blackout s.runtime.now) s.news then refuse news_blackout symbol tick else none

abbrev pub decision_or : Option RiskDecisionOutput → RiskDecisionOutput → RiskDecisionOutput
decision_or none next = next
decision_or (some output) next = output

abbrev pub tick_used : Surroundings → String → Option Tick → Option Tick
tick_used s symbol override = or_else override (s.latest (normalize_symbol s.strip_upper symbol))

-- The checks in the code's order: the first output decides.
unfoldable pub all_checks :
    Surroundings → String → String → Option Bool → Option Tick → Option RiskDecisionOutput
all_checks s symbol given override tick = or_else (kill_switch_check s symbol) (
    or_else (symbol_check s symbol given) (
      or_else (agent_check s symbol override) (
        or_else (tick_check s symbol tick) (
          or_else (price_check s symbol tick) (
            or_else (account_check s symbol tick)
              (or_else (limits_check s symbol tick) (news_check s symbol tick)))))))

unfoldable pub evaluate_risk_gate :
    Surroundings → String → Option Tick → Option Bool → RiskDecisionOutput
evaluate_risk_gate s given override_tick override_agent_connected =
    let symbol = normalize_symbol s.strip_upper given in
    let tick = tick_used s given override_tick in
    decision_or (all_checks s symbol given override_agent_connected tick)
      (record { decision = allow; reason_code = risk_ok; symbol = symbol; market_data = tick })
