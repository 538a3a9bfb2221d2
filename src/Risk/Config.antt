-- ===== src/Risk/Config.antt =====
-- backend/risk/config.py: the limits of an account. A limit that is `None` is undefined, and the
-- engine refuses to trade while a required one is. The three enums of locked choices have one value
-- each, which no code reads, and are left out with the texts of the fields.
use aurexis.Base.{
  String, Bool, false, ◌&&◌, ◌||◌, Option, none, List, [], ◌∷◌, ◌++◌, is_some, if◌then◌else◌, ℤ,
  pos,
}
use aurexis.Decimal.{Decimal, dec}

pub record RiskConfig : Type 0 where
  pub daily_loss_limit_usd : Option Decimal
  pub max_drawdown_usd : Option Decimal
  pub max_open_positions : Option ℤ
  pub max_open_lots : Option Decimal
  pub max_spread_usd : Option Decimal
  pub caution_drawdown_pct : Option Decimal
  pub risk_per_trade_pct : Option Decimal
  pub default_position_size_lots : Option Decimal
  pub profit_lock_threshold_usd : Decimal
  pub profit_lock_floor_pct : Decimal
  pub max_tick_staleness_ms : ℤ
  pub news_pre_event_window_minutes : ℤ
  pub news_post_event_window_minutes : ℤ
  pub emergency_stop_active : Bool

-- `RiskConfig()`
abbrev pub default_config : RiskConfig
default_config = record {
  daily_loss_limit_usd = none;
  max_drawdown_usd = none;
  max_open_positions = none;
  max_open_lots = none;
  max_spread_usd = none;
  caution_drawdown_pct = none;
  risk_per_trade_pct = none;
  default_position_size_lots = none;
  profit_lock_threshold_usd = dec 10 0;
  profit_lock_floor_pct = dec 30 2;
  max_tick_staleness_ms = pos 2000;
  news_pre_event_window_minutes = pos 30;
  news_post_event_window_minutes = pos 30;
  emergency_stop_active = false;
}

unfoldable pub is_fully_configured : RiskConfig → Bool
is_fully_configured c =
    let has_sizing = is_some c.risk_per_trade_pct || is_some c.default_position_size_lots in
    is_some c.daily_loss_limit_usd
    && (is_some c.max_drawdown_usd && (is_some c.max_open_positions && has_sizing))

-- `if value is None: missing.append(name)`
abbrev missing_name : Bool → String → List String
missing_name present name = if present then [] else name ∷ []

unfoldable pub missing_parameters : RiskConfig → List String
missing_parameters c =
    missing_name (is_some c.daily_loss_limit_usd) "daily_loss_limit_usd"
    ++ (missing_name (is_some c.max_drawdown_usd) "max_drawdown_usd"
        ++ (missing_name (is_some c.max_open_positions) "max_open_positions"
            ++ missing_name (is_some c.risk_per_trade_pct || is_some c.default_position_size_lots)
                "risk_per_trade_pct"))
