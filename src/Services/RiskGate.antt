-- ===== src/Services/RiskGate.antt =====
-- backend/services/risk_gate.py, with `normalize_symbol` and `evaluate_freshness` of
-- backend/services/market_data_service.py: the decision ALLOW or BLOCK before an entry. What the
-- queries return is an argument, as are the clock and `text.strip().upper()`. The texts for a reader
-- (`reason`, `details`, `timestamp`) are left out.
pub mod Checks
pub mod Allowed
use aurexis.Base.{
  ℕ, String, Bool, true, false, not, ◌&&◌, Option, none, some, List, [], ◌∷◌, str_eq, one_of, any,
  or_else, if◌then◌else◌, ℤ, pos, ltb_ℤ, leb, ltb,
}
use aurexis.Decimal
use aurexis.Decimal.{Decimal, dec_zero, ltb_dec, leb_dec}
use aurexis.Risk.Config.{RiskConfig}
use aurexis.Risk.Snapshot.{Timestamp, AccountRiskSnapshot}
use aurexis.Risk.Gates.{Runtime, total_daily_pnl, drawdown}

-- A tick of the cache: each price is `none` where the key is missing or is no number, the time
-- where it is missing or no ISO time. `None` and an empty dictionary are no tick.
pub record Tick : Type 0 where
  pub received_at : Option Timestamp
  pub bid : Option Decimal
  pub ask : Option Decimal
  pub spread : Option Decimal

pub record NewsEvent : Type 0 where
  pub currency : String
  pub impact : String
  pub pre_event_window_start : Timestamp
  pub post_event_window_end : Timestamp

pub data GateDecision : Type 0 where
  allow block : GateDecision

pub data GateReason : Type 0 where
  kill_switch_active invalid_symbol agent_offline market_data_not_ready market_data_stale
        invalid_spread invalid_bid invalid_ask account_state_unavailable risk_limit_block
        news_blackout risk_ok :
      GateReason

pub record RiskDecisionOutput : Type 0 where
  pub decision : GateDecision
  pub reason_code : GateReason
  pub symbol : String
  pub market_data : Option Tick

-- What the gate reads: the rows of the database, the connections and the cache.
pub record Surroundings : Type 0 where
  pub runtime : Runtime
  pub strip_upper : String → String
  pub config : RiskConfig
  pub agent : Option String
  pub is_connected : String → Bool
  pub latest : String → Option Tick
  pub account_active : Bool
  pub snapshot : AccountRiskSnapshot
  pub news : List NewsEvent

abbrev pub canonical_symbol : String
canonical_symbol = "XAUUSD"

-- `text.startswith(start)`
unfoldable pub starts_with : String → String → Bool
starts_with String.[] text = true
starts_with (String.◌∷◌ c start) String.[] = false
starts_with (String.◌∷◌ c start) (String.◌∷◌ d text) =
    let rest = starts_with start text in
    if str_eq (String.◌∷◌ c String.[]) (String.◌∷◌ d String.[]) then rest else false

unfoldable pub normalize_symbol : (String → String) → String → String
normalize_symbol strip_upper raw =
    if starts_with canonical_symbol (strip_upper raw) then canonical_symbol else strip_upper raw

pub data Freshness : Type 0 where
  no_data : Freshness
  stale : ℤ → Freshness
  fresh : ℤ → Freshness

-- `max(0, age)`
abbrev pub not_negative : ℤ → ℤ
not_negative age = if ltb_ℤ age (pos 0) then pos 0 else age

abbrev pub freshness_of : ℤ → ℤ → Freshness
freshness_of age limit = if ltb_ℤ limit age then stale age else fresh age

unfoldable pub evaluate_freshness : Runtime → Tick → ℤ → Freshness
evaluate_freshness rt tick limit = elim tick.received_at [
  | none ↦ no_data
  | some at ↦ freshness_of (not_negative (rt.elapsed_ms at)) limit
]

-- `config.max_tick_staleness_ms or 2000`
abbrev pub max_staleness : RiskConfig → ℤ
max_staleness config = elim config.max_tick_staleness_ms [
  | pos n ↦ if leb n 0 then pos 2000 else pos n
  | n ↦ n
]

abbrev pub is_fresh : Freshness → Bool
is_fresh (fresh _) = true
is_fresh _ = false
