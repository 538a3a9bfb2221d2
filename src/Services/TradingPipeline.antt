-- ===== src/Services/TradingPipeline.antt =====
-- backend/services/trading_pipeline.py: one tick through the bars, the signal, the risk engine, the
-- broker and the reconciliation. The ids and the clock's readings of a cycle are arguments. The
-- events are listed, and their broadcast, which cannot fail the cycle, is left out, as are the texts
-- for the result and the log, the setup and the evidence of a signal.
pub mod Cycle
use aurexis.Base.{
  ℕ, ◌+◌, ◌-◌, ◌*◌, ◌/◌, String, Bool, true, false, not, ◌||◌, Option, none, some, List, [], ◌∷◌,
  ◌++◌, map, ltb, str_eq, is_some, lookup, insert, erase, Dict, String_key, if◌then◌else◌, ℤ, pos,
}
use Prim.Native.String.{◌++◌ as join}
use aurexis.Decimal.{Decimal}
use aurexis.Brain.Interfaces.{SignalDirection, CandidateSignal}
use aurexis.Brain.MarketData.{Tick}
use aurexis.Brain.Config.{BrainConfig}
use aurexis.Brain.Scoring.Signals.{spread}
use aurexis.Brain.BarManager.{BarManager}
use aurexis.Risk.States.{SignalDecision, RiskState}
use aurexis.Risk.Snapshot.{MarketCondition, RiskDecision}
use aurexis.Risk.Gates.{Runtime}
use aurexis.Execution.Reconciliation.{Discrepancy, DiscrepancyType, ReconciliationResult}
use aurexis.Services.Database.{SignalStatus, SignalRow, ReportRow, Database}
use aurexis.Services.ExecutionService.{Dispatch, Request, World}

-- The `PIPELINE_STATUS_…` texts.
pub data PipelineStatus : Type 0 where
  invalid_tick market_not_ready account_frozen signal_none signal_expired : PipelineStatus
  risk_blocked risk_not_configured risk_emergency : PipelineStatus
  execution_rejected execution_filled execution_expired : PipelineStatus

-- The events by what they are made from.
pub data Event : Type 0 where
  signal_created : SignalRow → Event
  risk_state_changed : RiskState → Bool → Event
  command_created : String → Option Decimal → Decimal → Event
  command_updated position_updated : ReportRow → Event
  system_alert : String → Event

pub record PipelineCycleResult : Type 0 where
  pub status : PipelineStatus
  pub tick : Tick
  pub candidate_signal : Option SignalRow
  pub risk_decision : Option RiskDecision
  pub execution_report : Option ReportRow
  pub reconciliation_result : Option ReconciliationResult
  pub events_emitted : List Event

-- The pipeline's fields, with the broker's simulator and the database, which it shares.
pub record TradingPipeline : Type 0 where
  pub account_id : String
  pub primary_timeframe : String
  pub signal_expiry_seconds : ℕ
  pub bar_manager : BarManager
  pub brain : BrainConfig
  pub frozen_accounts : Dict String String
  pub world : World

-- What a cycle takes from its surroundings: the ids it makes, and the clock where the market data,
-- the tick of the brain, the new signal, its expiry and the tick's age are looked at.
pub record Moments : Type 0 where
  pub correlation_id : String
  pub signal_id : String
  pub received_at : ℕ
  pub ready_at : ℕ
  pub brain_at : ℕ
  pub generated_at : ℕ
  pub expiry_from : ℕ
  pub checked_at : ℕ
  pub aged_at : ℕ
  pub risk : Runtime
  pub dispatch : Dispatch

unfoldable pub freeze_account : String → String → TradingPipeline → TradingPipeline
freeze_account account reason p = record p {
  frozen_accounts = insert account reason p.frozen_accounts;
}

unfoldable pub unfreeze_account : String → TradingPipeline → TradingPipeline
unfreeze_account account p = record p { frozen_accounts = erase account p.frozen_accounts }

unfoldable pub is_account_frozen : String → TradingPipeline → Bool
is_account_frozen account p = is_some (lookup account p.frozen_accounts)

-- A result without signal, decision, report or events.
abbrev pub stopped : PipelineStatus → Tick → PipelineCycleResult
stopped status tick = record {
  status = status;
  tick = tick;
  candidate_signal = none;
  risk_decision = none;
  execution_report = none;
  reconciliation_result = none;
  events_emitted = [];
}

abbrev pub is_buy : SignalDirection → Bool
is_buy SignalDirection.buy = true
is_buy _ = false

abbrev pub is_none : SignalDirection → Bool
is_none SignalDirection.no_direction = true
is_none _ = false

-- `tick.ask if … == "BUY" else tick.bid`
abbrev pub price_for : SignalDirection → Tick → Decimal
price_for direction tick = if is_buy direction then tick.ask else tick.bid

abbrev pub reference_or : Option Decimal → Decimal → Decimal
reference_or none price = price
reference_or (some reference) price = reference

unfoldable pub signal_row : Moments → TradingPipeline → Tick → String → CandidateSignal → SignalRow
signal_row t p tick news_state signal = record {
  id = t.signal_id;
  account_id = p.account_id;
  correlation_id = t.correlation_id;
  symbol = tick.symbol;
  direction = signal.direction;
  strategy_id = signal.strategy_id;
  strategy_version = signal.strategy_version;
  confidence_score = signal.confidence_score;
  entry_reference = some (reference_or signal.entry_reference (price_for signal.direction tick));
  suggested_stop_loss = signal.suggested_stop_loss;
  suggested_take_profit = signal.suggested_take_profit;
  spread_at_signal = spread tick;
  news_state_at_signal = news_state;
  status = SignalStatus.proposed;
  generated_at = t.generated_at;
  expires_at = t.expiry_from + p.signal_expiry_seconds * 1000000;
}

-- `int(tick.staleness_seconds() * 1000)`, computed exactly.
abbrev age_ms : ℕ → ℕ → ℤ
age_ms now received_at = pos ((now - received_at) / 1000)

unfoldable pub market_condition : Moments → Tick → MarketCondition
market_condition t tick = record {
  symbol = tick.symbol;
  bid = some tick.bid;
  ask = some tick.ask;
  tick_timestamp = some tick.tick_time;
  tick_age_ms = some (age_ms t.aged_at t.received_at);
  spread = some (spread tick);
  market_data_status = "READY";
}

-- `db_signal.status = …` on the row with the signal's id.
unfoldable pub set_status : String → SignalStatus → Database → Database
set_status id status db = record db {
  signals =
      map (λ row. if str_eq row.id id then record row { status = status } else row) db.signals;
}

-- `decision in (NOT_CONFIGURED, BLOCKED, EMERGENCY)`
abbrev pub is_refusal : SignalDecision → Bool
is_refusal SignalDecision.approved = false
is_refusal _ = true

-- `risk_status_map.get(decision, PIPELINE_STATUS_RISK_BLOCKED)`
abbrev pub risk_status : SignalDecision → PipelineStatus
risk_status SignalDecision.not_configured = risk_not_configured
risk_status SignalDecision.emergency = risk_emergency
risk_status _ = risk_blocked

-- `f"exec_{account_id}_{db_signal.id}"`
unfoldable pub idempotency_key : String → String → String
idempotency_key account signal_id = join "exec_" (join account (join "_" signal_id))

unfoldable pub request_of : Moments → TradingPipeline → Tick → SignalRow → RiskDecision → Request
request_of t p tick row decision = record {
  account_id = p.account_id;
  signal = row;
  decision = decision;
  current_price = some (price_for row.direction tick);
  correlation_id = some t.correlation_id;
  idempotency_key = some (idempotency_key p.account_id row.id);
}

-- `exec_status in ("FILLED", "PARTIALLY_FILLED")`
abbrev pub is_fill_text : String → Bool
is_fill_text status = str_eq status "FILLED" || str_eq status "PARTIALLY_FILLED"

unfoldable pub cycle_status : String → PipelineStatus
cycle_status status =
    if str_eq status "EXPIRED"
    then execution_expired
    else if is_fill_text status
    then execution_filled
    else execution_rejected

abbrev discrepancy_text : DiscrepancyType → String
discrepancy_text DiscrepancyType.orphan = "'ORPHAN'"
discrepancy_text DiscrepancyType.phantom = "'PHANTOM'"
discrepancy_text DiscrepancyType.volume_mismatch = "'VOLUME_MISMATCH'"
discrepancy_text DiscrepancyType.side_mismatch = "'SIDE_MISMATCH'"

abbrev listed : List Discrepancy → String
listed [] = ""
listed (d ∷ []) = discrepancy_text d.discrepancy_type
listed (d ∷ next ∷ rest) =
    join (discrepancy_text d.discrepancy_type) (join ", " (listed (next ∷ rest)))

-- `f"Critical reconciliation: {[d.discrepancy_type for d in …]}"`
unfoldable pub freeze_reason : ReconciliationResult → String
freeze_reason r = join "Critical reconciliation: [" (join (listed r.discrepancies) "]")

-- A ticket of zero counts as none.
abbrev pub has_broker_ticket : Option ℕ → Bool
has_broker_ticket none = false
has_broker_ticket (some ticket) = ltb 0 ticket

-- The last event of a cycle that was not frozen, where the report is a fill under a ticket.
abbrev pub position_events : ReportRow → List Event
position_events r =
    if is_fill_text r.status
    then if has_broker_ticket r.broker_ticket then position_updated r ∷ [] else []
    else []
