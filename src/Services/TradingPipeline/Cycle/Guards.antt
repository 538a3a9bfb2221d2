-- ===== src/Services/TradingPipeline/Cycle/Guards.antt =====
-- The courses that a cycle takes, and what each rests on.
use aurexis.Base.{Dict, String, ◌≡◌, true, false, Option, none, some, List, [], ◌∷◌, ◌++◌, ltb}
use aurexis.Decimal.{DecimalError, ok, err}
use aurexis.Brain.Interfaces.{CandidateSignal}
use aurexis.Brain.MarketData.{Tick, Bar}
use aurexis.Brain.BarManager.{
  BarManager, is_valid, validate_tick, ingest_tick, is_stale, is_spread_acceptable, get_closed_bars,
}
use aurexis.Brain.SignalPipeline.{process}
use aurexis.Risk.Snapshot.{RiskDecision, trading_allowed}
use aurexis.Services.Database.{SignalStatus, SignalRow, Database, record_audit_event}
use aurexis.Services.RiskService.{evaluate_and_record_risk}
use aurexis.Services.ExecutionService.{World, Outcome}
use aurexis.Services.ExecutionService.Operations.{execute_approved_signal}
use aurexis.Services.TradingPipeline.{
  PipelineCycleResult, TradingPipeline, Moments, is_account_frozen, is_none, signal_row,
  market_condition, set_status, request_of,
}
use aurexis.Services.TradingPipeline.Cycle.{Result, with_db, reconciled}

-- The broker, the orders, the positions and the frozen accounts are as they were.
pub record Untouched (p p' : TradingPipeline) : Type 0 where
  pub same_account : p'.account_id ≡ p.account_id
  pub same_frozen : p'.frozen_accounts ≡ p.frozen_accounts
  pub same_broker : p'.world.simulator ≡ p.world.simulator
  pub same_commands : p'.world.db.commands ≡ p.world.db.commands
  pub same_positions : p'.world.db.positions ≡ p.world.db.positions

-- No positions were compared in the cycle.
abbrev pub Unreconciled : Option PipelineCycleResult → Type 0
Unreconciled none = Unit
Unreconciled (some r) = r.reconciliation_result ≡ none

module _ (t : Moments) (p : TradingPipeline) (tick : Tick) (news : String) where
  -- A valid tick, taken in on an account that is not frozen while the market is ready, and a signal
  -- of the brain with a direction, on the bars that are closed then.
  pub record Signalled (row : SignalRow) : Type 0 where
    pub valid_tick : is_valid (validate_tick p.bar_manager tick) ≡ true
    pub closed : Dict String Bar
    pub manager : BarManager
    pub taken_in : ingest_tick p.bar_manager tick ≡ ok (some (closed, manager))
    pub fresh : is_stale manager t.ready_at ≡ false
    pub narrow : is_spread_acceptable manager ≡ true
    pub bars : List Bar
    pub found : get_closed_bars manager p.primary_timeframe ≡ some bars
    pub not_frozen : is_account_frozen p.account_id p ≡ false
    pub signal : CandidateSignal
    pub from_brain : process p.brain t.brain_at t.received_at tick bars news ≡ ok signal
    pub directed : is_none signal.direction ≡ false
    pub of_signal : row ≡ signal_row t p tick news signal

  -- The database with the signal stored, as the risk engine reads it.
  abbrev pub stored : SignalRow → Database
  stored row =
      record_audit_event "SIGNAL_CREATED" "INFO" p.account_id (some t.correlation_id)
        (record p.world.db { signals = p.world.db.signals ++ row ∷ [] })

  -- A decision of the risk engine on it that allows trading, within the signal's life.
  pub record Allowed (row : SignalRow) (decision : RiskDecision) : Type 0 where
    pub signalled_by : Signalled row
    pub alive : ltb row.expires_at t.checked_at ≡ false
    pub after : Database
    pub evaluated :
        evaluate_and_record_risk t.risk p.account_id row
          (market_condition t tick)
          news
          t.correlation_id
          (stored row)
        ≡ ok (decision, after)
    pub allowed : trading_allowed decision ≡ true

  -- A signal of the cycle, within its life, on which the arithmetic of the risk engine raises.
  pub record Raised (error : DecimalError) : Type 0 where
    pub row : SignalRow
    pub signalled_by : Signalled row
    pub alive : ltb row.expires_at t.checked_at ≡ false
    pub is_raised :
        evaluate_and_record_risk t.risk p.account_id row
          (market_condition t tick)
          news
          t.correlation_id
          (stored row)
        ≡ err error

  abbrev pub execution : TradingPipeline → SignalRow → RiskDecision → Outcome × World
  execution q row decision =
      execute_approved_signal t.dispatch (request_of t q tick row decision) q.world

  pub data Course : Result → Type 0 where
    idle :
        (o : Option PipelineCycleResult) (p' : TradingPipeline)
        → Unreconciled o
        → Untouched p p'
        → Course (o, p')
    raised :
        (q : TradingPipeline) (row : SignalRow) (decision : RiskDecision)
        → Untouched p q
        → (a : Allowed row decision) → q.world.db ≡ a.after
        → Course (none, record q { world = (execution q row decision).1 })
    traded :
        (q : TradingPipeline) (row : SignalRow) (decision : RiskDecision) (status : SignalStatus)
        (r : PipelineCycleResult)
        → Untouched p q
        → (a : Allowed row decision) → q.world.db ≡ a.after
        → Course (
            reconciled t
              (with_db
                (record q { world = (execution q row decision).1 })
                (set_status row.id status (execution q row decision).1.db))
              r)

  -- The pipeline when the last stage begins.
  abbrev pub settled : TradingPipeline → SignalRow → RiskDecision → SignalStatus → TradingPipeline
  settled q row decision status =
      with_db (record q { world = (execution q row decision).1 })
        (set_status row.id status (execution q row decision).1.db)
