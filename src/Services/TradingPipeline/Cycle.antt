-- ===== src/Services/TradingPipeline/Cycle.antt =====
-- `process_tick` and `warm_up_from_ticks`, stage by stage. `none` is an exception: an unknown
-- timeframe, or the constraint on positions, which rolls back to the commit of the risk decision. An
-- exception of the arithmetic leaves no state.
pub mod Guards
pub mod Ingesting
pub mod Courses
pub mod Stages
pub mod Orders
pub mod Settling
pub mod Endings
pub mod Freeze
pub mod Sync
use aurexis.Base.{
  String, Bool, true, false, not, ◌||◌, Option, none, some, List, [], ◌∷◌, ◌++◌, if◌then◌else◌, ltb,
  ℕ, ◌+◌, Dict,
}
use aurexis.Decimal.{Decimal, Checked, ok, err, ◌>>=◌}
use aurexis.Brain.Interfaces.{CandidateSignal}
use aurexis.Brain.MarketData.{Tick, Bar}
use aurexis.Brain.BarManager.{
  BarManager, is_valid, validate_tick, ingest_tick, is_stale, is_spread_acceptable, get_closed_bars,
}
use aurexis.Brain.SignalPipeline.{process}
use aurexis.Risk.Snapshot.{RiskDecision, trading_allowed}
use aurexis.Execution.Simulator.{get_open_positions}
use aurexis.Execution.Reconciliation.{ReconciliationResult, has_critical_discrepancy}
use aurexis.Services.Database.{SignalStatus, SignalRow, ReportRow, Database, record_audit_event}
use aurexis.Services.RiskService.{evaluate_and_record_risk}
use aurexis.Services.ExecutionService.{World, Outcome, refused, constraint_violated, reported}
use aurexis.Services.ExecutionService.Operations.{
  execute_approved_signal, reconcile_account_positions,
}
use aurexis.Services.TradingPipeline.{
  PipelineStatus, invalid_tick, market_not_ready, account_frozen, signal_none, signal_expired,
  execution_rejected, Event, signal_created, risk_state_changed, command_created, command_updated,
  system_alert, PipelineCycleResult, TradingPipeline, Moments, freeze_account, is_account_frozen,
  stopped, is_none, price_for, signal_row, market_condition, set_status, is_refusal, risk_status,
  idempotency_key, request_of, cycle_status, freeze_reason, position_events,
}

abbrev pub Result : Type 0
Result = Option PipelineCycleResult × TradingPipeline

abbrev pub with_db : TradingPipeline → Database → TradingPipeline
with_db p db = record p { world = record { db = db; simulator = p.world.simulator } }

-- A tick that is not taken in counts as none. The arithmetic of one only divides by two.
abbrev took : BarManager → Checked (Option (Dict String Bar × BarManager)) → ℕ × BarManager
took m (ok (some (closed, m'))) = (1, m')
took m (ok none) = (0, m)
took m (err e) = (0, m)

-- Stage 10, with what has been made so far.
unfoldable pub reconciled : Moments → TradingPipeline → PipelineCycleResult → Result
reconciled t p r =
    let (result, db) =
      reconcile_account_positions p.account_id (get_open_positions p.world.simulator) p.world.db in
    if has_critical_discrepancy result
    then (
      some (record r {
        reconciliation_result = some result;
        events_emitted = r.events_emitted ++ system_alert (freeze_reason result) ∷ [];
      }),
      freeze_account p.account_id (freeze_reason result) (
          with_db p (
            record_audit_event "RECONCILIATION_MISMATCH" "CRITICAL" p.account_id
              (some t.correlation_id) db)),
    )
    else (
      some (record r { reconciliation_result = some result }),
      with_db p
          (record_audit_event "RECONCILIATION_OK" "INFO" p.account_id (some t.correlation_id) db),
    )

abbrev pub reported_result :
    Tick → SignalRow → RiskDecision → List Event → ReportRow → PipelineCycleResult
reported_result tick row decision events report =
    record (stopped (cycle_status report.status) tick) {
      candidate_signal = some (record row { status = SignalStatus.executed });
      risk_decision = some decision;
      execution_report = some report;
      events_emitted = events ++ command_updated report ∷ position_events report;
    }

-- After the execution service has answered.
unfoldable pub answered :
    Moments
    → TradingPipeline
    → Tick
    → SignalRow
    → RiskDecision
    → List Event
    → Outcome
    → World
    → Result
answered t p tick row decision events outcome w = elim outcome [
  | refused ↦ (
    some (record (stopped execution_rejected tick) {
      candidate_signal = some (record row { status = SignalStatus.execution_rejected });
      risk_decision = some decision;
      events_emitted = events;
    }),
    with_db (record p { world = w }) (set_status row.id SignalStatus.execution_rejected w.db),
  )
  | constraint_violated ↦ (none, record p { world = w })
  | reported report ↦
      reconciled t (with_db (record p { world = w }) (set_status row.id SignalStatus.executed w.db))
        (reported_result tick row decision events report)
]

-- Gate 8 and stage 9, on the decision.
unfoldable pub decided :
    Moments → TradingPipeline → Tick → SignalRow → RiskDecision → List Event → Result
decided t p tick row decision events =
    if is_refusal decision.decision || not (trading_allowed decision)
    then (
      some (record (stopped (risk_status decision.decision) tick) {
        candidate_signal = some (record row { status = SignalStatus.blocked decision.reason_code });
        risk_decision = some decision;
        events_emitted = events;
      }),
      with_db p (set_status row.id (SignalStatus.blocked decision.reason_code) p.world.db),
    )
    else (let (outcome, w) =
          execute_approved_signal t.dispatch (request_of t p tick row decision) p.world in
        answered t p tick row decision
          (events
            ++ command_created (idempotency_key p.account_id row.id) decision.authorized_lot_size
                (price_for row.direction tick)
              ∷ [])
          outcome w)

-- Gate 6 and stage 7, on the row of the signal, which is already stored.
unfoldable pub proposed : Moments → TradingPipeline → Tick → String → SignalRow → Checked Result
proposed t p tick news_state row =
    if ltb row.expires_at t.checked_at
    then ok (
      some (record (stopped signal_expired tick) {
        candidate_signal = some (record row { status = SignalStatus.expired });
        events_emitted = signal_created row ∷ [];
      }),
      with_db p (set_status row.id SignalStatus.expired p.world.db),
    )
    else (do
      made ←
          evaluate_and_record_risk t.risk p.account_id row (market_condition t tick) news_state
            t.correlation_id p.world.db
      ok (
          decided t (with_db p made.1) tick row made.0 (
            signal_created row
            ∷ risk_state_changed made.0.risk_state (trading_allowed made.0)
            ∷ [])))

-- The rest of stage 4, and stage 5.
unfoldable pub signalled :
    Moments → TradingPipeline → Tick → String → CandidateSignal → Checked Result
signalled t p tick news_state signal =
    if is_none signal.direction || not signal.is_configured
    then ok (
      some (stopped signal_none tick),
      with_db p (
          record_audit_event "SIGNAL_BLOCKED" "INFO" p.account_id (some t.correlation_id)
            p.world.db),
    )
    else (let row = signal_row t p tick news_state signal in
        proposed t
          (with_db p (
            record_audit_event "SIGNAL_CREATED" "INFO" p.account_id (some t.correlation_id)
              (record p.world.db { signals = p.world.db.signals ++ row ∷ [] })))
          tick news_state row)

-- From the closed bars on: the rest of gate 2, gate 3 and the call of the brain.
unfoldable pub with_bars : Moments → TradingPipeline → Tick → String → List Bar → Checked Result
with_bars t p tick news_state [] = ok (some (stopped market_not_ready tick), p)
with_bars t p tick news_state (bar ∷ bars) =
    if is_account_frozen p.account_id p then ok (some (stopped account_frozen tick), p) else (do
      signal ← process p.brain t.brain_at t.received_at tick (bar ∷ bars) news_state
      signalled t p tick news_state signal)

-- Gate 2, with the tick taken in.
unfoldable pub ingested : Moments → TradingPipeline → Tick → String → Checked Result
ingested t p tick news_state =
    if is_stale p.bar_manager t.ready_at || not (is_spread_acceptable p.bar_manager)
    then ok (some (stopped market_not_ready tick), p)
    else elim (get_closed_bars p.bar_manager p.primary_timeframe) [
      | none ↦ ok (none, p)
      | some bars ↦ with_bars t p tick news_state bars
    ]

unfoldable pub process_tick : Moments → TradingPipeline → Tick → String → Checked Result
process_tick t p tick news_state =
    if not (is_valid (validate_tick p.bar_manager tick))
    then ok (some (stopped invalid_tick tick), p)
    else (do
      taken ← ingest_tick p.bar_manager tick
      elim taken [
        | none ↦ ok (none, p)
        | some (_, manager) ↦ ingested t (record p { bar_manager = manager }) tick news_state
      ])

-- `warm_up_from_ticks`: the count, and the pipeline.
unfoldable pub warm_up_from_ticks : TradingPipeline → List Tick → ℕ × TradingPipeline
warm_up_from_ticks p [] = (0, p)
warm_up_from_ticks p (tick ∷ ticks) =
    let (n, manager) = took p.bar_manager (ingest_tick p.bar_manager tick) in
    let (count, p') = warm_up_from_ticks (record p { bar_manager = manager }) ticks in
    (n + count, p')
