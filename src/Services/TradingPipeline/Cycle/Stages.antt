-- ===== src/Services/TradingPipeline/Cycle/Stages.antt =====
-- A cycle, stage by stage: it takes one of the courses, or raises what the risk engine raises.
use aurexis.Base.{
  Dict, String, ◌≡◌, refl, inl, inr, true, false, not, ◌||◌, Option, none, some, List, [], ◌∷◌,
  Bool-cases, Option-cases, arith, ltb,
}
use aurexis.Decimal.{ok, IfOk}
use aurexis.Brain.SignalPipeline.Totality.{process-Returns}
use aurexis.Services.TradingPipeline.Cycle.Ingesting.{ingest_tick-Returns}
use aurexis.Brain.Interfaces.{CandidateSignal}
use aurexis.Brain.MarketData.{Tick, Bar}
use aurexis.Brain.BarManager.{
  BarManager, is_valid, validate_tick, ingest_tick, is_stale, is_spread_acceptable, get_closed_bars,
}
use aurexis.Brain.SignalPipeline.{process}
use aurexis.Risk.Snapshot.{RiskDecision}
use aurexis.Services.Database.{SignalRow, Database, record_audit_event}
use aurexis.Services.RiskService.{evaluate_and_record_risk}
use aurexis.Services.TradingPipeline.{
  TradingPipeline, Moments, is_account_frozen, is_none, signal_row, market_condition, set_status,
}
use aurexis.Services.TradingPipeline.Cycle.{
  with_db, proposed, signalled, with_bars, ingested, process_tick,
}
use aurexis.Services.TradingPipeline.Cycle.Guards.{Untouched, Signalled, stored, Course, idle}
use aurexis.Services.TradingPipeline.Cycle.Courses.{
  Settles, ends-Settles, bind-Settles, raise-Settles, Settles-IfOk, decided-Course,
  Untouched-recorded,
}

module _ (t : Moments) (p : TradingPipeline) (tick : Tick) (news : String) where
  proposed-Settles :
      (q : TradingPipeline) (row : SignalRow)
      → Untouched p q
      → q.world.db ≡ stored t p tick news row
      → Signalled t p tick news row
      → Settles t p tick news (proposed t q tick news row)
  unfolding proposed set_status
  proposed-Settles q row u in_store s = elim (Bool-cases (ltb row.expires_at t.checked_at)) [
    | inl late ↦
        rw (late, proposed)
          (ends-Settles t p tick news _ (
            idle _ _ refl (record {
              same_account = u.same_account;
              same_frozen = u.same_frozen;
              same_broker = u.same_broker;
              same_commands = u.same_commands;
              same_positions = u.same_positions;
            })))
    | inr soon ↦
        let account : q.account_id ≡ p.account_id = u.same_account in
        rw (soon, proposed)
          (raise-Settles t p tick news
            (evaluate_and_record_risk t.risk q.account_id row (market_condition t tick) news
              t.correlation_id q.world.db)
            _ (λ e raise. record { row = row; signalled_by = s; alive = soon; is_raised = cc })
            λ (made : RiskDecision × Database) e.
              decided-Course t p tick news (with_db q made.1) row made.0 _
                (Untouched-recorded t p tick news q row made u e)
                λ allowed. (
                  record {
                    signalled_by = s;
                    alive = soon;
                    after = made.1;
                    evaluated = cc;
                    allowed = allowed;
                  },
                  refl,
                ))
  ]

  abbrev taken_with : BarManager → TradingPipeline
  taken_with m = record p { bar_manager = m }

  Untouched-taken_with : (m : BarManager) → Untouched p (taken_with m)
  Untouched-taken_with m = record {
    same_account = refl;
    same_frozen = refl;
    same_broker = refl;
    same_commands = refl;
    same_positions = refl;
  }

  -- The tick is taken in.
  module _ (closed : Dict String Bar) (m : BarManager)
      (valid : is_valid (validate_tick p.bar_manager tick) ≡ true)
      (taken : ingest_tick p.bar_manager tick ≡ ok (some (closed, m))) where
    signalled-Settles :
        (bars : List Bar) (signal : CandidateSignal)
        → (is_stale m t.ready_at || not (is_spread_acceptable m)) ≡ false
        → get_closed_bars m p.primary_timeframe ≡ some bars
        → is_account_frozen p.account_id p ≡ false
        → process p.brain t.brain_at t.received_at tick bars news ≡ ok signal
        → Settles t p tick news (signalled t (taken_with m) tick news signal)
    unfolding signalled signal_row record_audit_event
    signalled-Settles bars signal ready found free e =
        elim (Bool-cases (is_none signal.direction || not signal.is_configured)) [
          | inl none_made ↦
              rw (none_made, signalled)
                (ends-Settles t p tick news _ (
                  idle _ _ refl (record {
                    same_account = refl;
                    same_frozen = refl;
                    same_broker = refl;
                    same_commands = refl;
                    same_positions = refl;
                  })))
          | inr made ↦
              rw (made, signalled)
                (proposed-Settles _ (signal_row t p tick news signal)
                  (record {
                    same_account = refl;
                    same_frozen = refl;
                    same_broker = refl;
                    same_commands = refl;
                    same_positions = refl;
                  })
                  refl
                  (record {
                    valid_tick = valid;
                    closed = closed;
                    manager = m;
                    taken_in = taken;
                    fresh = ground arith;
                    narrow = ground arith;
                    bars = bars;
                    found = found;
                    not_frozen = free;
                    signal = signal;
                    from_brain = e;
                    directed = ground arith;
                    of_signal = refl;
                  }))
        ]

    with_bars-Settles :
        (bars : List Bar)
        → (is_stale m t.ready_at || not (is_spread_acceptable m)) ≡ false
        → get_closed_bars m p.primary_timeframe ≡ some bars
        → Settles t p tick news (with_bars t (taken_with m) tick news bars)
    unfolding with_bars is_account_frozen
    with_bars-Settles [] ready found =
        ends-Settles t p tick news _ (idle _ _ refl (Untouched-taken_with m))
    with_bars-Settles (bar ∷ bars) ready found =
        elim (Bool-cases (is_account_frozen p.account_id p)) [
          | inl frozen ↦
              rw (frozen, with_bars, is_account_frozen)
                (ends-Settles t p tick news _ (idle _ _ refl (Untouched-taken_with m)))
          | inr free ↦
              rw (free, with_bars, is_account_frozen)
                (bind-Settles t p tick news
                  (process p.brain t.brain_at t.received_at tick (bar ∷ bars) news) _
                  (process-Returns p.brain t.brain_at t.received_at tick (bar ∷ bars) news)
                  λ signal e. signalled-Settles (bar ∷ bars) signal ready found free e)
        ]

    ingested-Settles : Settles t p tick news (ingested t (taken_with m) tick news)
    unfolding ingested
    ingested-Settles = elim (Bool-cases (is_stale m t.ready_at || not (is_spread_acceptable m))) [
      | inl unready ↦
          rw (unready, ingested)
            (ends-Settles t p tick news _ (idle _ _ refl (Untouched-taken_with m)))
      | inr ready ↦ elim (Option-cases (get_closed_bars m p.primary_timeframe)) [
        | inl untracked ↦
            rw (ready, untracked, ingested)
              (ends-Settles t p tick news _ (idle _ _ tt (Untouched-taken_with m)))
        | inr (bars, found) ↦ rw (ready, found, ingested) (with_bars-Settles bars ready found)
      ]
    ]

  pub process_tick-Settles : Settles t p tick news (process_tick t p tick news)
  unfolding process_tick
  process_tick-Settles = elim (Bool-cases (is_valid (validate_tick p.bar_manager tick))) [
    | inr bad ↦
        rw (bad, process_tick)
          (ends-Settles t p tick news _ (idle _ _ refl (Untouched-taken_with p.bar_manager)))
    | inl good ↦
        rw (good, process_tick)
          (bind-Settles t p tick news (ingest_tick p.bar_manager tick) _
            (ingest_tick-Returns p.bar_manager tick) λ x e. taken x good e)
  ]
    where
      taken :
          (x : Option (Dict String Bar × BarManager))
          → is_valid (validate_tick p.bar_manager tick) ≡ true
          → ingest_tick p.bar_manager tick ≡ ok x
          → Settles t p tick news (elim x [
            | none ↦ ok (none, p)
            | some (_, manager) ↦ ingested t (record p { bar_manager = manager }) tick news
          ])
      taken none v e =
          ends-Settles t p tick news _ (idle _ _ tt (Untouched-taken_with p.bar_manager))
      taken (some (closed, m)) v e = ingested-Settles closed m v e

  pub process_tick-Course : IfOk (Course t p tick news) (process_tick t p tick news)
  process_tick-Course = Settles-IfOk t p tick news (process_tick t p tick news) process_tick-Settles
