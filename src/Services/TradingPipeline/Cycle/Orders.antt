-- ===== src/Services/TradingPipeline/Cycle/Orders.antt =====
-- When an order leaves a cycle.
use aurexis.Base.{String, ◌≡◌, refl, ◌⊎◌, inl, inr, Bool-cases}
use aurexis.Brain.MarketData.{Tick}
use aurexis.Risk.Snapshot.{RiskDecision}
use aurexis.Services.Database.{SignalRow, record_audit_event}
use aurexis.Services.ExecutionService.Operations.{reconcile_account_positions}
use aurexis.Execution.Simulator.{get_open_positions}
use aurexis.Execution.Reconciliation.{has_critical_discrepancy}
use aurexis.Services.TradingPipeline.{
  freeze_account, PipelineCycleResult, TradingPipeline, Moments, set_status,
}
use aurexis.Services.TradingPipeline.Cycle.{Result, reconciled}
use aurexis.Services.TradingPipeline.Cycle.Guards.{
  Untouched, Allowed, Course, execution, settled, idle, raised, traded,
}

reconciled-keeps :
    (t : Moments) (q : TradingPipeline) (r : PipelineCycleResult)
    → ((reconciled t q r).1.world.simulator ≡ q.world.simulator)
      × ((reconciled t q r).1.world.db.commands ≡ q.world.db.commands)
unfolding reconciled reconcile_account_positions record_audit_event freeze_account
reconciled-keeps t q r =
    elim (Bool-cases (
      has_critical_discrepancy
        (reconcile_account_positions q.account_id (get_open_positions q.world.simulator)
          q.world.db).0)) [
            | inl found ↦ rw (found, reconciled) (refl, refl)
            | inr quiet ↦ rw (quiet, reconciled) (refl, refl)
          ]

module _ (t : Moments) (p : TradingPipeline) (tick : Tick) (news : String) where
  -- An order went out on an allowed decision: the broker and the orders are what the execution
  -- service left, called with the decision on record.
  pub record Ordered (p' : TradingPipeline) : Type 0 where
    pub q : TradingPipeline
    pub row : SignalRow
    pub decision : RiskDecision
    pub untouched : Untouched p q
    pub on_decision : Allowed t p tick news row decision
    pub on_record : q.world.db ≡ on_decision.after
    pub of_broker : p'.world.simulator ≡ (execution t p tick news q row decision).1.simulator
    pub of_commands : p'.world.db.commands ≡ (execution t p tick news q row decision).1.db.commands

  pub Course-Ordered : {r : Result} → Course t p tick news r → Untouched p r.1 ⊎ Ordered r.1
  unfolding set_status
  Course-Ordered (idle o p' u same) = inl same
  Course-Ordered (raised q row decision u a at) = inr (record {
    q = q;
    row = row;
    decision = decision;
    untouched = u;
    on_decision = a;
    on_record = at;
    of_broker = refl;
    of_commands = refl;
  })
  Course-Ordered (traded q row decision status r u a at) = inr (record {
    q = q;
    row = row;
    decision = decision;
    untouched = u;
    on_decision = a;
    on_record = at;
    of_broker = (reconciled-keeps t (settled t p tick news q row decision status) r).0;
    of_commands = (reconciled-keeps t (settled t p tick news q row decision status) r).1;
  })
