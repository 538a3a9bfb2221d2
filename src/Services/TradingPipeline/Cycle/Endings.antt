-- ===== src/Services/TradingPipeline/Cycle/Endings.antt =====
-- How the last stage of a cycle ends.
use aurexis.Base.{
  String_key, ◌≡◌, refl, inl, inr, Bool, true, false, Option, none, some, List, Bool-cases,
}
use aurexis.Execution.Simulator.{get_open_positions}
use aurexis.Execution.Reconciliation.{ReconciliationResult, has_critical_discrepancy}
use aurexis.Services.Database.{Database, record_audit_event}
use aurexis.Services.ExecutionService.Operations.{reconcile_account_positions}
use aurexis.Services.TradingPipeline.{
  Event, PipelineCycleResult, TradingPipeline, Moments, freeze_account, freeze_reason,
}
use aurexis.Services.TradingPipeline.Cycle.{Result, with_db, reconciled}
use aurexis.Services.TradingPipeline.Cycle.Guards.{Unreconciled}

pub not_both : {b : Bool} → b ≡ true → b ≡ false → ⊥
not_both h k = cc

-- The cycle found a critical discrepancy.
abbrev pub critical : Option ReconciliationResult → Bool
critical none = false
critical (some r) = has_critical_discrepancy r

abbrev pub halted : Option PipelineCycleResult → Bool
halted none = false
halted (some r) = critical r.reconciliation_result

pub Unreconciled-halted : (o : Option PipelineCycleResult) → Unreconciled o → halted o ≡ false
Unreconciled-halted none u = refl
Unreconciled-halted (some r) u = rw u refl

abbrev pub compared : TradingPipeline → ReconciliationResult × Database
compared q =
    reconcile_account_positions q.account_id (get_open_positions q.world.simulator) q.world.db

-- How the last stage ends: with a freeze, or without.
pub data Ending (q : TradingPipeline) (r : PipelineCycleResult) : Result → Type 0 where
  broken :
      (db : Database) (events : List Event)
      → has_critical_discrepancy (compared q).0 ≡ true
      → db.positions ≡ q.world.db.positions
      → Ending q r (
        some (record r { reconciliation_result = some (compared q).0; events_emitted = events }),
        freeze_account q.account_id (freeze_reason (compared q).0) (with_db q db),
      )
  clean :
      (db : Database)
      → has_critical_discrepancy (compared q).0 ≡ false
      → db.positions ≡ q.world.db.positions
      → Ending q r (some (record r { reconciliation_result = some (compared q).0 }), with_db q db)

pub compared_positions : (q : TradingPipeline) → (compared q).1.positions ≡ q.world.db.positions
unfolding reconcile_account_positions record_audit_event
compared_positions q = elim (Bool-cases (has_critical_discrepancy (compared q).0)) [
  | inl found ↦ rw found refl
  | inr quiet ↦ rw quiet refl
]

pub reconciled-Ending :
    (t : Moments) (q : TradingPipeline) (r : PipelineCycleResult) → Ending q r (reconciled t q r)
unfolding reconciled record_audit_event
reconciled-Ending t q r = elim (Bool-cases (has_critical_discrepancy (compared q).0)) [
  | inl found ↦ rw (found, reconciled) (broken _ _ found (compared_positions q))
  | inr quiet ↦ rw (quiet, reconciled) (clean _ quiet (compared_positions q))
]
