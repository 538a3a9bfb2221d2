-- ===== src/Services/TradingPipeline/Cycle/Sync.antt =====
-- While the server tracks the broker's positions, the circuit breaker stays closed.
use aurexis.Base.{String, String_key, ◌≡◌, refl, false, subst, sym}
use aurexis.Brain.MarketData.{Tick}
use aurexis.Risk.Snapshot.{RiskDecision}
use aurexis.Services.Database.{SignalRow}
use aurexis.Services.ExecutionService.{World}
use aurexis.Services.ExecutionService.Operations.{server_positions, execute_approved_signal}
use aurexis.Services.ExecutionService.Sync.{IsSynced}
use aurexis.Services.ExecutionService.Clean.{
  execute_approved_signal-IsSynced, reconcile_account_positions-IsSynced,
}
use aurexis.Services.TradingPipeline.{
  PipelineCycleResult, TradingPipeline, Moments, freeze_account, set_status, request_of,
}
use aurexis.Services.TradingPipeline.Cycle.{Result, reconciled}
use aurexis.Services.TradingPipeline.Cycle.Guards.{
  Untouched, Course, execution, settled, idle, raised, traded,
}
use aurexis.Services.TradingPipeline.Cycle.Endings.{
  not_both, halted, Unreconciled-halted, Ending, broken, clean, reconciled-Ending,
}

abbrev pub StaysSynced : String → Result → Type 0
StaysSynced account (o, p') = IsSynced account p'.world × (halted o ≡ false)

-- The server's rows and the broker's book are the same.
IsSynced-same :
    (account : String) (w w' : World)
    → w'.simulator ≡ w.simulator
    → w'.db.positions ≡ w.db.positions
    → IsSynced account w
    → IsSynced account w'
unfolding server_positions
IsSynced-same account w w' s d h = record {
  tracked = rw (s, server_positions, d) h.tracked;
  held = rw s h.held;
  given_out = rw (s, d) h.given_out;
}

Ending-IsSynced :
    (q : TradingPipeline) (r : PipelineCycleResult) {x : Result}
    → IsSynced q.account_id q.world
    → Ending q r x
    → StaysSynced q.account_id x
unfolding freeze_account
Ending-IsSynced q r h (broken db events e same) =
    absurd (not_both e (reconcile_account_positions-IsSynced q.account_id q.world h).0)
Ending-IsSynced q r h (clean db e same) = (IsSynced-same q.account_id q.world _ refl same h, e)

executed-IsSynced :
    (t : Moments) (p q : TradingPipeline) (tick : Tick) (row : SignalRow) (decision : RiskDecision)
    → Untouched p q
    → IsSynced p.account_id p.world
    → IsSynced p.account_id
        (execute_approved_signal t.dispatch (request_of t q tick row decision) q.world).1
unfolding request_of
executed-IsSynced t p q tick row decision u h =
    subst
      (λ account.
        IsSynced account
          (execute_approved_signal t.dispatch (request_of t q tick row decision) q.world).1)
      u.same_account
      (execute_approved_signal-IsSynced t.dispatch (request_of t q tick row decision) q.world (
        subst (λ account. IsSynced account q.world) (sym u.same_account)
          (IsSynced-same p.account_id p.world q.world u.same_broker u.same_positions h)))

pub Course-IsSynced :
    (t : Moments) (p : TradingPipeline) (tick : Tick) (news : String) {r : Result}
    → IsSynced p.account_id p.world
    → Course t p tick news r
    → StaysSynced p.account_id r
unfolding set_status request_of
Course-IsSynced t p tick news h (idle o p' u same) = (
  IsSynced-same p.account_id p.world p'.world same.same_broker same.same_positions h,
  Unreconciled-halted o u,
)
Course-IsSynced t p tick news h (raised q row decision u a at) =
    (executed-IsSynced t p q tick row decision u h, refl)
Course-IsSynced t p tick news h (traded q row decision status r u a at) =
    subst
      (λ account.
        StaysSynced account (reconciled t (settled t p tick news q row decision status) r))
      u.same_account
      (Ending-IsSynced (settled t p tick news q row decision status) r
        (IsSynced-same q.account_id (execution t p tick news q row decision).1 _ refl refl (
          subst (λ account. IsSynced account (execution t p tick news q row decision).1)
            (sym u.same_account) (executed-IsSynced t p q tick row decision u h)))
        (reconciled-Ending t (settled t p tick news q row decision status) r))
