-- ===== src/Services/TradingPipeline/Cycle/Courses.antt =====
-- The ends of a stage: a course that returns, or an exception; and the courses from the decision on.
use aurexis.Base.{
  String, ◌≡◌, refl, ◌⊎◌, inl, inr, true, not, ◌||◌, none, List, Bool-cases, arith, subst, ap, ◌∙◌,
}
use aurexis.Decimal.{DecimalError, Checked, ok, err, ◌>>=◌, IfOk}
use aurexis.Decimal.Returning.{Returns}
use aurexis.Brain.MarketData.{Tick}
use aurexis.Risk.Snapshot.{RiskDecision, trading_allowed}
use aurexis.Services.Database.{SignalStatus, SignalRow, Database}
use aurexis.Services.RiskService.{evaluate_and_record_risk}
use aurexis.Services.RiskService.Decisions.{evaluate_and_record_risk-Backed}
use aurexis.Services.ExecutionService.{World, Outcome, refused, constraint_violated, reported}
use aurexis.Services.ExecutionService.Permission.{Settled, execute_approved_signal-Settled}
use aurexis.Services.TradingPipeline.{
  TradingPipeline, Moments, Event, market_condition, set_status, is_refusal, request_of,
}
use aurexis.Services.TradingPipeline.Cycle.{
  Result, with_db, reported_result, reconciled, answered, decided,
}
use aurexis.Services.TradingPipeline.Cycle.Guards.{
  Untouched, Allowed, Raised, Course, execution, idle, raised, traded,
}

module _ (t : Moments) (p : TradingPipeline) (tick : Tick) (news : String) where
  -- It returns by one of the courses, or it raises what the risk engine raises.
  abbrev pub Settles : Checked Result → Type 0
  Settles m =
      ((r : Result) × (m ≡ ok r) × Course t p tick news r)
      ⊎ ((e : DecimalError) × (m ≡ err e) × Raised t p tick news e)

  pub ends-Settles : (r : Result) → Course t p tick news r → Settles (ok r)
  ends-Settles r c = inl (r, refl, c)

  pub bind-Settles :
      {A : Type 0} (m : Checked A) (f : A → Checked Result)
      → Returns m
      → ((x : A) → m ≡ ok x → Settles (f x))
      → Settles (m >>= f)
  bind-Settles (ok x) f returns next = next x refl
  bind-Settles (err e) f (x, never) next = cc

  -- A step that may raise is the risk engine's.
  pub raise-Settles :
      {A : Type 0} (m : Checked A) (f : A → Result)
      → ((e : DecimalError) → m ≡ err e → Raised t p tick news e)
      → ((x : A) → m ≡ ok x → Course t p tick news (f x))
      → Settles (m >>= λ x. ok (f x))
  raise-Settles (ok x) f raise go_on = inl (f x, refl, go_on x refl)
  raise-Settles (err e) f raise go_on = inr (e, refl, raise e refl)

  pub Settles-IfOk : (m : Checked Result) → Settles m → IfOk (Course t p tick news) m
  Settles-IfOk (err e) s = tt
  Settles-IfOk (ok r) (inl (end, same, c)) =
      let at : end ≡ r = cc in subst (λ x. Course t p tick news x) at c
  Settles-IfOk (ok r) (inr (e, never, raise)) = cc

  answered-Course :
      (q : TradingPipeline) (row : SignalRow) (decision : RiskDecision) (events : List Event)
      → Untouched p q
      → (a : Allowed t p tick news row decision) → q.world.db ≡ a.after
      → Course t p tick news (
          answered t q tick row decision events
            (execution t p tick news q row decision).0
            (execution t p tick news q row decision).1)
  unfolding answered set_status request_of
  answered-Course q row decision events u a at =
      go (execution t p tick news q row decision) refl
        (execute_approved_signal-Settled t.dispatch (request_of t q tick row decision) q.world)
    where
      go :
          (x : Outcome × World)
          → execution t p tick news q row decision ≡ x
          → Settled t.dispatch (request_of t q tick row decision) q.world x
          → Course t p tick news (answered t q tick row decision events x.0 x.1)
      go (refused, w) e (inl (denied, o, same)) = idle _ _ refl (record {
        same_account = u.same_account;
        same_frozen = u.same_frozen;
        same_broker = rw same u.same_broker;
        same_commands = rw same u.same_commands;
        same_positions = rw same u.same_positions;
      })
      go (refused, w) e (inr (lots, permitted, never)) = absurd never
      go (constraint_violated, w) e s =
          subst (λ (x : Outcome × World). Course t p tick news (none, record q { world = x.1 })) e
            (raised q row decision u a at)
      go (reported report, w) e s =
          subst
            (λ (x : Outcome × World). Course t p tick news (
              reconciled t
                (with_db (record q { world = x.1 })
                  (set_status row.id SignalStatus.executed x.1.db))
                (reported_result tick row decision events report)))
            e
            (traded q row decision SignalStatus.executed
              (reported_result tick row decision events report) u a at)

  pub decided-Course :
      (q : TradingPipeline) (row : SignalRow) (decision : RiskDecision) (events : List Event)
      → Untouched p q
      → (trading_allowed decision ≡ true
          → (a : Allowed t p tick news row decision) × (q.world.db ≡ a.after))
      → Course t p tick news (decided t q tick row decision events)
  unfolding decided set_status
  decided-Course q row decision events u a =
      elim (Bool-cases (is_refusal decision.decision || not (trading_allowed decision))) [
        | inl refuse ↦
            rw (refuse, decided)
              (idle _ _ refl (record {
                same_account = u.same_account;
                same_frozen = u.same_frozen;
                same_broker = u.same_broker;
                same_commands = u.same_commands;
                same_positions = u.same_positions;
              }))
        | inr go_on ↦
            let (allowed, at) = a (ground arith) in
            rw (go_on, decided) (answered-Course q row decision _ u allowed at)
      ]

  -- The record of a decision leaves the rest.
  pub Untouched-recorded :
      (q : TradingPipeline) (row : SignalRow) (made : RiskDecision × Database)
      → Untouched p q
      → evaluate_and_record_risk t.risk q.account_id row
          (market_condition t tick)
          news
          t.correlation_id
          q.world.db
        ≡ ok made
      → Untouched p (with_db q made.1)
  Untouched-recorded q row made u e =
      let (_, kept, _, _) =
        evaluate_and_record_risk-Backed t.risk q.account_id row (market_condition t tick) news
          t.correlation_id q.world.db made.0 made.1 e in
      record {
        same_account = u.same_account;
        same_frozen = u.same_frozen;
        same_broker = u.same_broker;
        same_commands = ap (λ (db : Database). db.commands) kept ∙ u.same_commands;
        same_positions = ap (λ (db : Database). db.positions) kept ∙ u.same_positions;
      }
