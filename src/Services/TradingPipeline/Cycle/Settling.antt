-- ===== src/Services/TradingPipeline/Cycle/Settling.antt =====
-- A cycle returns, unless the arithmetic of the risk engine raises on its signal.
use aurexis.Base.{String, ◌≡◌, ◌⊎◌, inl, inr}
use aurexis.Decimal.{DecimalError, ok, err}
use aurexis.Brain.MarketData.{Tick}
use aurexis.Services.TradingPipeline.{TradingPipeline, Moments}
use aurexis.Services.TradingPipeline.Cycle.{Result, process_tick}
use aurexis.Services.TradingPipeline.Cycle.Guards.{Untouched, Course, Raised}
use aurexis.Services.TradingPipeline.Cycle.Stages.{process_tick-Settles}
use aurexis.Services.ExecutionService.Sync.{IsSynced}
use aurexis.Services.TradingPipeline.Cycle.Freeze.{Freezes, Course-Freezes}
use aurexis.Services.TradingPipeline.Cycle.Sync.{StaysSynced, Course-IsSynced}
use aurexis.Services.TradingPipeline.Cycle.Orders.{Ordered, Course-Ordered}

module _ (t : Moments) (tick : Tick) (news : String) where
  -- What holds after every course holds of the result that is returned.
  settle :
      (P : Result → Type 0) (p : TradingPipeline)
      → ((r : Result) → Course t p tick news r → P r)
      → ((r : Result) × (process_tick t p tick news ≡ ok r) × P r)
        ⊎ ((e : DecimalError) × (process_tick t p tick news ≡ err e) × Raised t p tick news e)
  settle P p h = elim (process_tick-Settles t p tick news) [
    | inr raised ↦ inr raised
    | inl (r, e, c) ↦ inl (r, e, h r c)
  ]

  -- A cycle raises an exception of the decimal arithmetic only in the risk engine, evaluated on the
  -- database with the cycle's own signal stored: then the tick was valid and taken in, the market was
  -- ready, the account was not frozen, the brain proposed a direction on the closed bars, and the
  -- signal had not expired. Otherwise it returns, or ends with an exception of the database or of an
  -- unknown timeframe, and either the broker, the orders, the positions and the frozen accounts are
  -- as they were, or all of those conditions hold, the risk engine's decision on that signal allows
  -- trading, and the broker and the orders are what the execution service makes of that decision on
  -- the database that the risk engine left.
  pub process_tick_lem :
      (p : TradingPipeline)
      → ((r : Result) × (process_tick t p tick news ≡ ok r)
          × (Untouched p r.1 ⊎ Ordered t p tick news r.1))
        ⊎ ((e : DecimalError) × (process_tick t p tick news ≡ err e) × Raised t p tick news e)
  process_tick_lem p =
      settle (λ r. Untouched p r.1 ⊎ Ordered t p tick news r.1) p
        λ r c. Course-Ordered t p tick news c

  -- A cycle comes to an end after which its account is frozen exactly where it was frozen before or
  -- the cycle's reconciliation found a critical discrepancy, unless the arithmetic of the risk engine
  -- raises on the cycle's own signal, and the cycle with it.
  pub process_tick-Freezes :
      (p : TradingPipeline)
      → ((r : Result) × (process_tick t p tick news ≡ ok r) × Freezes p r)
        ⊎ ((e : DecimalError) × (process_tick t p tick news ≡ err e) × Raised t p tick news e)
  process_tick-Freezes p = settle (Freezes p) p λ r c. Course-Freezes t p tick news c

  -- While the server tracks the broker's positions, a cycle comes to an end after which it still does,
  -- and its reconciliation finds no critical discrepancy, unless the arithmetic of the risk engine
  -- raises on the cycle's own signal, and the cycle with it.
  pub process_tick-StaysSynced :
      (p : TradingPipeline)
      → IsSynced p.account_id p.world
      → ((r : Result) × (process_tick t p tick news ≡ ok r) × StaysSynced p.account_id r)
        ⊎ ((e : DecimalError) × (process_tick t p tick news ≡ err e) × Raised t p tick news e)
  process_tick-StaysSynced p h =
      settle (StaysSynced p.account_id) p λ r c. Course-IsSynced t p tick news h c
