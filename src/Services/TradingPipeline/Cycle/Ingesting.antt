-- ===== src/Services/TradingPipeline/Cycle/Ingesting.antt =====
-- The arithmetic of a tick that is taken in does not raise.
use aurexis.Base.{Dict, String, refl, not, Option, none, [], ◌∷◌}
use aurexis.Decimal.{dec, ok, add}
use aurexis.Decimal.Returning.{Returns, bind-Returns, if-Returns}
use aurexis.Decimal.Signs.{div_returns}
use aurexis.Brain.MarketData.{Tick, Bar, mid}
use aurexis.Brain.BarBuilder.{BarBuilder}
use aurexis.Brain.BarBuilder
use aurexis.Brain.BarManager.{BarManager, is_valid, validate_tick, ingest_tick, update_builders}

process_tick_builder-Returns :
    (b : BarBuilder) (tick : Tick) → Returns (BarBuilder.process_tick b tick)
unfolding BarBuilder.process_tick
process_tick_builder-Returns b tick =
    bind-Returns (mid tick) _ (div_returns (add tick.bid tick.ask) (dec 2 0) refl)
      λ price. (_, refl)

update_builders-Returns :
    (tick : Tick) (builders : Dict String BarBuilder) → Returns (update_builders tick builders)
unfolding update_builders
update_builders-Returns tick [] = (([], []), refl)
update_builders-Returns tick ((tf, b) ∷ rest) =
    bind-Returns (BarBuilder.process_tick b tick) _ (process_tick_builder-Returns b tick)
      λ (updated : Option Bar × BarBuilder).
        bind-Returns (update_builders tick rest) _ (update_builders-Returns tick rest)
          λ (others : Dict String Bar × Dict String BarBuilder). (_, refl)

pub ingest_tick-Returns : (m : BarManager) (tick : Tick) → Returns (ingest_tick m tick)
unfolding ingest_tick
ingest_tick-Returns m tick =
    if-Returns (not (is_valid (validate_tick m tick))) (ok none) _ (λ bad. (none, refl))
      λ good.
        bind-Returns (update_builders tick m.builders) _ (update_builders-Returns tick m.builders)
          λ (updated : Dict String Bar × Dict String BarBuilder). (_, refl)
