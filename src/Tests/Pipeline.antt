-- ===== src/Tests/Pipeline.antt =====
-- The trading pipeline at concrete inputs: a frozen account, and a first cycle on a fresh one.
use aurexis.Base.{◌≡◌, refl, ◌⊎◌, true, none, some, Option, [], ◌∷◌, pos, lookup, String_key}
use aurexis.Decimal
use aurexis.Decimal.{DecimalError, Decimal, dec, Checked, ok, err, IfOk}
use aurexis.Brain.MarketData.{Tick, Bar}
use aurexis.Brain.Config.{default_strat_config}
use aurexis.Brain.BarBuilder.{BarBuilder, begin, bucket_start, process_price}
use aurexis.Brain.BarBuilder
use aurexis.Brain.BarManager.{
  BarManager, validate_tick, is_stale, is_spread_acceptable, ingest_tick, update_builders,
  get_closed_bars,
}
use aurexis.Brain.BarManager.Streams.{IsSound, ingest_tick-Independent}
use aurexis.Execution.Simulator.{get_open_positions}
use aurexis.Services.ExecutionService.Sync.{IsSynced}
use aurexis.Services.TradingPipeline.{
  TradingPipeline, Moments, stopped, account_frozen, is_account_frozen,
}
use aurexis.Services.TradingPipeline.Cycle.{Result, process_tick, ingested, with_bars}
use aurexis.Services.TradingPipeline.Cycle.Guards.{Untouched, Raised}
use aurexis.Services.TradingPipeline.Cycle.Orders.{Ordered}
use aurexis.Services.TradingPipeline.Cycle.Settling.{
  process_tick_lem, process_tick-Freezes, process_tick-StaysSynced,
}
use aurexis.Services.TradingPipeline.Cycle.Freeze.{Freezes, here, later, Reach-Untouched}
use aurexis.Services.TradingPipeline.Cycle.Sync.{StaysSynced}
use aurexis.Tests.Orders.{fresh_world, first_dispatch}

abbrev last_closed : Bar
last_closed = record {
  symbol = "XAUUSD";
  timeframe = "M5";
  open_time = 0;
  close_time = 300000000;
  open_price = dec 2000 0;
  high_price = dec 2001 0;
  low_price = dec 1999 0;
  close_price = dec 2000 0;
  volume = dec 1 0;
  is_closed = true;
}

abbrev five_minutes : BarBuilder
five_minutes = record {
  symbol = "XAUUSD";
  timeframe = "M5";
  interval_seconds = 300;
  running = none;
  closed_bars = last_closed ∷ [];
}

abbrev manager : BarManager
manager = record {
  symbol = "XAUUSD";
  max_spread_usd = dec 200 2;
  staleness_threshold = 10000000;
  builders = ("M5", five_minutes) ∷ [];
  last_tick = none;
  tick_count = 0;
}

abbrev fresh_pipeline : TradingPipeline
fresh_pipeline = record {
  account_id = "a1";
  primary_timeframe = "M5";
  signal_expiry_seconds = 60;
  bar_manager = manager;
  brain = default_strat_config;
  frozen_accounts = [];
  world = fresh_world;
}

abbrev frozen_pipeline : TradingPipeline
frozen_pipeline = record fresh_pipeline { frozen_accounts = ("a1", "operator") ∷ [] }

abbrev gold_tick : Tick
gold_tick = record {
  symbol = "XAUUSD";
  bid = dec 200000 2;
  ask = dec 200020 2;
  tick_time = 301000000;
  volume = none;
}

abbrev moments : Moments
moments = record {
  correlation_id = "r1";
  signal_id = "s1";
  received_at = 301000000;
  ready_at = 301000100;
  brain_at = 301000200;
  generated_at = 301000300;
  expiry_from = 301000300;
  checked_at = 301000400;
  aged_at = 301000500;
  risk = record { now = 301000600; elapsed_ms = λ t. pos 1; fresh_id = "f1" };
  dispatch = first_dispatch;
}

fresh_pipeline-IsSynced : IsSynced "a1" fresh_world
unfolding get_open_positions
fresh_pipeline-IsSynced = record { tracked = tt; held = tt; given_out = tt }

process_tick_lem_example :
    ((r : Result) × (process_tick moments fresh_pipeline gold_tick "CLEAR" ≡ ok r)
      × (Untouched fresh_pipeline r.1 ⊎ Ordered moments fresh_pipeline gold_tick "CLEAR" r.1))
    ⊎ ((e : DecimalError) × (process_tick moments fresh_pipeline gold_tick "CLEAR" ≡ err e)
        × Raised moments fresh_pipeline gold_tick "CLEAR" e)
process_tick_lem_example = process_tick_lem moments gold_tick "CLEAR" fresh_pipeline

process_tick-Freezes_example :
    ((r : Result) × (process_tick moments fresh_pipeline gold_tick "CLEAR" ≡ ok r)
      × Freezes fresh_pipeline r)
    ⊎ ((e : DecimalError) × (process_tick moments fresh_pipeline gold_tick "CLEAR" ≡ err e)
        × Raised moments fresh_pipeline gold_tick "CLEAR" e)
process_tick-Freezes_example = process_tick-Freezes moments gold_tick "CLEAR" fresh_pipeline

process_tick-StaysSynced_example :
    ((r : Result) × (process_tick moments fresh_pipeline gold_tick "CLEAR" ≡ ok r)
      × StaysSynced "a1" r)
    ⊎ ((e : DecimalError) × (process_tick moments fresh_pipeline gold_tick "CLEAR" ≡ err e)
        × Raised moments fresh_pipeline gold_tick "CLEAR" e)
process_tick-StaysSynced_example =
    process_tick-StaysSynced moments gold_tick "CLEAR" fresh_pipeline fresh_pipeline-IsSynced

-- The manager after the tick: a bar is running.
abbrev five_minutes_on : BarBuilder
five_minutes_on = record five_minutes {
  running = some (begin 300000000 (dec 2000100000000000000000000000 24) (dec 1 0));
}

abbrev manager_on : BarManager
manager_on = record manager {
  builders = ("M5", five_minutes_on) ∷ [];
  last_tick = some gold_tick;
  tick_count = 1;
}

manager_takes : ingest_tick manager gold_tick ≡ ok (some ([], manager_on))
unfolding ingest_tick validate_tick update_builders BarBuilder.process_tick process_price
    bucket_start Decimal.leb_dec Decimal.ltb_dec Decimal.div Decimal.add
manager_takes = refl

ingest_tick-Independent_example :
    IsSound manager gold_tick
    × (manager_on.last_tick ≡ some gold_tick)
    × (manager_on.tick_count ≡ 1)
    × ((u : Option Bar × BarBuilder) × (BarBuilder.process_tick five_minutes gold_tick ≡ ok u)
        × (lookup "M5" manager_on.builders ≡ some u.1))
unfolding lookup
ingest_tick-Independent_example =
    ingest_tick-Independent manager gold_tick "M5" five_minutes [] manager_on refl manager_takes

frozen_cycle :
    process_tick moments frozen_pipeline gold_tick "CLEAR"
    ≡ ok (
      some (stopped account_frozen gold_tick),
      record frozen_pipeline { bar_manager = manager_on },
    )
unfolding process_tick validate_tick ingest_tick update_builders BarBuilder.process_tick
    process_price bucket_start Decimal.leb_dec Decimal.ltb_dec Decimal.div Decimal.add ingested
    is_stale is_spread_acceptable get_closed_bars with_bars is_account_frozen Decimal.sub lookup
frozen_cycle = refl

Reach-Untouched_example :
    Untouched frozen_pipeline (record frozen_pipeline { bar_manager = manager_on })
    × (is_account_frozen "a1" (record frozen_pipeline { bar_manager = manager_on }) ≡ true)
unfolding is_account_frozen lookup
Reach-Untouched_example =
    Reach-Untouched frozen_pipeline (record frozen_pipeline { bar_manager = manager_on }) refl
      (later frozen_pipeline moments gold_tick "CLEAR" (some (stopped account_frozen gold_tick))
        (record frozen_pipeline { bar_manager = manager_on }) here frozen_cycle)
