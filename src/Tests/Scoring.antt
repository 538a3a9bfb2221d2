-- ===== src/Tests/Scoring.antt =====
-- The scorer at a concrete market.
use aurexis.Base.{◌≡◌, refl, some, none}
use aurexis.Decimal
use aurexis.Decimal.{Decimal, dec}
use aurexis.Brain.Interfaces.{SignalDirection}
use aurexis.Brain.MarketData.{Tick}
use aurexis.Brain.Structure.{StructureState, Bias, StructureEvent, Direction}
use aurexis.Brain.Scoring.{
  MultiFactorScorer, RegimeContext, Regime, Trend, TrendStrength, Momentum, Volatility,
  score_structure, score_trend, score_setup, score_momentum, score_volatility, score_regime,
  permits_new_entry,
}
use aurexis.Brain.Scoring.Signals.{evaluate, consider, confidence, compute_sl_tp}
use aurexis.Brain.Scoring.Verdicts.{Verdict, evaluate-Verdict}

-- The defaults of the constructor.
abbrev default_scorer : MultiFactorScorer
default_scorer = record {
  strategy_id = "AUREXIS_CORE";
  strategy_version = "AUREXIS-STRAT-1.0.0";
  min_conf = dec 70 2;
  w_st = dec 25 2;
  w_tr = dec 20 2;
  w_se = dec 25 2;
  w_mo = dec 10 2;
  w_vo = dec 10 2;
  w_re = dec 10 2;
  sl_buffer = dec 50 2;
  min_sl_atr = dec 30 2;
  rr = dec 20 1;
  max_spread = dec 100 2;
}

abbrev quote : Tick
quote = record {
  symbol = "XAUUSD";
  bid = dec 200000 2;
  ask = dec 200020 2;
  tick_time = 0;
  volume = none;
}

abbrev rising : StructureState
rising = record {
  bias = Bias.bullish;
  recent_swing_high = some (dec 2010 0);
  recent_swing_low = some (dec 1995 0);
  last_event = StructureEvent.bos_bullish;
  structural_direction = Direction.up;
}

abbrev up_market : RegimeContext
up_market = record {
  regime = Regime.trend_up;
  trend_direction = Trend.bullish;
  trend_strength = TrendStrength.trending;
  momentum_state = Momentum.bullish;
  atr = some (dec 4 0);
  volatility_state = Volatility.normal;
}

buys :
    (evaluate default_scorer quote rising up_market "CLEAR" "LONG_BREAKOUT").direction
    ≡ SignalDirection.buy
unfolding evaluate consider confidence compute_sl_tp score_structure score_trend score_setup
    score_momentum score_volatility score_regime permits_new_entry Decimal.add Decimal.sub
    Decimal.mul Decimal.ltb_dec Decimal.leb_dec
buys = refl

evaluate-Verdict_example :
    Verdict default_scorer quote rising up_market "LONG_BREAKOUT" "CLEAR"
      (evaluate default_scorer quote rising up_market "CLEAR" "LONG_BREAKOUT")
evaluate-Verdict_example =
    evaluate-Verdict default_scorer quote rising up_market "LONG_BREAKOUT" "CLEAR"
