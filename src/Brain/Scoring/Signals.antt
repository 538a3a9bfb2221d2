-- ===== src/Brain/Scoring/Signals.antt =====
-- `MultiFactorScorer.evaluate` and `_compute_sl_tp` of brain/scoring.py.
use aurexis.Base.{
  String, true, not, ◌||◌, Option, none, some, ◌==◌, str_eq, magnitude, if◌then◌else◌,
}
use aurexis.Decimal
use aurexis.Decimal.{Decimal, dec, ltb_dec, leb_dec}
use aurexis.Brain.Interfaces.{CandidateSignal, SignalDirection}
use aurexis.Brain.MarketData.{Tick}
use aurexis.Brain.Structure.{StructureState}
use aurexis.Brain.Scoring.{
  RegimeContext, permits_new_entry, Side, buy, sell, score_structure, score_trend, score_setup,
  score_momentum, score_volatility, score_regime, MultiFactorScorer,
}

abbrev pub spread : Tick → Decimal
spread tick = Decimal.sub tick.ask tick.bid

-- The weighted sum, added from the left.
unfoldable pub confidence :
    MultiFactorScorer → Side → StructureState → RegimeContext → String → Decimal
confidence m d structure reg setup =
    let st = Decimal.mul (score_structure d structure) m.w_st in
    let tr = Decimal.mul (score_trend d reg) m.w_tr in
    let se = Decimal.mul (score_setup d setup) m.w_se in
    let mo = Decimal.mul (score_momentum d reg) m.w_mo in
    let vo = Decimal.mul (score_volatility reg) m.w_vo in
    let re = Decimal.mul (score_regime d reg) m.w_re in
    Decimal.add (Decimal.add (Decimal.add (Decimal.add (Decimal.add st tr) se) mo) vo) re

-- `regime_ctx.atr or Decimal("1.0")`: an average range of zero counts as missing.
abbrev pub range_or_one : Option Decimal → Decimal
range_or_one none = dec 10 1
range_or_one (some atr) = if magnitude atr.coeff == 0 then dec 10 1 else atr

abbrev pub entry_price : Tick → Side → Decimal
entry_price tick buy = tick.ask
entry_price tick sell = tick.bid

-- The level behind which the stop stands: the last swing on that side of the entry, or one average
-- range away.
abbrev below : Option Decimal → Decimal → Decimal → Decimal
below none entry atr = Decimal.sub entry atr
below (some swing) entry atr = if ltb_dec swing entry then swing else Decimal.sub entry atr

abbrev above : Option Decimal → Decimal → Decimal → Decimal
above none entry atr = Decimal.add entry atr
above (some swing) entry atr = if ltb_dec entry swing then swing else Decimal.add entry atr

abbrev stop_for : MultiFactorScorer → Tick → StructureState → Decimal → Side → Decimal
stop_for m tick structure atr buy =
    Decimal.sub (below structure.recent_swing_low tick.ask atr) (Decimal.mul atr m.sl_buffer)
stop_for m tick structure atr sell =
    Decimal.add (above structure.recent_swing_high tick.bid atr) (Decimal.mul atr m.sl_buffer)

abbrev risk_to : Tick → Decimal → Side → Decimal
risk_to tick sl buy = Decimal.sub tick.ask sl
risk_to tick sl sell = Decimal.sub sl tick.bid

abbrev target : MultiFactorScorer → Tick → Decimal → Side → Decimal
target m tick risk buy = Decimal.add tick.ask (Decimal.mul risk m.rr)
target m tick risk sell = Decimal.sub tick.bid (Decimal.mul risk m.rr)

unfoldable pub compute_sl_tp :
    MultiFactorScorer → Tick → StructureState → Decimal → Side → Option (Decimal × Decimal)
compute_sl_tp m tick structure atr d =
    let sl = stop_for m tick structure atr d in
    let risk = risk_to tick sl d in
    if ltb_dec risk (Decimal.mul atr m.min_sl_atr) then none else some (sl, target m tick risk d)

abbrev pub direction_of : Side → SignalDirection
direction_of buy = SignalDirection.buy
direction_of sell = SignalDirection.sell

abbrev pub no_signal : MultiFactorScorer → Tick → CandidateSignal
no_signal m tick = record {
  symbol = tick.symbol;
  direction = SignalDirection.no_direction;
  confidence_score = some (dec 0 1);
  suggested_stop_loss = none;
  suggested_take_profit = none;
  strategy_id = m.strategy_id;
  strategy_version = m.strategy_version;
  is_configured = true;
  entry_reference = none;
}

abbrev pub directed_signal :
    MultiFactorScorer → Tick → Side → Decimal → Decimal × Decimal → CandidateSignal
directed_signal m tick d conf (sl, tp) = record (no_signal m tick) {
  direction = direction_of d;
  confidence_score = some conf;
  suggested_stop_loss = some sl;
  suggested_take_profit = some tp;
  entry_reference = some (entry_price tick d);
}

-- The state of the loop: `best_signal` and `best_conf`.
abbrev pub Best : Type 0
Best = CandidateSignal × Decimal

abbrev better : MultiFactorScorer → Tick → Side → Decimal → Option (Decimal × Decimal) → Best → Best
better m tick d conf none best = best
better m tick d conf (some levels) best = (directed_signal m tick d conf levels, conf)

-- The body of the loop for one side.
unfoldable pub consider :
    MultiFactorScorer → Tick → StructureState → RegimeContext → String → Side → Best → Best
consider m tick structure reg setup d best =
    let conf = confidence m d structure reg setup in
    if ltb_dec conf m.min_conf || leb_dec conf best.1
    then best
    else better m tick d conf (compute_sl_tp m tick structure (range_or_one reg.atr) d) best

unfoldable pub evaluate :
    MultiFactorScorer → Tick → StructureState → RegimeContext → String → String → CandidateSignal
evaluate m tick structure reg news_state setup_type =
    if not (str_eq news_state "CLEAR")
    then no_signal m tick
    else if ltb_dec m.max_spread (spread tick)
    then no_signal m tick
    else if not (permits_new_entry reg)
    then no_signal m tick
    else (consider m tick structure reg setup_type sell
        (consider m tick structure reg setup_type buy (no_signal m tick, dec 0 1))).0
