-- ===== src/Risk/Engine/Permission.antt =====
-- When a new entry is permitted, said without the order of the checks: one condition for each
-- gate of `evaluate`, and the proof that the gate lets pass exactly what meets it.
use aurexis.Base.{
  String, ◌≡◌, ◌≢◌, ◌↔◌, ◌⊎◌, Bool, true, false, not, Option, none, some, arith, eq_iff, ℤ, ltb_ℤ,
}
use aurexis.Decimal
use aurexis.Decimal.{Decimal, ltb_dec, leb_dec}
use aurexis.Risk.Config.{RiskConfig}
use aurexis.Risk.Snapshot.{AccountRiskSnapshot, MarketCondition, effective_spread}
use aurexis.Risk.Gates.{Runtime, profit_lock, staleness_ms, total_daily_pnl, drawdown, total_lots}
use aurexis.Risk.Gates.Checks.{
  market_gate, news_gate, daily_loss_gate, drawdown_gate, profit_lock_gate, positions_gate,
  lots_gate,
}

-- A required limit is met: it is set, and the test holds of it.
abbrev pub Required {ℓ} : {A : Type ℓ} → Option A → (A → Bool) → Type 0
Required none test = ⊥
Required (some limit) test = test limit ≡ true

-- An optional limit is met: it is unset, or the test holds of it.
abbrev pub Optional {ℓ} : {A : Type ℓ} → Option A → (A → Bool) → Type 0
Optional none test = Unit {0}
Optional (some limit) test = test limit ≡ true

abbrev pub at_most_ℤ : ℤ → ℤ → Bool
at_most_ℤ a b = not (ltb_ℤ b a)

abbrev SpreadOk : RiskConfig → MarketCondition → Type 0
SpreadOk config m =
    Optional config.max_spread_usd
      (λ limit. elim (effective_spread m) [ none ↦ true | some spread ↦ leb_dec spread limit ])

-- Without a market condition nothing is asked of the market.
abbrev pub MarketOk : Runtime → RiskConfig → Option MarketCondition → Type 0
MarketOk rt config none = Unit {0}
MarketOk rt config (some m) =
    ((m.market_data_status ≡ "READY") ⊎ (m.market_data_status ≡ "OK"))
    × Optional (staleness_ms rt m) (λ age. at_most_ℤ age config.max_tick_staleness_ms)
    × SpreadOk config m

-- No news state, or one that is none of the six blocking ones.
abbrev pub NewsOk : Option String → Type 0
NewsOk none = Unit {0}
NewsOk (some state) =
    (state ≢ "PRE_EVENT")
    × (state ≢ "IN_EVENT")
    × (state ≢ "POST_EVENT")
    × (state ≢ "UNKNOWN")
    × (state ≢ "PROVIDER_UNAVAILABLE")
    × (state ≢ "STALE")

-- Where the session's figures are known and the lock is active, the floor is kept.
abbrev lock_kept : RiskConfig → Decimal → Decimal → Decimal → Bool
lock_kept config equity session_open peak = elim (leb_dec config.profit_lock_threshold_usd peak) [
  | false ↦ true
  | true ↦ leb_dec (Decimal.mul peak config.profit_lock_floor_pct) (Decimal.sub equity session_open)
]

abbrev pub LockOk : RiskConfig → AccountRiskSnapshot → Type 0
LockOk config s = Optional s.session_open_equity_usd (λ session_open.
    elim s.session_peak_profit_usd [
      | none ↦ true
      | some peak ↦ lock_kept config s.current_equity_usd session_open peak
    ])

abbrev pub LossOk : RiskConfig → AccountRiskSnapshot → Type 0
LossOk config s =
    Optional config.daily_loss_limit_usd (λ limit. ltb_dec (Decimal.neg limit) (total_daily_pnl s))

abbrev pub DrawdownOk : RiskConfig → AccountRiskSnapshot → Type 0
DrawdownOk config s =
    Optional config.max_drawdown_usd (λ limit. ltb_dec (drawdown s) limit)
    × Optional config.max_drawdown_usd (λ limit. elim config.caution_drawdown_pct [
      | none ↦ true
      | some pct ↦ ltb_dec (drawdown s) (Decimal.mul limit pct)
    ])

abbrev pub PositionsOk : RiskConfig → AccountRiskSnapshot → Type 0
PositionsOk config s =
    Optional config.max_open_positions (λ limit. ltb_ℤ s.open_position_count limit)

abbrev pub LotsOk : RiskConfig → AccountRiskSnapshot → Option Decimal → Type 0
LotsOk config s lots = Optional config.max_open_lots (λ limit. leb_dec (total_lots s lots) limit)

module _ (rt : Runtime) (config : RiskConfig) (cid : String) (s : AccountRiskSnapshot) where
  pub market_gate_passes :
      (market : Option MarketCondition)
      → (market_gate rt config cid s market ≡ none) ↔ MarketOk rt config market
  unfolding market_gate leb_dec ltb_dec
  market_gate_passes none = ground arith
  market_gate_passes (some m) =
      ground (arith, eq_iff m.market_data_status "READY", eq_iff m.market_data_status "OK")

  pub news_gate_passes :
      (news : Option String) → (news_gate rt config cid s news ≡ none) ↔ NewsOk news
  unfolding news_gate
  news_gate_passes none = ground arith
  news_gate_passes (some state) = ground (
    arith,
    eq_iff state "PRE_EVENT",
    eq_iff state "IN_EVENT",
    eq_iff state "POST_EVENT",
    eq_iff state "UNKNOWN",
    eq_iff state "PROVIDER_UNAVAILABLE",
    eq_iff state "STALE",
  )

  pub daily_loss_gate_passes : (daily_loss_gate rt config cid s ≡ none) ↔ LossOk config s
  unfolding daily_loss_gate leb_dec ltb_dec
  daily_loss_gate_passes = ground arith

  pub drawdown_gate_passes : (drawdown_gate rt config cid s ≡ none) ↔ DrawdownOk config s
  unfolding drawdown_gate leb_dec ltb_dec
  drawdown_gate_passes = ground arith

  pub profit_lock_gate_passes : (profit_lock_gate rt config cid s ≡ none) ↔ LockOk config s
  unfolding profit_lock_gate profit_lock leb_dec ltb_dec
  profit_lock_gate_passes = ground arith

  pub positions_gate_passes : (positions_gate rt config cid s ≡ none) ↔ PositionsOk config s
  unfolding positions_gate
  positions_gate_passes = ground arith

  pub lots_gate_passes :
      (lots : Option Decimal) → (lots_gate rt config cid s lots ≡ none) ↔ LotsOk config s lots
  unfolding lots_gate leb_dec ltb_dec
  lots_gate_passes lots = ground arith
