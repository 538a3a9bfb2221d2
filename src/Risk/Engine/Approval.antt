-- ===== src/Risk/Engine/Approval.antt =====
-- When `evaluate` approves, and how its decision and its state agree.
use aurexis.Base.{
  String, ◌≡◌, refl, ◌≢◌, ◌↔◌, ◌⊎◌, Bool, true, false, Option, none, some, arith, [],
}
use aurexis.Decimal.{Decimal, Checked, ok, err, ◌>>=◌}
use aurexis.Brain.Interfaces.{CandidateSignal}
use aurexis.Risk.States.{RiskState, SignalDecision, trading_allowed_in}
use aurexis.Risk.Config.{RiskConfig, is_fully_configured, missing_parameters}
use aurexis.Risk.Sizing.{PositionSizingPolicy}
use aurexis.Risk.Snapshot.{AccountRiskSnapshot, MarketCondition, RiskDecision, trading_allowed}
use aurexis.Risk.Gates.{Runtime, correlation}
use aurexis.Risk.Gates.Checks.{emergency_gate, configuration_gate, lots_gate, approval}
use aurexis.Risk.Engine.{authorized_lots, returned_or, early_decision, late_decision, evaluate}
use aurexis.Risk.Engine.Refusal.{fits, IsRefusal, early_decision-IsRefusal, lots_gate-IsRefusal}
use aurexis.Risk.Engine.Permission.{
  MarketOk, NewsOk, LossOk, DrawdownOk, LockOk, PositionsOk, LotsOk, market_gate_passes,
  news_gate_passes, daily_loss_gate_passes, drawdown_gate_passes, profit_lock_gate_passes,
  positions_gate_passes, lots_gate_passes,
}

abbrev pub IsConfigured : RiskConfig → Type 0
IsConfigured c =
    (c.daily_loss_limit_usd ≢ none)
    × (c.max_drawdown_usd ≢ none)
    × (c.max_open_positions ≢ none)
    × ((c.risk_per_trade_pct ≢ none) ⊎ (c.default_position_size_lots ≢ none))

is_fully_configured_iff : (c : RiskConfig) → (is_fully_configured c ≡ true) ↔ IsConfigured c
unfolding is_fully_configured
is_fully_configured_iff c = ground arith

-- The list of missing names is empty exactly when the configuration is complete.
pub missing_parameters-eq-nil : (c : RiskConfig) → (missing_parameters c ≡ []) ↔ IsConfigured c
unfolding missing_parameters
missing_parameters-eq-nil c = ground arith

-- Everything that a new entry needs, with the lots that it proposes.
pub record EntryPermitted (rt : Runtime) (config : RiskConfig) (snapshot : AccountRiskSnapshot)
    (market : Option MarketCondition) (news : Option String) (lots : Option Decimal) : Type 0 where
  pub stop_off : config.emergency_stop_active ≡ false
  pub configured : IsConfigured config
  pub market_ok : MarketOk rt config market
  pub news_ok : NewsOk news
  pub loss_ok : LossOk config snapshot
  pub drawdown_ok : DrawdownOk config snapshot
  pub lock_ok : LockOk config snapshot
  pub positions_ok : PositionsOk config snapshot
  pub lots_ok : LotsOk config snapshot lots

-- The state goes with the decision, and trading is allowed exactly in NORMAL, with lots only then.
abbrev pub IsCoherent : RiskDecision → Type 0
IsCoherent d =
    (fits d.decision d.risk_state ≡ true)
    × (trading_allowed d ≡ trading_allowed_in d.risk_state)
    × ((trading_allowed d ≡ true) ⊎ (d.authorized_lot_size ≡ none))

-- The call returned, with this decision.
abbrev pub Decides : Checked RiskDecision → SignalDecision → Type 0
Decides (ok r) d = r.decision ≡ d
Decides (err _) d = ⊥

abbrev pub approves : Checked RiskDecision → Bool
approves (ok d) = trading_allowed d
approves (err _) = false

module _ (rt : Runtime) (config : RiskConfig) (s : AccountRiskSnapshot)
    (market : Option MarketCondition) (news correlation_id : Option String) where
  abbrev cid : String
  cid = correlation rt correlation_id

  -- The first eight checks let pass exactly what meets their conditions.
  early_decision-eq-none : (early_decision rt config s market news correlation_id ≡ none) ↔ (
      (config.emergency_stop_active ≡ false)
      × IsConfigured config
      × MarketOk rt config market
      × NewsOk news
      × LossOk config s
      × DrawdownOk config s
      × LockOk config s
      × PositionsOk config s)
  unfolding early_decision emergency_gate configuration_gate
  early_decision-eq-none = ground (
    arith,
    is_fully_configured_iff config,
    market_gate_passes rt config cid s market,
    news_gate_passes rt config cid s news,
    daily_loss_gate_passes rt config cid s,
    drawdown_gate_passes rt config cid s,
    profit_lock_gate_passes rt config cid s,
    positions_gate_passes rt config cid s,
  )

-- Two stages that may refuse, and an approval behind them.
approves_iff_passed :
    (early late : Option RiskDecision) (ap : RiskDecision)
    → IsRefusal early
    → IsRefusal late
    → ap.decision ≡ SignalDecision.approved
    → (approves (returned_or early ok (returned_or late ok (ok ap))) ≡ true)
      ↔ ((early ≡ none) × (late ≡ none))
unfolding trading_allowed
approves_iff_passed early late ap h k e = ground arith

IsCoherent-stages :
    (early : Option RiskDecision) (sized : Checked (Option Decimal))
    (late : Option Decimal → Option RiskDecision) (ap : Option Decimal → RiskDecision)
    (d : RiskDecision)
    → IsRefusal early
    → ((l : Option Decimal) → IsRefusal (late l))
    → ((l : Option Decimal)
        → ap l
          ≡ record (ap l) { decision = SignalDecision.approved; risk_state = RiskState.normal })
    → returned_or early ok (sized >>= λ l. returned_or (late l) ok (ok (ap l))) ≡ ok d
    → IsCoherent d
unfolding trading_allowed trading_allowed_in
IsCoherent-stages (some r) sized late ap d h k e q = ground arith
IsCoherent-stages none (err x) late ap d h k e q = cc
IsCoherent-stages none (ok l) late ap d h k e q = ground (arith, k l, e l)

pub evaluate-approves_iff :
    (rt : Runtime) (config : RiskConfig) (policy : Option PositionSizingPolicy)
    (s : AccountRiskSnapshot) (signal : Option CandidateSignal) (market : Option MarketCondition)
    (news correlation_id : Option String) (lots : Option Decimal)
    → authorized_lots config policy signal s.current_equity_usd ≡ ok lots
    → (approves (evaluate rt config policy s signal market news correlation_id) ≡ true)
      ↔ EntryPermitted rt config s market news lots
unfolding evaluate late_decision approval
evaluate-approves_iff rt config policy s signal market news correlation_id lots sized = rw sized (
    ground (
      arith,
      approves_iff_passed (early_decision rt config s market news correlation_id)
          (lots_gate rt config (correlation rt correlation_id) s lots)
          (approval rt config (correlation rt correlation_id) s lots)
          (early_decision-IsRefusal rt config s market news correlation_id)
          (lots_gate-IsRefusal rt config (correlation rt correlation_id) s lots),
      early_decision-eq-none rt config s market news correlation_id,
      lots_gate_passes rt config (correlation rt correlation_id) s lots,
    ))

-- Every decision that `evaluate` returns is coherent: its state is one that goes with it, trading
-- is allowed exactly in the state NORMAL, and a decision that is no approval authorizes no lots.
pub evaluate-IsCoherent :
    (rt : Runtime) (config : RiskConfig) (policy : Option PositionSizingPolicy)
    (s : AccountRiskSnapshot) (signal : Option CandidateSignal) (market : Option MarketCondition)
    (news correlation_id : Option String) (d : RiskDecision)
    → evaluate rt config policy s signal market news correlation_id ≡ ok d
    → IsCoherent d
unfolding evaluate late_decision approval
evaluate-IsCoherent rt config policy s signal market news correlation_id d e =
    IsCoherent-stages _ _ (lots_gate rt config (correlation rt correlation_id) s)
      (approval rt config (correlation rt correlation_id) s) d
      (early_decision-IsRefusal rt config s market news correlation_id)
      (lots_gate-IsRefusal rt config (correlation rt correlation_id) s) (λ l. refl) e

-- The emergency stop and then an incomplete configuration decide before anything else is read,
-- sizing included, so nothing that sizing raises hides them.
pub evaluate_precedence :
    (rt : Runtime) (config : RiskConfig) (policy : Option PositionSizingPolicy)
    (s : AccountRiskSnapshot) (signal : Option CandidateSignal) (market : Option MarketCondition)
    (news correlation_id : Option String)
    → let r = evaluate rt config policy s signal market news correlation_id in
      ((config.emergency_stop_active ≡ true) × Decides r SignalDecision.emergency)
      ⊎ (((config.emergency_stop_active ≡ false)
            × (¬ IsConfigured config)
            × Decides r SignalDecision.not_configured)
          ⊎ ((config.emergency_stop_active ≡ false) × IsConfigured config))
unfolding evaluate early_decision emergency_gate configuration_gate
evaluate_precedence rt config policy s signal market news correlation_id =
    ground (arith, is_fully_configured_iff config)
