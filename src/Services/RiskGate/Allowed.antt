-- ===== src/Services/RiskGate/Allowed.antt =====
-- When the gate allows an entry, said without the order of its checks.
use aurexis.Base.{
  or_else, String, ◌≡◌, refl, ◌↔◌, Bool, true, false, Option, none, some, List, [], ◌∷◌, any, All,
  arith, eq_iff, ltb_ℤ,
}
use aurexis.Decimal.{dec_zero, ltb_dec, leb_dec}
use aurexis.Risk.Snapshot.{Timestamp}
use aurexis.Risk.Gates.{drawdown}
use aurexis.Risk.Gates.Checks.{emergency_gate, daily_loss_gate}
use aurexis.Risk.Engine.Permission.{Optional, LossOk, daily_loss_gate_passes}
use aurexis.Services.RiskGate.{
  Tick, NewsEvent, allow, block, Surroundings, canonical_symbol, normalize_symbol,
  evaluate_freshness, max_staleness, not_negative, RiskDecisionOutput,
}
use aurexis.Services.RiskGate.Checks.{
  all_checks, or_else_value, blackout, kill_switch_check, symbol_check, agent_check, tick_check,
  price_check, account_check, limits_check, news_check, decision_or, tick_used, evaluate_risk_gate,
}

-- The account has an agent, and it is connected, or the caller says so.
abbrev pub AgentOk : Surroundings → Option Bool → Type 0
AgentOk s override = elim s.agent [
  | none ↦ ⊥
  | some agent_id ↦ or_else_value override (s.is_connected agent_id) ≡ true
]

abbrev pub FreshOk : Surroundings → Tick → Type 0
FreshOk s tick = elim tick.received_at [
  | none ↦ ⊥
  | some at ↦ ltb_ℤ (max_staleness s.config) (not_negative (s.runtime.elapsed_ms at)) ≡ false
]

-- 0 < bid < ask, and a spread from 0 to the limit.
abbrev pub PricesOk : Surroundings → Tick → Type 0
PricesOk s tick = elim tick.bid [
  | none ↦ ⊥
  | some bid ↦ elim tick.ask [
    | none ↦ ⊥
    | some ask ↦ elim tick.spread [
      | none ↦ ⊥
      | some spread ↦
          (ltb_dec dec_zero bid ≡ true)
          × (ltb_dec bid ask ≡ true)
          × (leb_dec dec_zero spread ≡ true)
          × Optional s.config.max_spread_usd (λ limit. leb_dec spread limit)
    ]
  ]
]

abbrev pub TickOk : Surroundings → Option Tick → Type 0
TickOk s none = ⊥
TickOk s (some tick) = FreshOk s tick × PricesOk s tick

abbrev pub Quiet : Timestamp → NewsEvent → Type 0
Quiet now ev = blackout now ev ≡ false

-- Everything that ALLOW needs.
pub record EntryAllowed (s : Surroundings) (given : String) (tick : Option Tick)
    (connected : Option Bool) : Type 0 where
  pub switch_off : s.config.emergency_stop_active ≡ false
  pub symbol_ok : normalize_symbol s.strip_upper given ≡ canonical_symbol
  pub agent_ok : AgentOk s connected
  pub tick_ok : TickOk s tick
  pub active : s.account_active ≡ true
  pub equity_ok : ltb_dec dec_zero s.snapshot.current_equity_usd ≡ true
  pub loss_ok : LossOk s.config s.snapshot
  pub drawdown_ok :
      Optional s.config.max_drawdown_usd (λ limit. ltb_dec (drawdown s.snapshot) limit)
  pub quiet : All (Quiet s.runtime.now) s.news

module _ (s : Surroundings) (symbol : String) where
  symbol_check_passes :
      (given : String) → (symbol_check s symbol given ≡ none) ↔ (symbol ≡ canonical_symbol)
  unfolding symbol_check
  symbol_check_passes given = ground (arith, eq_iff symbol canonical_symbol)

  agent_check_passes :
      (override : Option Bool) → (agent_check s symbol override ≡ none) ↔ AgentOk s override
  unfolding agent_check
  agent_check_passes override = ground arith

  tick_checks_pass :
      (tick : Option Tick)
      → ((tick_check s symbol tick ≡ none) × (price_check s symbol tick ≡ none)) ↔ TickOk s tick
  unfolding tick_check price_check evaluate_freshness leb_dec ltb_dec
  tick_checks_pass none = ground arith
  tick_checks_pass (some tick) = ground arith

  account_check_passes :
      (tick : Option Tick)
      → (account_check s symbol tick ≡ none)
        ↔ ((s.account_active ≡ true) × (ltb_dec dec_zero s.snapshot.current_equity_usd ≡ true))
  unfolding account_check leb_dec ltb_dec
  account_check_passes tick = ground arith

  limits_check_passes :
      (tick : Option Tick)
      → (limits_check s symbol tick ≡ none) ↔ (
          LossOk s.config s.snapshot
          × Optional s.config.max_drawdown_usd (λ limit. ltb_dec (drawdown s.snapshot) limit))
  unfolding limits_check leb_dec ltb_dec
  limits_check_passes tick = ground arith

  Quiet-iff :
      (now : Timestamp) (news : List NewsEvent)
      → (any (blackout now) news ≡ false) ↔ All (Quiet now) news
  Quiet-iff now [] = ground arith
  Quiet-iff now (ev ∷ news) = ground (arith, Quiet-iff now news)

  news_check_passes :
      (tick : Option Tick) → (news_check s symbol tick ≡ none) ↔ All (Quiet s.runtime.now) s.news
  unfolding news_check
  news_check_passes tick = ground (arith, Quiet-iff s.runtime.now s.news)

  kill_switch_check_passes :
      (kill_switch_check s symbol ≡ none) ↔ (s.config.emergency_stop_active ≡ false)
  unfolding kill_switch_check
  kill_switch_check_passes = ground arith

-- A check lets pass, or its output is BLOCK.
abbrev Blocks : Option RiskDecisionOutput → Type 0
Blocks none = Unit {0}
Blocks (some output) = output.decision ≡ block

Blocks-or_else : (a b : Option RiskDecisionOutput) → Blocks a → Blocks b → Blocks (or_else a b)
Blocks-or_else none b h k = k
Blocks-or_else (some _) b h k = h

module _ (s : Surroundings) (symbol given : String) (override : Option Bool)
    (tick : Option Tick) where
  checks-Blocks :
      Blocks (kill_switch_check s symbol)
      × Blocks (symbol_check s symbol given)
      × Blocks (agent_check s symbol override)
      × Blocks (tick_check s symbol tick)
      × Blocks (account_check s symbol tick)
      × Blocks (limits_check s symbol tick)
      × Blocks (news_check s symbol tick)
  unfolding kill_switch_check symbol_check agent_check tick_check account_check limits_check
      news_check
  checks-Blocks = ground arith

  price_check-Blocks : Blocks (price_check s symbol tick)
  unfolding price_check
  price_check-Blocks = ground arith

  all_checks-Blocks : Blocks (all_checks s symbol given override tick)
  unfolding all_checks
  all_checks-Blocks =
      let b = checks-Blocks in
      Blocks-or_else _ _ b.0 (
        Blocks-or_else _ _ b.1 (
          Blocks-or_else _ _ b.2 (
            Blocks-or_else _ _ b.3 (
              Blocks-or_else _ _ price_check-Blocks
                (Blocks-or_else _ _ b.4 (Blocks-or_else _ _ b.5 b.6))))))

  all_checks-eq-none :
      symbol ≡ normalize_symbol s.strip_upper given
      → (all_checks s symbol given override tick ≡ none) ↔ EntryAllowed s given tick override
  unfolding all_checks
  all_checks-eq-none e = ground (
    arith,
    kill_switch_check_passes s symbol,
    symbol_check_passes s symbol given,
    agent_check_passes s symbol override,
    tick_checks_pass s symbol tick,
    account_check_passes s symbol tick,
    limits_check_passes s symbol tick,
    news_check_passes s symbol tick,
  )

decision_or-allows :
    (checks : Option RiskDecisionOutput) (last : RiskDecisionOutput)
    → Blocks checks
    → last.decision ≡ allow
    → ((decision_or checks last).decision ≡ allow) ↔ (checks ≡ none)
decision_or-allows none last h e = ground arith
decision_or-allows (some output) last h e = ground arith

-- The gate answers ALLOW exactly when the switch is off, the symbol is XAUUSD, the agent is
-- connected, its tick is fresh with prices in order and a spread within the limit, the account is
-- active with equity, its daily loss and drawdown are within their limits, and no event of high
-- impact is in its window.
pub evaluate_risk_gate_allows_iff :
    (s : Surroundings) (given : String) (override_tick : Option Tick) (connected : Option Bool)
    → ((evaluate_risk_gate s given override_tick connected).decision ≡ allow)
      ↔ EntryAllowed s given (tick_used s given override_tick) connected
unfolding evaluate_risk_gate
evaluate_risk_gate_allows_iff s given override_tick connected =
    let symbol = normalize_symbol s.strip_upper given in
    let tick = tick_used s given override_tick in
    let last =
      decision_or-allows (all_checks s symbol given connected tick) _
        (all_checks-Blocks s symbol given connected tick) refl in
    let all = all_checks-eq-none s symbol given connected tick refl in
    (λ h. all.0 (last.0 h), λ h. last.1 (all.1 h))

-- An entry that the gate allows passes the engine's checks of the emergency stop and of the daily
-- loss, on the same configuration and account.
pub evaluate_risk_gate-engine :
    (s : Surroundings) (given cid : String) (override_tick : Option Tick) (connected : Option Bool)
    → (evaluate_risk_gate s given override_tick connected).decision ≡ allow
    → (emergency_gate s.runtime s.config cid s.snapshot ≡ none)
      × (daily_loss_gate s.runtime s.config cid s.snapshot ≡ none)
unfolding emergency_gate
evaluate_risk_gate-engine s given cid override_tick connected h =
    let ok = (evaluate_risk_gate_allows_iff s given override_tick connected).0 h in
    (
      ground (arith, ok.switch_off),
      (daily_loss_gate_passes s.runtime s.config cid s.snapshot).1 ok.loss_ok,
    )
