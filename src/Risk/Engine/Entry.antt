-- ===== src/Risk/Engine/Entry.antt =====
-- What an approval of `evaluate` means, whether or not sizing can raise.
use aurexis.Base.{String, true, ◌≡◌, refl, Option, none, some, arith}
use aurexis.Decimal.{Decimal, Checked, ok, err, ◌>>=◌}
use aurexis.Brain.Interfaces.{CandidateSignal}
use aurexis.Risk.Config.{RiskConfig}
use aurexis.Risk.Sizing.{PositionSizingPolicy}
use aurexis.Risk.Snapshot.{AccountRiskSnapshot, MarketCondition, RiskDecision, trading_allowed}
use aurexis.Risk.Gates.{Runtime, correlation}
use aurexis.Risk.Gates.Checks.{lots_gate, approval}
use aurexis.Risk.Engine.{authorized_lots, returned_or, late_decision, evaluate}
use aurexis.Risk.Engine.Refusal.{IsRefusal, early_decision-IsRefusal, lots_gate-IsRefusal}
use aurexis.Risk.Engine.Approval.{EntryPermitted, evaluate-approves_iff}

-- Two stages that may refuse, with sizing between them: who allows trading is the approval of the
-- lots that sizing gave.
allowed-stages :
    (early : Option RiskDecision) (sized : Checked (Option Decimal))
    (late : Option Decimal → Option RiskDecision) (ap : Option Decimal → RiskDecision)
    (d : RiskDecision)
    → IsRefusal early
    → ((l : Option Decimal) → IsRefusal (late l))
    → ((l : Option Decimal) → (ap l).authorized_lot_size ≡ l)
    → returned_or early ok (sized >>= λ l. returned_or (late l) ok (ok (ap l))) ≡ ok d
    → trading_allowed d ≡ true
    → sized ≡ ok d.authorized_lot_size
unfolding trading_allowed
allowed-stages (some r) sized late ap d h k e q t = absurd (ground arith)
allowed-stages none (err x) late ap d h k e q t = cc
allowed-stages none (ok l) late ap d h k e q t = ground (arith, k l, e l)

module _ (rt : Runtime) (config : RiskConfig) (policy : Option PositionSizingPolicy)
    (s : AccountRiskSnapshot) (signal : Option CandidateSignal) (market : Option MarketCondition)
    (news correlation_id : Option String) (d : RiskDecision) where
  authorized_lots-allowed :
      evaluate rt config policy s signal market news correlation_id ≡ ok d
      → trading_allowed d ≡ true
      → authorized_lots config policy signal s.current_equity_usd ≡ ok d.authorized_lot_size
  unfolding evaluate late_decision approval
  authorized_lots-allowed e t =
      allowed-stages _ _ (lots_gate rt config (correlation rt correlation_id) s)
        (approval rt config (correlation rt correlation_id) s) d
        (early_decision-IsRefusal rt config s market news correlation_id)
        (lots_gate-IsRefusal rt config (correlation rt correlation_id) s) (λ l. refl) e t

  pub allowed-EntryPermitted :
      evaluate rt config policy s signal market news correlation_id ≡ ok d
      → trading_allowed d ≡ true
      → EntryPermitted rt config s market news d.authorized_lot_size
  allowed-EntryPermitted e t =
      (evaluate-approves_iff rt config policy s signal market news correlation_id
          d.authorized_lot_size (authorized_lots-allowed e t)).0
        (rw e t)
