-- ===== src/Services/RiskService/Decisions.antt =====
-- What a recorded decision means against the rows of the database.
use aurexis.Base.{
  String, false, ◌≡◌, refl, ◌⊎◌, inl, inr, none, some, [], ◌∷◌, ◌++◌, arith, Bool-cases,
  Option-cases, subst,
}
use aurexis.Decimal.{Checked, ok, err, ◌>>=◌}
use aurexis.Risk.Config.{RiskConfig, default_config}
use aurexis.Risk.Snapshot.{AccountRiskSnapshot, MarketCondition, RiskDecision, trading_allowed}
use aurexis.Risk.Gates.{Runtime}
use aurexis.Risk.Engine.{evaluate}
use aurexis.Risk.Engine.Approval.{EntryPermitted, IsCoherent, evaluate-IsCoherent}
use aurexis.Risk.Engine.Entry.{allowed-EntryPermitted}
use aurexis.Services.Database.{SignalRow, RiskConfigurationRow, Database, record_audit_event}
use aurexis.Services.RiskService.{
  config_of, latest_configuration, get_latest_risk_config, build_account_risk_snapshot,
  as_candidate, decision_row, evaluate_and_record_risk,
}

invert :
    (v : Checked RiskDecision) (write : RiskDecision → Database) (d : RiskDecision) (db : Database)
    → ◌>>=◌ {B = RiskDecision × Database} v (λ x. ok (x, write x)) ≡ ok (d, db)
    → (v ≡ ok d) × (db ≡ write d)
invert (ok a) write d db h = (cc, cc)
invert (err e) write d db h = cc

-- Trading is not allowed, or the account has a configuration and every condition of an entry holds
-- for its latest one, on the snapshot of the rows and with the lots that the decision authorizes.
abbrev pub Backed : Runtime → String → MarketCondition → String → Database → RiskDecision → Type 0
Backed rt account market news db d =
    (trading_allowed d ≡ false)
    ⊎ ((row : RiskConfigurationRow) × (latest_configuration account db ≡ some row)
        × EntryPermitted rt (config_of row) (build_account_risk_snapshot account rt.now db)
            (some market) (some news) d.authorized_lot_size)

module _ (rt : Runtime) (account : String) (signal : SignalRow) (market : MarketCondition)
    (news correlation_id : String) (db : Database) where
  abbrev verdict : Checked RiskDecision
  verdict =
      evaluate rt (get_latest_risk_config account db) none
        (build_account_risk_snapshot account rt.now db) (some (as_candidate signal)) (some market)
        (some news) (some correlation_id)

  configuration-cases :
      ((latest_configuration account db ≡ none)
        × (get_latest_risk_config account db ≡ default_config))
      ⊎ ((row : RiskConfigurationRow) × (latest_configuration account db ≡ some row)
          × (get_latest_risk_config account db ≡ config_of row))
  unfolding get_latest_risk_config
  configuration-cases = elim (Option-cases (latest_configuration account db)) [
    | inl missing ↦ inl (missing, ground arith)
    | inr (row, found) ↦ inr (row, found, ground arith)
  ]

  abbrev snapshot : AccountRiskSnapshot
  snapshot = build_account_risk_snapshot account rt.now db

  verdict-Backed : (d : RiskDecision) → verdict ≡ ok d → Backed rt account market news db d
  verdict-Backed d h = elim (Bool-cases (trading_allowed d)) [
    | inr stopped ↦ inl stopped
    | inl allowed ↦
        let permitted =
          allowed-EntryPermitted rt (get_latest_risk_config account db) none snapshot
            (some (as_candidate signal)) (some market) (some news) (some correlation_id) d h
            allowed in
        elim configuration-cases [
          | inl (missing, unset) ↦
              let p = subst permitted_with unset permitted in absurd (p.configured.0 refl)
          | inr (row, found, set) ↦ inr (row, found, subst permitted_with set permitted)
        ]
  ]
    where
      permitted_with : RiskConfig → Type 0
      permitted_with c =
          EntryPermitted rt c snapshot (some market) (some news) d.authorized_lot_size

  -- A call that returns has put exactly its decision on record, changed nothing else but the audit
  -- log, and allows trading only where the account has a configuration and every condition of an
  -- entry holds for the latest one on the rows of the database, the stop switch being off, and for
  -- the very lots that the decision authorizes.
  pub evaluate_and_record_risk-Backed :
      (d : RiskDecision) (db' : Database)
      → evaluate_and_record_risk rt account signal market news correlation_id db ≡ ok (d, db')
      → (db'.risk_decisions ≡ db.risk_decisions ++ decision_row account signal d ∷ [])
        × ((record db' { risk_decisions = db.risk_decisions; audit_log = db.audit_log }) ≡ db)
        × IsCoherent d
        × Backed rt account market news db d
  unfolding evaluate_and_record_risk record_audit_event
  evaluate_and_record_risk-Backed d db' h =
      let (decided, written) = invert verdict _ d db' h in
      rw written (
        refl,
        refl,
        evaluate-IsCoherent rt (get_latest_risk_config account db) none snapshot
            (some (as_candidate signal)) (some market) (some news) (some correlation_id) d decided,
        verdict-Backed d decided,
      )
