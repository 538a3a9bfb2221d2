-- ===== src/Services/RiskService/Peak.antt =====
-- The high-water mark of the snapshot that `build_account_risk_snapshot` gives the engine.
use aurexis.Base.{
  ℕ, String, Bool, true, false, ◌≡◌, refl, ◌⊎◌, inl, inr, Option, none, some, List, [], ◌∷◌, ◌==◌,
  arith, All, subst, sym, Bool-cases, magnitude,
}
use aurexis.Decimal.{Decimal, leb_dec, max_dec}
use aurexis.Decimal.Order.{leb_dec_trans, leb_dec_refl, leb_dec_of_ltb, leb_dec_of_not_ltb}
use aurexis.Services.Database.{EquitySnapshotRow, Database}
use aurexis.Services.RiskService.{
  snapshots_of, max_equity, peak_equity, build_account_risk_snapshot,
}

max_dec_left : (a b : Decimal) → leb_dec a (max_dec a b) ≡ true
unfolding max_dec
max_dec_left a b = ground (arith, leb_dec_of_ltb a b, leb_dec_refl a)

max_dec_right : (a b : Decimal) → leb_dec b (max_dec a b) ≡ true
unfolding max_dec
max_dec_right a b = ground (arith, leb_dec_refl b, leb_dec_of_not_ltb b a)

abbrev pub AtMost : Decimal → EquitySnapshotRow → Type 0
AtMost bound row = leb_dec row.equity_usd bound ≡ true

-- The mark is at least where the search starts, and at least every row.
max_equity-AtMost :
    (best : Decimal) (rows : List EquitySnapshotRow)
    → (h : Decimal) × (max_equity (some best) rows ≡ some h)
      × (leb_dec best h ≡ true)
      × All (AtMost h) rows
unfolding max_equity
max_equity-AtMost best [] = (best, refl, leb_dec_refl best, tt)
max_equity-AtMost best (row ∷ rows) =
    let m = max_dec best row.equity_usd in
    let (h, found, above, rest) = max_equity-AtMost m rows in
    (
      h,
      found,
      leb_dec_trans best m h (max_dec_left best row.equity_usd) above,
      (leb_dec_trans row.equity_usd m h (max_dec_right best row.equity_usd) above, rest),
    )

All-AtMost_trans :
    (a b : Decimal) (rows : List EquitySnapshotRow)
    → leb_dec a b ≡ true
    → All (AtMost a) rows
    → All (AtMost b) rows
All-AtMost_trans a b [] h all = tt
All-AtMost_trans a b (row ∷ rows) h all =
    (leb_dec_trans row.equity_usd a b all.0 h, All-AtMost_trans a b rows h all.1)

-- `hwm or current`: a mark of zero counts as missing.
abbrev pub is_zero_mark : Option Decimal → Bool
is_zero_mark none = false
is_zero_mark (some h) = magnitude h.coeff == 0

peak_equity-current :
    (hwm : Option Decimal) (current : Decimal) → leb_dec current (peak_equity hwm current) ≡ true
unfolding peak_equity
peak_equity-current none current =
    ground (arith, leb_dec_refl current, leb_dec_of_not_ltb current current)
peak_equity-current (some h) current =
    ground (arith, leb_dec_refl current, leb_dec_of_not_ltb current h)

peak_equity-mark :
    (h current : Decimal)
    → (magnitude h.coeff == 0) ≡ false
    → leb_dec h (peak_equity (some h) current) ≡ true
unfolding peak_equity
peak_equity-mark h current nonzero = ground (arith, leb_dec_refl h, leb_dec_of_ltb h current)

peak_equity-AtMost :
    (current : Decimal) (rows : List EquitySnapshotRow)
    → (is_zero_mark (max_equity none rows) ≡ true)
      ⊎ All (AtMost (peak_equity (max_equity none rows) current)) rows
unfolding max_equity
peak_equity-AtMost current [] = inr tt
peak_equity-AtMost current (row ∷ rows) =
    let (h, found, above, rest) = max_equity-AtMost row.equity_usd rows in
    subst (λ m. (is_zero_mark m ≡ true) ⊎ All (AtMost (peak_equity m current)) (row ∷ rows))
      (sym found)
      (elim (Bool-cases (magnitude h.coeff == 0)) [
        | inl zero_mark ↦ inl zero_mark
        | inr nonzero ↦
            let over = peak_equity-mark h current nonzero in
            inr (
              leb_dec_trans row.equity_usd h (peak_equity (some h) current) above over,
              All-AtMost_trans h (peak_equity (some h) current) rows over rest,
            )
      ])

-- The peak that the engine measures the drawdown from is at least the current equity, and at least
-- the equity of every snapshot of the account, unless the greatest of them is zero.
pub build_account_risk_snapshot-AtMost :
    (account : String) (now : ℕ) (db : Database)
    → let s = build_account_risk_snapshot account now db in
      (leb_dec s.current_equity_usd s.equity_peak_usd ≡ true)
      × ((is_zero_mark (max_equity none (snapshots_of account db)) ≡ true)
          ⊎ All (AtMost s.equity_peak_usd) (snapshots_of account db))
unfolding build_account_risk_snapshot
build_account_risk_snapshot-AtMost account now db = (
  peak_equity-current (max_equity none (snapshots_of account db)) _,
  peak_equity-AtMost _ (snapshots_of account db),
)
