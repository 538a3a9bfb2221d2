-- ===== src/Risk/Sizing.antt =====
-- backend/risk/sizing.py: the lot size that a risk budget authorizes. `none` inside `ok` is the
-- code's `None`; `err` is an exception of the decimal module.
mod Steps
pub mod Budget
use aurexis.Base.{Option, none, some, if◌then◌else◌}
use aurexis.Decimal
use aurexis.Decimal.{
  Decimal, dec, dec_zero, Checked, ok, ◌>>=◌, ltb_dec, leb_dec, mul, div, quantize, down, half_even,
}

pub record PercentageEquitySizingPolicy : Type 0 where
  pub risk_per_trade_pct : Decimal
  pub contract_size : Decimal
  pub min_lot : Decimal
  pub max_lot : Option Decimal
  pub lot_step : Decimal

-- The constructor's defaults.
abbrev pub percentage_policy : Decimal → PercentageEquitySizingPolicy
percentage_policy pct = record {
  risk_per_trade_pct = pct;
  contract_size = dec 100 0;
  min_lot = dec 1 2;
  max_lot = none;
  lot_step = dec 1 2;
}

-- The classes that implement the protocol `PositionSizingPolicy`.
pub data PositionSizingPolicy : Type 0 where
  percentage_equity : PercentageEquitySizingPolicy → PositionSizingPolicy
  fixed_lot : Decimal → PositionSizingPolicy

-- `if self.max_lot is not None and lots > self.max_lot: lots = self.max_lot`
abbrev cap_lots : Option Decimal → Decimal → Decimal
cap_lots none lots = lots
cap_lots (some limit) lots = if ltb_dec limit lots then limit else lots

-- From the raw lots on: down to the lot step, the minimum, the cap.
unfoldable pub round_lots : PercentageEquitySizingPolicy → Decimal → Checked (Option Decimal)
round_lots p raw_lots = do
  per_step ← div raw_lots p.lot_step
  steps ← quantize down 0 per_step
  let lots = mul steps p.lot_step
  if ltb_dec lots p.min_lot then ok none else do
    lot_size ← quantize half_even p.lot_step.scale (cap_lots p.max_lot lots)
    ok (some lot_size)

-- The part after the three guards.
unfoldable pub sized_lots :
    PercentageEquitySizingPolicy → Decimal → Decimal → Checked (Option Decimal)
unfolding round_lots
sized_lots p equity_usd stop_distance = do
  let risk_amount_usd = mul equity_usd p.risk_per_trade_pct
  let dollar_risk_per_lot = mul stop_distance p.contract_size
  raw_lots ← div risk_amount_usd dollar_risk_per_lot
  round_lots p raw_lots

unfoldable pub percentage_lot_size :
    PercentageEquitySizingPolicy
    → Decimal
    → Option Decimal
    → Option Decimal
    → Checked (Option Decimal)
unfolding sized_lots
percentage_lot_size p equity_usd none stop_loss_price = ok none
percentage_lot_size p equity_usd (some entry_price) none = ok none
percentage_lot_size p equity_usd (some entry_price) (some stop_loss_price) =
    let stop_distance = Decimal.abs (Decimal.sub entry_price stop_loss_price) in
    if leb_dec stop_distance dec_zero
    then ok none
    else if leb_dec equity_usd dec_zero
    then ok none
    else sized_lots p equity_usd stop_distance

-- The call of `calculate_lot_size` on either class.
unfoldable pub calculate_lot_size :
    PositionSizingPolicy → Decimal → Option Decimal → Option Decimal → Checked (Option Decimal)
unfolding percentage_lot_size
calculate_lot_size (percentage_equity p) equity_usd entry_price stop_loss_price =
    percentage_lot_size p equity_usd entry_price stop_loss_price
calculate_lot_size (fixed_lot fixed_lots) equity_usd entry_price stop_loss_price =
    ok (some fixed_lots)
