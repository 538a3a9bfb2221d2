-- ===== src/Brain/Indicators/Adx.antt =====
-- `calculate_adx` of brain/indicators.py: the directional movement and its strength.
use aurexis.Base.{
  ℕ, ◌+◌, ◌*◌, ◌&&◌, Option, none, some, List, [], ◌∷◌, ltb, length, take, drop, map, if◌then◌else◌,
}
use aurexis.Decimal
use aurexis.Decimal.{Decimal, dec, dec_zero, Checked, ok, ◌>>=◌, ltb_dec, eqb_dec}
use aurexis.Brain.MarketData.{Bar}
use aurexis.Brain.Indicators.{sum, too_few, over, true_range, pairwise, pairwise_from}

pub record Adx : Type 0 where
  pub adx : Option Decimal
  pub plus_di : Option Decimal
  pub minus_di : Option Decimal

abbrev pub no_adx : Adx
no_adx = record { adx = none; plus_di = none; minus_di = none }

unfoldable pub compute_dx : Decimal → Decimal → Checked Decimal
compute_dx plus_di minus_di =
    let total = Decimal.add plus_di minus_di in
    if eqb_dec total dec_zero then ok dec_zero else (do
      ratio ← Decimal.div (Decimal.abs (Decimal.sub plus_di minus_di)) total
      ok (Decimal.mul ratio (dec 100 0)))

-- `_di`
unfoldable pub di : Decimal → Decimal → Checked Decimal
di dm_s atr_smooth =
    if eqb_dec atr_smooth dec_zero
    then ok dec_zero
    else (do ratio ← Decimal.div dm_s atr_smooth; ok (Decimal.mul ratio (dec 100 0)))

-- The range and the two movements of a bar against the one before it.
pub record Movement : Type 0 where
  pub tr : Decimal
  pub pdm : Decimal
  pub ndm : Decimal

-- `a if a > b and a > Decimal("0") else Decimal("0")`
abbrev stronger : Decimal → Decimal → Decimal
stronger a b = if ltb_dec b a && ltb_dec dec_zero a then a else dec_zero

abbrev pub movement : Bar → Bar → Movement
movement prev current =
    let up_move = Decimal.sub current.high_price prev.high_price in
    let down_move = Decimal.sub prev.low_price current.low_price in
    record {
      tr = true_range prev current;
      pdm = stronger up_move down_move;
      ndm = stronger down_move up_move;
    }

abbrev pub dx_of : Movement → Checked Decimal
dx_of s = do plus ← di s.pdm s.tr; minus ← di s.ndm s.tr; compute_dx plus minus

-- `a - (a / p) + x`
abbrev pub rolled : ℕ → Decimal → Decimal → Checked Decimal
rolled period a x = do part ← over a period; ok (Decimal.add (Decimal.sub a part) x)

-- The loop: the smoothed sums at the end, and the values of `dx_list` that it adds.
unfoldable pub smooth : ℕ → Movement → List Movement → Checked (Movement × List Decimal)
unfolding compute_dx di
smooth period s [] = ok (s, [])
smooth period s (m ∷ ms) = do
  tr ← rolled period s.tr m.tr
  pdm ← rolled period s.pdm m.pdm
  ndm ← rolled period s.ndm m.ndm
  let s' : Movement = record { tr = tr; pdm = pdm; ndm = ndm }
  dx ← dx_of s'
  rest ← smooth period s' ms
  ok (rest.0, dx ∷ rest.1)

-- `adx_val = (adx_val * (p - Decimal("1")) + dx) / p`
unfoldable pub adx_from : ℕ → Decimal → List Decimal → Checked Decimal
adx_from period value [] = ok value
adx_from period value (dx ∷ rest) = do
  next ← over (Decimal.add (Decimal.mul value (Decimal.sub (dec period 0) (dec 1 0))) dx) period
  adx_from period next rest

unfoldable pub movements : List Bar → List Movement
unfolding pairwise_from
movements bars = pairwise movement bars

-- After the smoothing.
unfoldable pub adx_of : ℕ → Movement → List Decimal → Checked Adx
unfolding adx_from di
adx_of period s dx_list = if ltb (length dx_list) period then ok no_adx else (do
  first ← over (sum (take period dx_list)) period
  value ← adx_from period first (drop period dx_list)
  plus ← di s.pdm s.tr
  minus ← di s.ndm s.tr
  ok (record { adx = some value; plus_di = some plus; minus_di = some minus }))

abbrev pub summed : List Movement → Movement
summed ms = record {
  tr = sum (map (λ m. m.tr) ms);
  pdm = sum (map (λ m. m.pdm) ms);
  ndm = sum (map (λ m. m.ndm) ms);
}

unfoldable pub calculate_adx : List Bar → ℕ → Checked Adx
unfolding smooth adx_of movements
calculate_adx bars period =
    if too_few bars (period * 2 + 1) period
    then ok no_adx
    else if ltb (length (movements bars)) period
    then ok no_adx
    else (do
      let s = summed (take period (movements bars))
      dx ← dx_of s
      end ← smooth period s (drop period (movements bars))
      adx_of period end.0 (dx ∷ end.1))
