-- ===== src/Brain/Indicators/Returning.antt =====
-- The indicators that the regime reads return, whatever the bars are.
use aurexis.Base.{
  ℕ, suc, zero, ◌+◌, ◌*◌, ◌-◌, ◌≡◌, refl, inl, inr, false, none, some, List, [], ◌∷◌, ◌==◌, ltb,
  length, take, drop, arith,
}
use aurexis.Decimal.{Decimal, dec, dec_zero, Checked, ok, add, sub, mul, abs, div, eqb_dec}
use aurexis.Decimal.Signs.{div_returns, nonzero-eqb_dec}
use aurexis.Decimal.Returning.{Returns, bind-Returns, if-Returns}
use aurexis.Brain.MarketData.{Bar}
use aurexis.Brain.Indicators.{
  sum, over, too_few, found, closes, ema_from, ema_of, calculate_ema, calculate_atr, calculate_rsi,
  window_ranges, average_of, calculate_atr_baseline,
}
use aurexis.Brain.Indicators.Adx.{
  no_adx, compute_dx, di, Movement, dx_of, rolled, smooth, adx_from, movements, adx_of, summed,
  calculate_adx,
}
use aurexis.Brain.Indicators.Totality.{calculate_atr_total, calculate_rsi_total}

over-Returns : (total : Decimal) (n : ℕ) → (n == 0) ≡ false → Returns (over total n)
over-Returns total n nonzero = div_returns total (dec n 0) nonzero

found-Returns : (m : Checked Decimal) → Returns m → Returns (found m)
found-Returns m h = bind-Returns m (λ x. ok (some x)) h (λ x. (some x, refl))

pub calculate_ema-Returns : (bars : List Bar) (period : ℕ) → Returns (calculate_ema bars period)
unfolding calculate_ema ema_of
calculate_ema-Returns bars period =
    if-Returns (too_few bars period period) (ok none) (found (ema_of period (closes bars)))
      (λ few. (none, refl))
      λ enough. found-Returns (ema_of period (closes bars)) (
        bind-Returns (over (dec 2 0) (period + 1)) _
          (over-Returns (dec 2 0) (period + 1) (ground arith))
          λ k.
            bind-Returns (over (sum (take period (closes bars))) period) _
              (over-Returns _ period (ground (arith, enough)))
              λ first. (ema_from k first (drop period (closes bars)), refl))

pub calculate_atr-Returns : (bars : List Bar) (period : ℕ) → Returns (calculate_atr bars period)
unfolding calculate_atr
calculate_atr-Returns [] period = (none, ground arith)
calculate_atr-Returns (first ∷ rest) period = elim (calculate_atr_total first rest period) [
  | inl (few, is) ↦ (none, is)
  | inr (enough, (a, is, h)) ↦ (some a, is)
]

pub calculate_rsi-Returns : (bars : List Bar) (period : ℕ) → Returns (calculate_rsi bars period)
unfolding calculate_rsi
calculate_rsi-Returns [] period = (none, ground arith)
calculate_rsi-Returns (first ∷ rest) period = elim (calculate_rsi_total first rest period) [
  | inl (few, is) ↦ (none, is)
  | inr (enough, (a, is)) ↦ (some a, is)
]

compute_dx-Returns : (plus minus : Decimal) → Returns (compute_dx plus minus)
unfolding compute_dx
compute_dx-Returns plus minus =
    if-Returns (eqb_dec (add plus minus) dec_zero) _ _ (λ none_moves. (dec_zero, refl))
      λ moves.
        bind-Returns (div (abs (sub plus minus)) (add plus minus))
          (λ ratio. ok (mul ratio (dec 100 0)))
          (div_returns _ _ (nonzero-eqb_dec (add plus minus) moves))
          (λ ratio. (mul ratio (dec 100 0), refl))

di-Returns : (dm range : Decimal) → Returns (di dm range)
unfolding di
di-Returns dm range =
    if-Returns (eqb_dec range dec_zero) _ _ (λ flat. (dec_zero, refl))
      λ wide.
        bind-Returns (div dm range) (λ ratio. ok (mul ratio (dec 100 0)))
          (div_returns dm range (nonzero-eqb_dec range wide))
          (λ ratio. (mul ratio (dec 100 0), refl))

dx_of-Returns : (s : Movement) → Returns (dx_of s)
dx_of-Returns s = bind-Returns (di s.pdm s.tr) _ (di-Returns s.pdm s.tr) λ plus.
    bind-Returns (di s.ndm s.tr) _ (di-Returns s.ndm s.tr) λ minus. compute_dx-Returns plus minus

module _ (period : ℕ) (nonzero : (period == 0) ≡ false) where
  rolled-Returns : (a x : Decimal) → Returns (rolled period a x)
  rolled-Returns a x =
      bind-Returns (over a period) (λ part. ok (add (sub a part) x)) (over-Returns a period nonzero)
        (λ part. (add (sub a part) x, refl))

  smooth-Returns : (s : Movement) (ms : List Movement) → Returns (smooth period s ms)
  unfolding smooth
  smooth-Returns s [] = ((s, []), refl)
  smooth-Returns s (m ∷ ms) =
      bind-Returns (rolled period s.tr m.tr) _ (rolled-Returns s.tr m.tr) λ tr.
        bind-Returns (rolled period s.pdm m.pdm) _ (rolled-Returns s.pdm m.pdm) λ pdm.
          bind-Returns (rolled period s.ndm m.ndm) _ (rolled-Returns s.ndm m.ndm) λ ndm.
            bind-Returns (dx_of (record { tr = tr; pdm = pdm; ndm = ndm })) _
              (dx_of-Returns (record { tr = tr; pdm = pdm; ndm = ndm }))
              λ dx.
                bind-Returns (smooth period (record { tr = tr; pdm = pdm; ndm = ndm }) ms)
                  (λ rest. ok (rest.0, dx ∷ rest.1))
                  (smooth-Returns (record { tr = tr; pdm = pdm; ndm = ndm }) ms)
                  λ rest. ((rest.0, dx ∷ rest.1), refl)

  adx_from-Returns :
      (value : Decimal) (values : List Decimal) → Returns (adx_from period value values)
  unfolding adx_from
  adx_from-Returns value [] = (value, refl)
  adx_from-Returns value (dx ∷ rest) =
      bind-Returns _ (λ next. adx_from period next rest)
        (over-Returns (add (mul value (sub (dec period 0) (dec 1 0))) dx) period nonzero)
        (λ next. adx_from-Returns next rest)

  adx_of-Returns : (s : Movement) (values : List Decimal) → Returns (adx_of period s values)
  unfolding adx_of
  adx_of-Returns s values =
      if-Returns (ltb (length values) period) _ _ (λ few. (no_adx, refl))
        λ enough.
          bind-Returns (over (sum (take period values)) period) _
            (over-Returns (sum (take period values)) period nonzero)
            λ first.
              bind-Returns (adx_from period first (drop period values)) _
                (adx_from-Returns first (drop period values))
                λ value.
                  bind-Returns (di s.pdm s.tr) _ (di-Returns s.pdm s.tr) λ plus.
                    bind-Returns (di s.ndm s.tr) _ (di-Returns s.ndm s.tr) λ minus. (_, refl)

pub calculate_adx-Returns : (bars : List Bar) (period : ℕ) → Returns (calculate_adx bars period)
unfolding calculate_adx
calculate_adx-Returns bars period =
    if-Returns (too_few bars (period * 2 + 1) period) _ _ (λ few. (no_adx, refl))
      λ enough.
        if-Returns (ltb (length (movements bars)) period) _ _ (λ few. (no_adx, refl))
          λ more.
            bind-Returns (dx_of (summed (take period (movements bars)))) _
              (dx_of-Returns (summed (take period (movements bars))))
              λ dx.
                bind-Returns
                  (smooth period (summed (take period (movements bars)))
                    (drop period (movements bars)))
                  _
                  (smooth-Returns period (ground (arith, enough))
                    (summed (take period (movements bars))) (drop period (movements bars)))
                  λ (end : Movement × List Decimal).
                    adx_of-Returns period (ground (arith, enough)) end.0 (dx ∷ end.1)

window_ranges-Returns :
    (bars : List Bar) (period from n : ℕ) → Returns (window_ranges bars period from n)
unfolding window_ranges
window_ranges-Returns bars period from zero = ([], refl)
window_ranges-Returns bars period from (suc n) =
    bind-Returns (calculate_atr (take (from + 1) bars) period) _
      (calculate_atr-Returns (take (from + 1) bars) period)
      λ value.
        bind-Returns (window_ranges bars period (from + 1) n) _
          (window_ranges-Returns bars period (from + 1) n) λ rest. (_, refl)

average_of-Returns : (values : List Decimal) → Returns (average_of values)
average_of-Returns [] = (none, refl)
average_of-Returns (x ∷ xs) =
    found-Returns (over (sum (x ∷ xs)) (length (x ∷ xs)))
      (over-Returns (sum (x ∷ xs)) (length (x ∷ xs)) (ground arith))

pub calculate_atr_baseline-Returns :
    (bars : List Bar) (period baseline_bars : ℕ)
    → Returns (calculate_atr_baseline bars period baseline_bars)
unfolding calculate_atr_baseline
calculate_atr_baseline-Returns bars period n =
    if-Returns (too_few bars (period + 1 + n) n) _ _ (λ few. (none, refl))
      λ enough.
        bind-Returns (window_ranges bars period (length bars - n) n) average_of
          (window_ranges-Returns bars period (length bars - n) n) average_of-Returns
