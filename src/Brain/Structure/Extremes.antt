-- ===== src/Brain/Structure/Extremes.antt =====
-- A swing point stands out: it is strictly beyond every bar near it.
use aurexis.Base.{
  ℕ, zero, suc, ◌+◌, ◌-◌, ◌≤◌, ◌<◌, ◌≡◌, refl, ◌⊎◌, inl, inr, Bool, true, false, some, List, All,
  All-append, arith, Option-cases, length, get_elem?,
}
use aurexis.Decimal.{ltb_dec}
use aurexis.Brain.MarketData.{Bar}
use aurexis.Brain.Structure.{
  SwingPoint, higher, lower, beats_window, swing_of, swings_at, swings_from, detect_swing_points,
}

beats_window_lem :
    (test : Bar → Bar → Bool) (bars : List Bar) (target bar : Bar) (i k j n : ℕ)
    → get_elem? bars k ≡ some bar
    → beats_window test bars target i j n ≡ true
    → (k ≡ i) ⊎ ((k < j) ⊎ ((j + n ≤ k) ⊎ (test target bar ≡ true)))
unfolding beats_window
beats_window_lem test bars target bar i k j zero e h = ground arith
beats_window_lem test bars target bar i k j (suc n) e h =
    ground (arith, beats_window_lem test bars target bar i k (suc j) n)

-- A high is above the bar's high, a low below its low.
abbrev pub IsBeyond : SwingPoint → Bar → Type 0
IsBeyond s bar = elim s.is_high [
  | true ↦ ltb_dec bar.high_price s.price ≡ true
  | false ↦ ltb_dec s.price bar.low_price ≡ true
]

-- The bar at `k` is the swing's own, is further than `lookback` from it, or is less extreme.
abbrev pub StandsOut : ℕ → ℕ → Bar → SwingPoint → Type 0
StandsOut lookback k bar s =
    (k ≡ s.bar_index)
    ⊎ ((k + lookback < s.bar_index) ⊎ ((s.bar_index + lookback < k) ⊎ IsBeyond s bar))

module _ (bars : List Bar) (lookback k : ℕ) (bar : Bar) where
  abbrev beats : (Bar → Bar → Bool) → Bar → ℕ → Bool
  beats test target i = beats_window test bars target i (i - lookback) (lookback + lookback + 1)

  abbrev high_at : Bar → ℕ → SwingPoint
  high_at target i = record { bar_index = i; price = target.high_price; is_high = true }

  abbrev low_at : Bar → ℕ → SwingPoint
  low_at target i = record { bar_index = i; price = target.low_price; is_high = false }

  swing_of-StandsOut :
      (found : Bool) (s : SwingPoint)
      → (found ≡ true → StandsOut lookback k bar s)
      → All (StandsOut lookback k bar) (swing_of found s)
  swing_of-StandsOut true s h = (h refl, tt)
  swing_of-StandsOut false s h = tt

  swings_at-StandsOut :
      (i : ℕ)
      → lookback ≤ i
      → get_elem? bars k ≡ some bar
      → All (StandsOut lookback k bar) (swings_at bars lookback i)
  unfolding swings_at
  swings_at-StandsOut i g e = elim (Option-cases (get_elem? bars i)) [
    | inl absent ↦ rw (swings_at, absent) tt
    | inr (target, f) ↦
        rw (swings_at, f)
          (All-append _ (swing_of (beats higher target i) (high_at target i)) _
            (swing_of-StandsOut (beats higher target i) (high_at target i) (λ h. ground (
              arith,
              beats_window_lem higher bars target bar i k (i - lookback) (lookback + lookback + 1) e
                  h,
            )))
            (swing_of-StandsOut (beats lower target i) (low_at target i) (λ h. ground (
              arith,
              beats_window_lem lower bars target bar i k (i - lookback) (lookback + lookback + 1) e
                  h,
            ))))
  ]

  swings_from-StandsOut :
      (i n : ℕ)
      → lookback ≤ i
      → get_elem? bars k ≡ some bar
      → All (StandsOut lookback k bar) (swings_from bars lookback i n)
  unfolding swings_from
  swings_from-StandsOut i zero g e = tt
  swings_from-StandsOut i (suc n) g e =
      All-append _ (swings_at bars lookback i) _ (swings_at-StandsOut i g e)
        (swings_from-StandsOut (suc i) n (omega (arith, g)) e)

  -- Every swing high is strictly above the high of each other bar within `lookback` of it, and
  -- every swing low strictly below the low.
  pub detect_swing_points-StandsOut :
      get_elem? bars k ≡ some bar
      → All (StandsOut lookback k bar) (detect_swing_points bars lookback)
  unfolding detect_swing_points
  detect_swing_points-StandsOut e =
      ground
        (arith, swings_from-StandsOut lookback (length bars - lookback - lookback) (omega arith) e)
