-- ===== src/Brain/Setups/Totality.antt =====
-- The detection of a setup raises nothing: it divides by the average range only where that is positive.
use aurexis.Base.{String, ◌≡◌, refl, inl, inr, true, Option, none, some, List, Option-cases, arith}
use aurexis.Decimal.{Decimal, ok, ◌>>=◌, dec, dec_zero, sub, ltb_dec}
use aurexis.Decimal.Returning.{Returns, bind-Returns, if-Returns}
use aurexis.Decimal.Signs.{div_returns, positive-nonzero}
use aurexis.Brain.MarketData.{Bar}
use aurexis.Brain.Structure.{StructureState}
use aurexis.Brain.Setups.{
  no_setup, last_pair, usable, required, displacement, broke_up, broke_down, rejected_above,
  rejected_below, level_or_zero, breakout, setup_on, detect_setup,
}

usable-positive :
    (atr : Option Decimal) (a : Decimal) → usable atr ≡ some a → ltb_dec dec_zero a ≡ true
usable-positive none a h = cc
usable-positive (some b) a h = ground arith

displacement-Returns :
    (atr : Option Decimal) (distance : Decimal) → (d : Decimal) × (displacement atr distance ≡ ok d)
unfolding displacement
displacement-Returns atr distance = elim (Option-cases (usable atr)) [
  | inl without ↦ (dec 10 1, rw (without, displacement) refl)
  | inr (a, with_range) ↦
      let (d, e) = div_returns distance a (positive-nonzero a (usable-positive atr a with_range)) in
      (d, rw (with_range, displacement) e)
]

-- A breakout at a level, with the distance of the close from it.
breakout-Returns :
    (atr level : Option Decimal) (setup : String) (distance : Decimal)
    → Returns (displacement atr distance >>= λ d. ok (breakout setup level d))
breakout-Returns atr level setup distance =
    bind-Returns (displacement atr distance) (λ d. ok (breakout setup level d))
      (displacement-Returns atr distance) (λ d. (breakout setup level d, refl))

setup_on-Returns :
    (prev last : Bar) (s : StructureState) (atr : Option Decimal) (m : Decimal)
    → Returns (setup_on prev last s atr m)
unfolding setup_on
setup_on-Returns prev last s atr m =
    if-Returns (broke_up prev last (required atr m) s.recent_swing_high) _ _
      (λ up.
        breakout-Returns atr s.recent_swing_high "LONG_BREAKOUT"
          (sub last.close_price (level_or_zero s.recent_swing_high)))
      λ not_up.
        if-Returns (broke_down prev last (required atr m) s.recent_swing_low) _ _
          (λ down.
            breakout-Returns atr s.recent_swing_low "SHORT_BREAKOUT"
              (sub (level_or_zero s.recent_swing_low) last.close_price))
          λ not_down.
            if-Returns (rejected_above last s.recent_swing_high) _ _ (λ above. (_, refl))
              λ not_above.
                if-Returns (rejected_below last s.recent_swing_low) _ _ (λ below. (_, refl))
                  λ calm. (_, refl)

-- Whatever the bars, the structure and the average range are, a result is returned.
pub detect_setup-Returns :
    (bars : List Bar) (s : StructureState) (atr : Option Decimal) (min_displacement : Decimal)
    → Returns (detect_setup bars s atr min_displacement)
unfolding detect_setup
detect_setup-Returns bars s atr m = elim (Option-cases (last_pair bars)) [
  | inl few ↦ rw (few, detect_setup) (no_setup, refl)
  | inr ((prev, last), pair) ↦ rw (pair, detect_setup) (setup_on-Returns prev last s atr m)
]
