-- ===== src/Brain/Structure.antt =====
-- brain/structure.py: swing points of closed bars, and the structure that the last of them give.
pub mod Swings
pub mod Extremes
pub mod Readings
use aurexis.Base.{
  ℕ, zero, suc, ◌+◌, ◌-◌, ◌*◌, Bool, true, false, not, ◌&&◌, ◌||◌, Option, none, some, List, [],
  ◌∷◌, ◌++◌, ltb, ◌==◌, length, get_elem?, select, if◌then◌else◌, map,
}
use aurexis.Decimal
use aurexis.Decimal.{Decimal, dec_zero, ltb_dec, leb_dec}
use aurexis.Brain.MarketData.{Bar}

pub record SwingPoint : Type 0 where
  pub bar_index : ℕ
  pub price : Decimal
  pub is_high : Bool

pub data Bias : Type 0 where
  bullish bearish neutral : Bias

pub data StructureEvent : Type 0 where
  bos_bullish bos_bearish choch_bullish choch_bearish no_event : StructureEvent

pub data Direction : Type 0 where
  up down level : Direction

pub record StructureState : Type 0 where
  pub bias : Bias
  pub recent_swing_high : Option Decimal
  pub recent_swing_low : Option Decimal
  pub last_event : StructureEvent
  pub structural_direction : Direction

abbrev pub higher : Bar → Bar → Bool
higher target bar = ltb_dec bar.high_price target.high_price

abbrev pub lower : Bar → Bar → Bool
lower target bar = ltb_dec target.low_price bar.low_price

-- `all(test(target, bars[j]) for j in range(j, j + n) if j != i)`. No index is out of range where
-- `detect_swing_points` asks.
unfoldable pub beats_window : (Bar → Bar → Bool) → List Bar → Bar → ℕ → ℕ → ℕ → Bool
beats_window test bars target i j zero = true
beats_window test bars target i j (suc n) =
    let rest = beats_window test bars target i (suc j) n in
    if j == i then rest else elim (get_elem? bars j) [
      | none ↦ false
      | some bar ↦ if test target bar then rest else false
    ]

abbrev pub swing_of : Bool → SwingPoint → List SwingPoint
swing_of found swing = if found then swing ∷ [] else []

-- The body of the loop.
unfoldable pub swings_at : List Bar → ℕ → ℕ → List SwingPoint
swings_at bars lookback i = elim (get_elem? bars i) [
  | none ↦ []
  | some target ↦
      swing_of (beats_window higher bars target i (i - lookback) (lookback + lookback + 1))
        (record { bar_index = i; price = target.high_price; is_high = true })
      ++ swing_of (beats_window lower bars target i (i - lookback) (lookback + lookback + 1))
          (record { bar_index = i; price = target.low_price; is_high = false })
]

-- The loop over `range(i, i + n)`.
unfoldable pub swings_from : List Bar → ℕ → ℕ → ℕ → List SwingPoint
swings_from bars lookback i zero = []
swings_from bars lookback i (suc n) =
    swings_at bars lookback i ++ swings_from bars lookback (suc i) n

unfoldable pub detect_swing_points : List Bar → ℕ → List SwingPoint
detect_swing_points bars lookback =
    if ltb (length bars) (2 * lookback + 1) || ltb lookback 1
    then []
    else swings_from bars lookback lookback (length bars - lookback - lookback)

-- The price of the last swing, and of the last two.
unfoldable pub last_price : List SwingPoint → Option Decimal
last_price [] = none
last_price (s ∷ []) = some s.price
last_price (s ∷ t ∷ rest) = last_price (t ∷ rest)

unfoldable pub last_two : List SwingPoint → Option (Decimal × Decimal)
last_two [] = none
last_two (s ∷ []) = none
last_two (s ∷ t ∷ []) = some (s.price, t.price)
last_two (s ∷ t ∷ u ∷ rest) = last_two (t ∷ u ∷ rest)

-- `atr * multiplier` where the range is known and positive, and 0 otherwise.
abbrev pub scaled : Option Decimal → Decimal → Decimal
scaled none multiplier = dec_zero
scaled (some atr) multiplier = if ltb_dec dec_zero atr then Decimal.mul atr multiplier else dec_zero

abbrev pub rose : Decimal → Decimal × Decimal → Bool
rose min_bos (a, b) = ltb_dec (Decimal.add a min_bos) b

abbrev pub fell : Decimal → Decimal × Decimal → Bool
fell min_bos (a, b) = ltb_dec b (Decimal.sub a min_bos)

abbrev pub one_sided : Decimal → Decimal × Decimal → Bias × StructureEvent × Direction
one_sided min_bos pair =
    if rose min_bos pair
    then (neutral, no_event, up)
    else if fell min_bos pair
    then (neutral, no_event, down)
    else (neutral, no_event, level)

-- The branches over the last two highs and the last two lows. Equal levels end like the rest.
unfoldable pub read_pairs :
    Decimal
    → Option (Decimal × Decimal)
    → Option (Decimal × Decimal)
    → Bias × StructureEvent × Direction
read_pairs min_bos none none = (neutral, no_event, level)
read_pairs min_bos (some highs) none = one_sided min_bos highs
read_pairs min_bos none (some lows) = one_sided min_bos lows
read_pairs min_bos (some highs) (some lows) =
    if rose min_bos highs && rose min_bos lows
    then (bullish, bos_bullish, up)
    else if fell min_bos highs && fell min_bos lows
    then (bearish, bos_bearish, down)
    else if fell min_bos highs && rose min_bos lows
    then (neutral, choch_bullish, up)
    else if rose min_bos highs && fell min_bos lows
    then (neutral, choch_bearish, down)
    else (neutral, no_event, level)

abbrev pub highs_of : List SwingPoint → List SwingPoint
highs_of swings = select (λ s. s.is_high) swings

abbrev pub lows_of : List SwingPoint → List SwingPoint
lows_of swings = select (λ s. not s.is_high) swings

-- Without swings this is the early return, and `equal_level_tolerance_atr` decides nothing, so it
-- is left out.
unfoldable pub analyze_structure : List Bar → ℕ → Option Decimal → Decimal → StructureState
analyze_structure bars lookback atr min_bos_atr_multiplier =
    let swings = detect_swing_points bars lookback in
    let (bias, event, direction) =
      read_pairs (scaled atr min_bos_atr_multiplier) (last_two (highs_of swings))
        (last_two (lows_of swings)) in
    record {
      bias = bias;
      recent_swing_high = last_price (highs_of swings);
      recent_swing_low = last_price (lows_of swings);
      last_event = event;
      structural_direction = direction;
    }
