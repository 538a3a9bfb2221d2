-- ===== src/Brain/Setups.antt =====
-- `detect_setup` of brain/strategy/setups.py: breakouts and fakeouts on the last two closed bars. The
-- summary, and the displacement that it prints, are left out but for the division, which may raise.
pub mod Totality
use aurexis.Base.{
  String, Bool, true, false, not, ◌&&◌, Option, none, some, List, [], ◌∷◌, if◌then◌else◌,
}
use aurexis.Decimal
use aurexis.Decimal.{Decimal, dec, dec_zero, Checked, ok, ◌>>=◌, ltb_dec, leb_dec}
use aurexis.Brain.MarketData.{Bar}
use aurexis.Brain.Structure.{StructureState, Bias, bullish, bearish, neutral}

pub record SetupDetectionResult : Type 0 where
  pub setup_type : String
  pub reference_price : Option Decimal
  pub displacement_atr : Option Decimal
  pub is_reversal : Bool

abbrev pub no_setup : SetupDetectionResult
no_setup = record {
  setup_type = "NONE";
  reference_price = none;
  displacement_atr = none;
  is_reversal = false;
}

-- `bars[-2]` and `bars[-1]`
abbrev pub last_pair : List Bar → Option (Bar × Bar)
last_pair [] = none
last_pair (a ∷ []) = none
last_pair (a ∷ b ∷ []) = some (a, b)
last_pair (a ∷ b ∷ c ∷ rest) = last_pair (b ∷ c ∷ rest)

-- `atr and atr > Decimal("0")`
abbrev pub usable : Option Decimal → Option Decimal
usable none = none
usable (some atr) = if ltb_dec dec_zero atr then some atr else none

unfoldable pub required : Option Decimal → Decimal → Decimal
required atr min_displacement = elim (usable atr) [
  | none ↦ dec_zero
  | some a ↦ Decimal.mul a min_displacement
]

unfoldable pub displacement : Option Decimal → Decimal → Checked Decimal
displacement atr distance = elim (usable atr) [
  | none ↦ ok (dec 10 1)
  | some a ↦ Decimal.div distance a
]

abbrev pub broke_up : Bar → Bar → Decimal → Option Decimal → Bool
broke_up prev last disp none = false
broke_up prev last disp (some sh) =
    ltb_dec (Decimal.add sh disp) last.close_price && leb_dec prev.close_price sh

abbrev pub broke_down : Bar → Bar → Decimal → Option Decimal → Bool
broke_down prev last disp none = false
broke_down prev last disp (some sl) =
    ltb_dec last.close_price (Decimal.sub sl disp) && leb_dec sl prev.close_price

abbrev pub rejected_above : Bar → Option Decimal → Bool
rejected_above last none = false
rejected_above last (some sh) = ltb_dec sh last.high_price && ltb_dec last.close_price sh

abbrev pub rejected_below : Bar → Option Decimal → Bool
rejected_below last none = false
rejected_below last (some sl) = ltb_dec last.low_price sl && ltb_dec sl last.close_price

abbrev pub level_or_zero : Option Decimal → Decimal
level_or_zero none = dec_zero
level_or_zero (some level) = level

abbrev pub breakout : String → Option Decimal → Decimal → SetupDetectionResult
breakout setup level disp = record {
  setup_type = setup;
  reference_price = level;
  displacement_atr = some disp;
  is_reversal = false;
}

abbrev pub fakeout : String → Option Decimal → SetupDetectionResult
fakeout setup level = record {
  setup_type = setup;
  reference_price = level;
  displacement_atr = some (dec 0 1);
  is_reversal = true;
}

-- 5. The structure's bias, if it has one.
abbrev pub continuation : StructureState → SetupDetectionResult
continuation s = elim s.bias [
  | bullish ↦ breakout "CONTINUATION" s.recent_swing_high (dec 0 1)
  | bearish ↦ breakout "CONTINUATION" s.recent_swing_low (dec 0 1)
  | neutral ↦ no_setup
]

unfoldable pub setup_on :
    Bar → Bar → StructureState → Option Decimal → Decimal → Checked SetupDetectionResult
setup_on prev last s atr min_displacement =
    let sh = s.recent_swing_high in
    let sl = s.recent_swing_low in
    let disp = required atr min_displacement in
    if broke_up prev last disp sh
    then (do
      d ← displacement atr (Decimal.sub last.close_price (level_or_zero sh))
      ok (breakout "LONG_BREAKOUT" sh d))
    else if broke_down prev last disp sl
    then (do
      d ← displacement atr (Decimal.sub (level_or_zero sl) last.close_price)
      ok (breakout "SHORT_BREAKOUT" sl d))
    else if rejected_above last sh
    then ok (fakeout "SHORT_FAKEOUT_REVERSAL" sh)
    else if rejected_below last sl
    then ok (fakeout "LONG_FAKEOUT_REVERSAL" sl)
    else ok (continuation s)

unfoldable pub detect_setup :
    List Bar → StructureState → Option Decimal → Decimal → Checked SetupDetectionResult
detect_setup bars s atr min_displacement = elim (last_pair bars) [
  | none ↦ ok no_setup
  | some (prev, last) ↦ setup_on prev last s atr min_displacement
]
