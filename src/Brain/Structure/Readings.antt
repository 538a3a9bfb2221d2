-- ===== src/Brain/Structure/Readings.antt =====
-- The readings of the market's structure that can occur, and what each says of the swings.
use aurexis.Base.{
  ℕ, ◌≡◌, refl, ◌⊎◌, inl, inr, arith, true, false, Option, none, some, List, Bool-cases, ◌&&◌,
}
use aurexis.Decimal
use aurexis.Decimal.{Decimal, ltb_dec}
use aurexis.Brain.MarketData.{Bar}
use aurexis.Brain.Structure.{
  Bias, bullish, bearish, neutral, StructureEvent, bos_bullish, bos_bearish, choch_bullish,
  choch_bearish, no_event, Direction, up, down, level, detect_swing_points, highs_of, lows_of,
  last_two, read_pairs, analyze_structure, scaled, rose, fell,
}

-- Of two prices in sequence, the later is beyond the earlier by more than a margin.
abbrev pub Rose : Decimal → Option (Decimal × Decimal) → Type 0
Rose margin none = ⊥
Rose margin (some (a, b)) = ltb_dec (Decimal.add a margin) b ≡ true

abbrev pub Fell : Decimal → Option (Decimal × Decimal) → Type 0
Fell margin none = ⊥
Fell margin (some (a, b)) = ltb_dec b (Decimal.sub a margin) ≡ true

-- Neither side shows a movement that counts: none of the four joint ones, and none of one side where
-- the other has no two swings.
pub record Quiet (margin : Decimal) (highs lows : Option (Decimal × Decimal)) : Type 0 where
  pub no_uptrend : ¬ (Rose margin highs × Rose margin lows)
  pub no_downtrend : ¬ (Fell margin highs × Fell margin lows)
  pub no_turn_up : ¬ (Fell margin highs × Rose margin lows)
  pub no_turn_down : ¬ (Rose margin highs × Fell margin lows)
  pub still_highs : ¬ ((lows ≡ none) × (Rose margin highs ⊎ Fell margin highs))
  pub still_lows : ¬ ((highs ≡ none) × (Rose margin lows ⊎ Fell margin lows))

-- Bias, event and direction, with the last two highs and lows that they rest on, in the order of
-- the tests.
pub data Reading (margin : Decimal) (highs lows : Option (Decimal × Decimal))
    : Bias → StructureEvent → Direction → Type 0 where
  uptrend : Rose margin highs → Rose margin lows → Reading margin highs lows bullish bos_bullish up
  downtrend :
      ¬ (Rose margin highs × Rose margin lows)
      → Fell margin highs
      → Fell margin lows
      → Reading margin highs lows bearish bos_bearish down
  turn_up :
      ¬ (Rose margin highs × Rose margin lows)
      → ¬ (Fell margin highs × Fell margin lows)
      → Fell margin highs
      → Rose margin lows
      → Reading margin highs lows neutral choch_bullish up
  turn_down :
      ¬ (Rose margin highs × Rose margin lows)
      → ¬ (Fell margin highs × Fell margin lows)
      → ¬ (Fell margin highs × Rose margin lows)
      → Rose margin highs
      → Fell margin lows
      → Reading margin highs lows neutral choch_bearish down
  only_highs_rose : lows ≡ none → Rose margin highs → Reading margin highs lows neutral no_event up
  only_highs_fell :
      lows ≡ none
      → ¬ Rose margin highs
      → Fell margin highs
      → Reading margin highs lows neutral no_event down
  only_lows_rose : highs ≡ none → Rose margin lows → Reading margin highs lows neutral no_event up
  only_lows_fell :
      highs ≡ none
      → ¬ Rose margin lows
      → Fell margin lows
      → Reading margin highs lows neutral no_event down
  undecided : Quiet margin highs lows → Reading margin highs lows neutral no_event level

module _ (margin : Decimal) where
  abbrev Reads :
      Option (Decimal × Decimal)
      → Option (Decimal × Decimal)
      → Bias × StructureEvent × Direction
      → Type 0
  Reads highs lows (bias, event, direction) = Reading margin highs lows bias event direction

  both-Quiet :
      (h l : Decimal × Decimal)
      → (rose margin h && rose margin l) ≡ false
      → (fell margin h && fell margin l) ≡ false
      → (fell margin h && rose margin l) ≡ false
      → (rose margin h && fell margin l) ≡ false
      → Quiet margin (some h) (some l)
  both-Quiet h l a b c d = record {
    no_uptrend = ground arith;
    no_downtrend = ground arith;
    no_turn_up = ground arith;
    no_turn_down = ground arith;
    still_highs = λ (missing, _). cc missing;
    still_lows = λ (missing, _). cc missing;
  }

  both-Reading :
      (h l : Decimal × Decimal) → Reads (some h) (some l) (read_pairs margin (some h) (some l))
  unfolding read_pairs
  both-Reading h l = elim (Bool-cases (rose margin h && rose margin l)) [
    | inl a ↦ rw a (uptrend (ground arith) (ground arith))
    | inr a ↦ elim (Bool-cases (fell margin h && fell margin l)) [
      | inl b ↦ rw (a, b) (downtrend (ground arith) (ground arith) (ground arith))
      | inr b ↦ elim (Bool-cases (fell margin h && rose margin l)) [
        | inl c ↦ rw (a, b, c) (turn_up (ground arith) (ground arith) (ground arith) (ground arith))
        | inr c ↦ elim (Bool-cases (rose margin h && fell margin l)) [
          | inl d ↦
              rw (a, b, c, d)
                (turn_down (ground arith) (ground arith) (ground arith) (ground arith)
                  (ground arith))
          | inr d ↦ rw (a, b, c, d) (undecided (both-Quiet h l a b c d))
        ]
      ]
    ]
  ]

  highs-Reading : (h : Decimal × Decimal) → Reads (some h) none (read_pairs margin (some h) none)
  unfolding read_pairs
  highs-Reading h = elim (Bool-cases (rose margin h)) [
    | inl rises ↦ rw rises (only_highs_rose refl rises)
    | inr stays ↦ elim (Bool-cases (fell margin h)) [
      | inl falls ↦ rw (stays, falls) (only_highs_fell refl (ground arith) falls)
      | inr holds ↦
          rw (stays, holds)
            (undecided (record {
              no_uptrend = λ (_, never). never;
              no_downtrend = λ (_, never). never;
              no_turn_up = λ (_, never). never;
              no_turn_down = λ (_, never). never;
              still_highs = ground arith;
              still_lows = λ (missing, _). cc missing;
            }))
    ]
  ]

  lows-Reading : (l : Decimal × Decimal) → Reads none (some l) (read_pairs margin none (some l))
  unfolding read_pairs
  lows-Reading l = elim (Bool-cases (rose margin l)) [
    | inl rises ↦ rw rises (only_lows_rose refl rises)
    | inr stays ↦ elim (Bool-cases (fell margin l)) [
      | inl falls ↦ rw (stays, falls) (only_lows_fell refl (ground arith) falls)
      | inr holds ↦
          rw (stays, holds)
            (undecided (record {
              no_uptrend = λ (never, _). never;
              no_downtrend = λ (never, _). never;
              no_turn_up = λ (never, _). never;
              no_turn_down = λ (never, _). never;
              still_highs = λ (missing, _). cc missing;
              still_lows = ground arith;
            }))
    ]
  ]

  read_pairs-Reading :
      (highs lows : Option (Decimal × Decimal)) → Reads highs lows (read_pairs margin highs lows)
  unfolding read_pairs
  read_pairs-Reading none none = undecided (record {
    no_uptrend = λ (never, _). never;
    no_downtrend = λ (never, _). never;
    no_turn_up = λ (never, _). never;
    no_turn_down = λ (never, _). never;
    still_highs = ground arith;
    still_lows = ground arith;
  })
  read_pairs-Reading (some h) none = highs-Reading h
  read_pairs-Reading none (some l) = lows-Reading l
  read_pairs-Reading (some h) (some l) = both-Reading h l

-- Bias, event and direction always agree, and are decided by the last two swing highs and lows, in
-- this order: both rose beyond the margin, which the code calls a bullish break of structure; both
-- fell, a bearish one; the highs fell and the lows rose, or the highs rose and the lows fell, its
-- changes of character; and where only one side has two swings, a direction without event. The
-- reading is neutral without direction exactly where none of these movements is there. No close of a
-- bar is compared with a swing.
pub analyze_structure-Reading :
    (bars : List Bar) (lookback : ℕ) (atr : Option Decimal) (multiplier : Decimal)
    → let state = analyze_structure bars lookback atr multiplier in
      let swings = detect_swing_points bars lookback in
      Reading
        (scaled atr multiplier)
        (last_two (highs_of swings))
        (last_two (lows_of swings))
        state.bias
        state.last_event
        state.structural_direction
unfolding analyze_structure
analyze_structure-Reading bars lookback atr multiplier = read_pairs-Reading _ _ _
