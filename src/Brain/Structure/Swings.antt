-- ===== src/Brain/Structure/Swings.antt =====
-- No lookahead: bars that close later never change a swing point that was found.
use native.Mathlib.Nat.{zero-add, add-zero, add-suc, suc-add}
use aurexis.Base.{
  ℕ, zero, suc, ◌+◌, ◌-◌, ◌*◌, ◌≤◌, ◌<◌, ◌≡◌, refl, ◌⊎◌, inl, inr, Bool, true, false, ◌||◌, List,
  [], ◌∷◌, ◌++◌, append_assoc, All, All-append, arith, Bool-cases, ltb, Option-cases, length,
  length-append, get_elem?,
}
use aurexis.Brain.MarketData.{Bar}
use aurexis.Brain.Structure.{
  SwingPoint, higher, lower, beats_window, swings_at, swings_from, detect_swing_points,
}

get_elem?-append :
    (bars later : List Bar) (i : ℕ)
    → i < length bars
    → get_elem? (bars ++ later) i ≡ get_elem? bars i
get_elem?-append [] later i h = ground arith
get_elem?-append (bar ∷ bars) later zero h = refl
get_elem?-append (bar ∷ bars) later (suc i) h = get_elem?-append bars later i (omega (arith, h))

beats_window-append :
    (test : Bar → Bar → Bool) (bars later : List Bar) (target : Bar) (i j n : ℕ)
    → j + n ≤ length bars
    → beats_window test (bars ++ later) target i j n ≡ beats_window test bars target i j n
unfolding beats_window
beats_window-append test bars later target i j zero h = refl
beats_window-append test bars later target i j (suc n) h =
    ground
      (arith, get_elem?-append bars later j, beats_window-append test bars later target i (suc j) n)

swings_at-append :
    (bars later : List Bar) (lookback i : ℕ)
    → lookback ≤ i
    → i + lookback < length bars
    → swings_at (bars ++ later) lookback i ≡ swings_at bars lookback i
unfolding swings_at
swings_at-append bars later lookback i g h = elim (Option-cases (get_elem? bars i)) [
  | inl absent ↦ rw (swings_at, get_elem?-append bars later i (omega (arith, h)), absent) refl
  | inr (target, e) ↦
      (let same = λ (test : Bar → Bar → Bool).
          beats_window-append test bars later target i (i - lookback) (lookback + lookback + 1)
            (omega (arith, g, h)) in
        rw (swings_at, get_elem?-append bars later i (omega (arith, h)), e, same higher, same lower)
          refl)
]

swings_from-append :
    (bars later : List Bar) (lookback i n : ℕ)
    → lookback ≤ i
    → i + n + lookback ≤ length bars
    → swings_from (bars ++ later) lookback i n ≡ swings_from bars lookback i n
unfolding swings_from
swings_from-append bars later lookback i zero g h = refl
swings_from-append bars later lookback i (suc n) g h =
    rw
      (
        swings_at-append bars later lookback i g (omega (arith, h)),
        swings_from-append bars later lookback (suc i) n (omega (arith, g)) (omega (arith, h)),
      )
      refl

swings_from-add :
    (bars : List Bar) (lookback i m n : ℕ)
    → swings_from bars lookback i (m + n)
      ≡ swings_from bars lookback i m ++ swings_from bars lookback (i + m) n
unfolding swings_from
swings_from-add bars lookback i zero n = rw (zero-add, add-zero) refl
swings_from-add bars lookback i (suc m) n =
    rw
      (
        suc-add,
        swings_from,
        swings_from-add bars lookback (suc i) m n,
        append_assoc,
        add-suc,
        suc-add,
      )
      refl

swings_at-index :
    (bars : List Bar) (lookback i : ℕ) → All (λ s. s.bar_index ≡ i) (swings_at bars lookback i)
unfolding swings_at
swings_at-index bars lookback i = ground arith

All-index-weaken :
    (i n k : ℕ) (swings : List SwingPoint)
    → n ≤ i + k
    → All (λ s. i ≤ s.bar_index) swings
    → All (λ s. n ≤ s.bar_index + k) swings
All-index-weaken i n k [] h a = tt
All-index-weaken i n k (s ∷ swings) h a = ground (arith, All-index-weaken i n k swings)

All-index-pred :
    (i : ℕ) (swings : List SwingPoint)
    → All (λ s. suc i ≤ s.bar_index) swings
    → All (λ s. i ≤ s.bar_index) swings
All-index-pred i [] a = tt
All-index-pred i (s ∷ swings) a = ground (arith, All-index-pred i swings)

index_from :
    (i : ℕ) (swings : List SwingPoint)
    → All (λ s. s.bar_index ≡ i) swings
    → All (λ s. i ≤ s.bar_index) swings
index_from i [] h = tt
index_from i (s ∷ swings) h = ground (arith, index_from i swings)

swings_from-index :
    (bars : List Bar) (lookback i n : ℕ)
    → All (λ s. i ≤ s.bar_index) (swings_from bars lookback i n)
unfolding swings_from
swings_from-index bars lookback i zero = tt
swings_from-index bars lookback i (suc n) =
    All-append _ (swings_at bars lookback i) _
      (index_from i (swings_at bars lookback i) (swings_at-index bars lookback i))
      (All-index-pred i _ (swings_from-index bars lookback (suc i) n))

abbrev too_short : List Bar → ℕ → Bool
too_short bars lookback = ltb (length bars) (2 * lookback + 1) || ltb lookback 1

long_enough :
    (bars : List Bar) (lookback : ℕ)
    → too_short bars lookback ≡ false
    → 2 * lookback + 1 ≤ length bars
long_enough bars lookback h = ground arith

still_long :
    (bars later : List Bar) (lookback : ℕ)
    → too_short bars lookback ≡ false
    → too_short (bars ++ later) lookback ≡ false
still_long bars later lookback h = ground (arith, length-append bars later)

detect-short :
    (bars : List Bar) (lookback : ℕ)
    → too_short bars lookback ≡ true
    → (lookback ≡ 0) ⊎ (length bars ≤ 2 * lookback)
detect-short bars lookback h = ground arith

detect-index :
    (bars : List Bar) (lookback : ℕ)
    → All (λ s. lookback ≤ s.bar_index) (detect_swing_points bars lookback)
unfolding detect_swing_points
detect-index bars lookback =
    ground (arith, swings_from-index bars lookback lookback (length bars - lookback - lookback))

detect-zero : (bars : List Bar) → detect_swing_points bars 0 ≡ []
unfolding detect_swing_points
detect-zero bars = ground arith

short_more :
    (bars all : List Bar) (lookback : ℕ)
    → too_short bars lookback ≡ true
    → All (λ s. length bars ≤ s.bar_index + lookback) (detect_swing_points all lookback)
short_more bars all lookback short = elim (detect-short bars lookback short) [
  | inl none_back ↦ rw (none_back, detect-zero all) tt
  | inr few ↦
      All-index-weaken lookback (length bars) lookback _ (omega (arith, few))
        (detect-index all lookback)
]

-- The swing points of some bars stay when more bars close: the longer series has the same ones
-- first, and any more are so close to the old end that the old bars could not confirm them.
pub detect_swing_points-append :
    (bars later : List Bar) (lookback : ℕ)
    → (more : List SwingPoint) × (detect_swing_points (bars ++ later) lookback
        ≡ detect_swing_points bars lookback ++ more)
      × All (λ s. length bars ≤ s.bar_index + lookback) more
unfolding detect_swing_points
detect_swing_points-append bars later lookback = elim (Bool-cases (too_short bars lookback)) [
  | inl short ↦ (
    detect_swing_points (bars ++ later) lookback,
    rw short refl,
    short_more bars (bars ++ later) lookback short,
  )
  | inr enough ↦
      (let width = length bars - lookback - lookback in
        let long = long_enough bars lookback enough in
        let count : length (bars ++ later) - lookback - lookback ≡ width + length later =
          rw (length-append bars later) (omega (arith, long)) in
        (
          swings_from (bars ++ later) lookback (lookback + width) (length later),
          rw
              (
                enough,
                still_long bars later lookback enough,
                count,
                swings_from-add (bars ++ later) lookback lookback width (length later),
                swings_from-append bars later lookback lookback width (omega arith)
                    (omega (arith, long)),
              )
              refl,
          All-index-weaken (lookback + width) (length bars) lookback _ (omega (arith, long))
              (swings_from-index (bars ++ later) lookback (lookback + width) (length later)),
        ))
]
