-- ===== src/Brain/BarBuilder/Timeline.antt =====
-- The times of the bars: they follow each other without overlap.
use native.Mathlib.Nat.{mul-le-mul_right}
use aurexis.Base.{
  ℕ, ◌+◌, ◌*◌, ◌/◌, ◌≤◌, ◌<◌, ◌≡◌, refl, subst, inl, inr, false, Option, none, some, List, [], ◌∷◌,
  ◌++◌, All, All-append, append-nil, append-nil, arith, Bool-cases, ltb, ltb→lt,
}
use aurexis.Decimal
use aurexis.Decimal.{Decimal, ok}
use aurexis.Brain.MarketData.{Timestamp, Tick, Bar}
use aurexis.Brain.BarBuilder.{
  Running, BarBuilder, closed_bar, extend, microseconds, bucket_start, process_price, process_tick,
  volume_of,
}
use aurexis.Brain.BarBuilder.Prices.{div_two}

-- No bar begins before an earlier one ends.
abbrev pub Apart : List Bar → Type 0
Apart [] = Unit {0}
Apart (bar ∷ bars) = All (λ later. bar.close_time ≤ later.open_time) bars × Apart bars

Apart-append :
    (bars : List Bar) (last : Bar)
    → Apart bars
    → All (λ bar. bar.close_time ≤ last.open_time) bars
    → Apart (bars ++ last ∷ [])
Apart-append [] last h k = ground arith
Apart-append (bar ∷ bars) last h k = ground (
  arith,
  Apart-append bars last,
  All-append (λ later. bar.close_time ≤ later.open_time) bars (last ∷ []),
)

-- A time at which an interval begins.
abbrev pub OnGrid : ℕ → Timestamp → Type 0
OnGrid interval t = (k : ℕ) × (t ≡ microseconds (k * interval))

-- Without a running bar nothing is closed. A running bar begins on the grid, after all closed bars.
abbrev pub RunsAfter : ℕ → List Bar → Option Running → Type 0
RunsAfter interval closed none = closed ≡ []
RunsAfter interval closed (some r) =
    OnGrid interval r.start × All (λ bar. bar.close_time ≤ r.start) closed

abbrev pub HasTimeline : BarBuilder → Type 0
HasTimeline b = Apart b.closed_bars × RunsAfter b.interval_seconds b.closed_bars b.running

not_ltb : (j k : ℕ) → ltb j k ≡ false → k ≤ j
not_ltb j k h = ground arith

-- On the grid, a later time is later by an interval.
grid_step :
    (interval s t : ℕ)
    → OnGrid interval s
    → OnGrid interval t
    → s < t
    → s + microseconds interval ≤ t
grid_step interval s t (j, e) (k, f) h = elim (Bool-cases (ltb j k)) [
  | inl less ↦ omega (arith, e, f, ltb→lt j k less, mul-le-mul_right interval (ltb→lt j k less))
  | inr more ↦ omega (arith, h, e, f, mul-le-mul_right interval (not_ltb j k more))
]

bucket_start-OnGrid : (interval t : ℕ) → OnGrid interval (bucket_start interval t)
unfolding bucket_start
bucket_start-OnGrid interval t = (t / 1000000 / interval, refl)

All-weaken :
    (s t : ℕ) (bars : List Bar)
    → s ≤ t
    → All (λ bar. bar.close_time ≤ s) bars
    → All (λ bar. bar.close_time ≤ t) bars
All-weaken s t [] h k = tt
All-weaken s t (bar ∷ bars) h k = ground (arith, All-weaken s t bars)

timeline_step :
    (b : BarBuilder) (running : Option Running) (price volume : Decimal) (bucket : Timestamp)
    → b.running ≡ running
    → OnGrid b.interval_seconds bucket
    → HasTimeline b
    → HasTimeline (process_price b price volume bucket).1
unfolding process_price extend
timeline_step b none price volume bucket e g h = ground arith
timeline_step b (some r) price volume bucket e (g, u) h =
    let (grid, before) : RunsAfter b.interval_seconds b.closed_bars (some r) =
      subst (RunsAfter b.interval_seconds b.closed_bars) e h.1 in
    elim (Bool-cases (ltb r.start bucket)) [
      | inl later ↦
          (let ends =
              grid_step b.interval_seconds r.start bucket grid (g, u)
                (ltb→lt r.start bucket later) in
            let kept = All-weaken r.start bucket b.closed_bars (ground (arith, ends)) before in
            rw (e, later)
              (
                Apart-append b.closed_bars (closed_bar b r) h.0 before,
                ((g, u), All-append _ b.closed_bars (closed_bar b r ∷ []) kept (ends, tt)),
              ))
      | inr same ↦ rw (e, same) (h.0, (grid, before))
    ]

abbrev pub returned : Option Bar → List Bar
returned none = []
returned (some bar) = bar ∷ []

appended_step :
    (b : BarBuilder) (price volume : Decimal) (bucket : Timestamp)
    → (process_price b price volume bucket).1.closed_bars
      ≡ b.closed_bars ++ returned (process_price b price volume bucket).0
unfolding process_price
appended_step b price volume bucket = ground (arith, append-nil b.closed_bars)

-- Each tick is taken, and adds to the closed bars at their end just the bar that it returns. In a
-- builder that only ticks feed, in whatever order they come, no closed bar begins before an earlier
-- one ends, and the running bar begins on the timeframe's grid after all of them.
pub process_tick-HasTimeline :
    (b : BarBuilder) (tick : Tick)
    → HasTimeline b
    → (closed : Option Bar) × (b' : BarBuilder) × (process_tick b tick ≡ ok (closed, b'))
      × HasTimeline b'
      × (b'.closed_bars ≡ b.closed_bars ++ returned closed)
unfolding process_tick
process_tick-HasTimeline b tick h =
    let (price, e) = div_two (Decimal.add tick.bid tick.ask) in
    let bucket = bucket_start b.interval_seconds tick.tick_time in
    let step = process_price b price (volume_of tick) bucket in
    (
      step.0,
      step.1,
      rw e refl,
      timeline_step b b.running price (volume_of tick) bucket refl
          (bucket_start-OnGrid b.interval_seconds tick.tick_time) h,
      appended_step b price (volume_of tick) bucket,
    )
