-- ===== src/Brain/BarBuilder/Seeds.antt =====
-- Seeding: the bars kept are in the order of time, one for each time.
use aurexis.Base.{
  ℕ, zero, suc, ◌-◌, ◌≤◌, ◌<◌, ◌≡◌, ◌≢◌, List, [], ◌∷◌, Dict, ℕ_key, insert, map, All, arith,
  length, drop,
}
use aurexis.Brain.MarketData.{Timestamp, Bar}
use aurexis.Brain.BarBuilder.{
  BarBuilder, merge, by_time, place, sort_bars, last_bars, seed_closed_bars,
}

-- Later bars have later times.
abbrev pub Ascending : List Bar → Type 0
Ascending [] = Unit {0}
Ascending (bar ∷ bars) = All (λ later. bar.open_time < later.open_time) bars × Ascending bars

-- Each bar stands under its time, and no time twice.
abbrev Keyed : Dict Timestamp Bar → Type 0
Keyed [] = Unit {0}
Keyed ((t, bar) ∷ d) = (bar.open_time ≡ t) × All (λ entry. entry.0 ≢ t) d × Keyed d

insert-others :
    (t k : Timestamp) (bar : Bar) (d : Dict Timestamp Bar)
    → k ≢ t
    → All (λ entry. entry.0 ≢ t) d
    → All (λ entry. entry.0 ≢ t) (insert k bar d)
unfolding insert
insert-others t k bar [] n h = ground arith
insert-others t k bar ((j, w) ∷ d) n h = ground (arith, insert-others t k bar d)

insert-Keyed : (bar : Bar) (d : Dict Timestamp Bar) → Keyed d → Keyed (insert bar.open_time bar d)
unfolding insert
insert-Keyed bar [] h = ground arith
insert-Keyed bar ((j, w) ∷ d) h =
    ground (arith, insert-Keyed bar d, insert-others j bar.open_time bar d)

by_time-Keyed : (bars : List Bar) (d : Dict Timestamp Bar) → Keyed d → Keyed (by_time d bars)
unfolding by_time
by_time-Keyed [] d h = h
by_time-Keyed (bar ∷ bars) d h = by_time-Keyed bars _ (insert-Keyed bar d h)

merge-Keyed : (bars : List Bar) (d : Dict Timestamp Bar) → Keyed d → Keyed (merge d bars)
unfolding merge
merge-Keyed [] d h = h
merge-Keyed (bar ∷ bars) d h = merge-Keyed bars _ (ground (arith, insert-Keyed bar d h))

abbrev NotAt : Timestamp → List Bar → Type 0
NotAt t bars = All (λ bar. bar.open_time ≢ t) bars

place-NotAt :
    (t : Timestamp) (bar : Bar) (bars : List Bar)
    → bar.open_time ≢ t
    → NotAt t bars
    → NotAt t (place bar bars)
unfolding place
place-NotAt t bar [] n h = ground arith
place-NotAt t bar (c ∷ cs) n h = ground (arith, place-NotAt t bar cs)

sort_bars-NotAt : (t : Timestamp) (bars : List Bar) → NotAt t bars → NotAt t (sort_bars bars)
unfolding sort_bars
sort_bars-NotAt t [] h = tt
sort_bars-NotAt t (bar ∷ bars) h =
    place-NotAt t bar (sort_bars bars) h.0 (sort_bars-NotAt t bars h.1)

abbrev After : Timestamp → List Bar → Type 0
After t bars = All (λ bar. t < bar.open_time) bars

After-weaken : (s t : Timestamp) (bars : List Bar) → s < t → After t bars → After s bars
After-weaken s t [] h k = tt
After-weaken s t (bar ∷ bars) h k = ground (arith, After-weaken s t bars)

place-After :
    (t : Timestamp) (bar : Bar) (bars : List Bar)
    → t < bar.open_time
    → After t bars
    → After t (place bar bars)
unfolding place
place-After t bar [] n h = ground arith
place-After t bar (c ∷ cs) n h = ground (arith, place-After t bar cs)

place-Ascending :
    (bar : Bar) (bars : List Bar)
    → NotAt bar.open_time bars
    → Ascending bars
    → Ascending (place bar bars)
unfolding place
place-Ascending bar [] n h = ground arith
place-Ascending bar (c ∷ cs) n h = ground (
  arith,
  place-Ascending bar cs,
  place-After c.open_time bar cs,
  After-weaken bar.open_time c.open_time cs,
)

values-NotAt :
    (t : Timestamp) (d : Dict Timestamp Bar)
    → Keyed d
    → All (λ entry. entry.0 ≢ t) d
    → NotAt t (map (λ entry. entry.1) d)
values-NotAt t [] h k = tt
values-NotAt t ((j, w) ∷ d) h k = ground (arith, values-NotAt t d)

sort_bars-Ascending :
    (d : Dict Timestamp Bar) → Keyed d → Ascending (sort_bars (map (λ entry. entry.1) d))
unfolding sort_bars
sort_bars-Ascending [] h = tt
sort_bars-Ascending ((t, bar) ∷ d) (e, n, k) =
    place-Ascending bar _
      (sort_bars-NotAt bar.open_time _ (values-NotAt bar.open_time d k (rw e n)))
      (sort_bars-Ascending d k)

drop-Ascending : (n : ℕ) (bars : List Bar) → Ascending bars → Ascending (drop n bars)
drop-Ascending zero bars h = h
drop-Ascending (suc n) [] h = tt
drop-Ascending (suc n) (bar ∷ bars) h = drop-Ascending n bars h.1

length-drop : (n : ℕ) (bars : List Bar) → length (drop n bars) ≡ length bars - n
length-drop zero bars = omega arith
length-drop (suc n) [] = omega arith
length-drop (suc n) (bar ∷ bars) = omega (arith, length-drop n bars)

last_bars_lem :
    (n : ℕ) (bars : List Bar)
    → Ascending bars
    → Ascending (last_bars n bars) × (length (last_bars n bars) ≤ n)
last_bars_lem n bars h =
    ground (arith, drop-Ascending (length bars - n) bars, length-drop (length bars - n) bars)

-- Whatever bars were closed and whatever bars are given, in any order and with repeated times,
-- seeding leaves at most 300 closed bars, in strictly ascending order of their times.
pub seed_closed_bars-Ascending :
    (bars : List Bar) (b : BarBuilder)
    → Ascending (seed_closed_bars bars b).closed_bars
      × (length (seed_closed_bars bars b).closed_bars ≤ 300)
unfolding seed_closed_bars
seed_closed_bars-Ascending bars b =
    last_bars_lem 300 _
      (sort_bars-Ascending _ (merge-Keyed bars _ (by_time-Keyed b.closed_bars [] tt)))
