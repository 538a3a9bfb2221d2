-- ===== src/Brain/Indicators/Totality.antt =====
-- The indicators raise nothing, and have a value exactly where there are bars enough.
use aurexis.Base.{
  ℕ, suc, zero, ◌+◌, ◌-◌, ◌≡◌, refl, ◌⊎◌, inl, inr, ◌∙◌, true, false, none, some, List, [], ◌∷◌,
  ◌==◌, ltb, length, take, drop, arith, All, Bool-cases, neg_part, pos_part, ℤ, pos, negsuc, ◌*◌,
  ◌^◌,
}
use aurexis.Decimal.{Decimal, dec, dec_zero, Checked, ok, ◌>>=◌, add, sub, mul, eqb_dec, ltb_dec}
use aurexis.Decimal.Signs.{
  IsNonneg, ReturnsNonneg, add-IsNonneg, mul-IsNonneg, abs-IsNonneg, max_dec-IsNonneg,
  div-ReturnsNonneg, nonzero-eqb_dec, one_plus_nonzero,
}
use aurexis.Brain.MarketData.{Bar}
use aurexis.Brain.Indicators.{
  sum_from, sum, over, too_few, true_range, pairwise_from, true_ranges, wilder_step, wilder_from,
  wilder, calculate_atr, gain_of, loss_of, change, gains, losses, strength_index, calculate_rsi,
}
use aurexis.Brain.Indicators.Streams.{length-pairwise_from, calculate_atr_cases}

bind-Returns :
    (m : Checked Decimal) (f : Decimal → Checked Decimal)
    → ReturnsNonneg m
    → ((x : Decimal) → IsNonneg x → ReturnsNonneg (f x))
    → ReturnsNonneg (m >>= f)
bind-Returns m f (x, e, h) next = rw e (next x h)

over-Returns :
    (total : Decimal) (n : ℕ) → IsNonneg total → (n == 0) ≡ false → ReturnsNonneg (over total n)
over-Returns total n h nonzero = div-ReturnsNonneg total (dec n 0) h refl nonzero

sum_from-IsNonneg :
    (total : Decimal) (xs : List Decimal)
    → IsNonneg total
    → All IsNonneg xs
    → IsNonneg (sum_from total xs)
unfolding sum_from
sum_from-IsNonneg total [] h hs = h
sum_from-IsNonneg total (x ∷ xs) h hs =
    sum_from-IsNonneg (add total x) xs (add-IsNonneg total x h hs.0) hs.1

All-take {ℓ κ} : {A : Type ℓ} (P : A → Type κ) (n : ℕ) (xs : List A) → All P xs → All P (take n xs)
All-take P zero xs h = tt
All-take P (suc n) [] h = tt
All-take P (suc n) (x ∷ xs) h = (h.0, All-take P n xs h.1)

All-drop {ℓ κ} : {A : Type ℓ} (P : A → Type κ) (n : ℕ) (xs : List A) → All P xs → All P (drop n xs)
All-drop P zero xs h = h
All-drop P (suc n) [] h = tt
All-drop P (suc n) (x ∷ xs) h = All-drop P n xs h.1

-- What is so for each pair of bars is so for the list.
All-pairwise_from {ℓ κ} :
    {A : Type ℓ} (P : A → Type κ) (f : Bar → Bar → A) (prev : Bar) (bars : List Bar)
    → ((a b : Bar) → P (f a b))
    → All P (pairwise_from f prev bars)
unfolding pairwise_from
All-pairwise_from P f prev [] h = tt
All-pairwise_from P f prev (bar ∷ bars) h = (h prev bar, All-pairwise_from P f bar bars h)

module _ (period : ℕ) (nonzero : (period == 0) ≡ false) where
  wilder_step-Returns :
      (average x : Decimal)
      → IsNonneg average
      → IsNonneg x
      → ReturnsNonneg (wilder_step period average x)
  unfolding wilder_step
  wilder_step-Returns average x ha hx =
      over-Returns _ period
        (add-IsNonneg (mul average (dec (period - 1) 0)) x
          (mul-IsNonneg average (dec (period - 1) 0) ha refl) hx)
        nonzero

  wilder_from-Returns :
      (average : Decimal) (xs : List Decimal)
      → IsNonneg average
      → All IsNonneg xs
      → ReturnsNonneg (wilder_from period average xs)
  unfolding wilder_from
  wilder_from-Returns average [] h hs = (average, refl, h)
  wilder_from-Returns average (x ∷ xs) h hs =
      bind-Returns (wilder_step period average x) (λ next. wilder_from period next xs)
        (wilder_step-Returns average x h hs.0) (λ next hn. wilder_from-Returns next xs hn hs.1)

  wilder-Returns : (xs : List Decimal) → All IsNonneg xs → ReturnsNonneg (wilder period xs)
  unfolding wilder
  wilder-Returns xs hs =
      bind-Returns (over (sum (take period xs)) period)
        (λ first. wilder_from period first (drop period xs))
        (over-Returns (sum (take period xs)) period
          (sum_from-IsNonneg dec_zero (take period xs) refl (All-take IsNonneg period xs hs))
          nonzero)
        (λ first h. wilder_from-Returns first (drop period xs) h (All-drop IsNonneg period xs hs))

true_range-IsNonneg : (prev current : Bar) → IsNonneg (true_range prev current)
true_range-IsNonneg prev current =
    max_dec-IsNonneg _ _ (abs-IsNonneg (sub current.low_price prev.close_price))

-- The average true range raises nothing: with a period that is not zero and one more bar than the
-- period it is a value that is not negative, and otherwise there is none.
pub calculate_atr_total :
    (first : Bar) (rest : List Bar) (period : ℕ)
    → ((too_few (first ∷ rest) (period + 1) period ≡ true)
        × (calculate_atr (first ∷ rest) period ≡ ok none))
      ⊎ ((too_few (first ∷ rest) (period + 1) period ≡ false)
          × ((a : Decimal) × (calculate_atr (first ∷ rest) period ≡ ok (some a)) × IsNonneg a))
unfolding true_ranges
calculate_atr_total first rest period = elim (calculate_atr_cases first rest period) [
  | inl few ↦ inl few
  | inr (enough, long, is) ↦
      let (a, e, h) =
        wilder-Returns period (ground (arith, enough)) (true_ranges (first ∷ rest))
          (All-pairwise_from IsNonneg true_range first rest true_range-IsNonneg) in
      inr (enough, (a, is ∙ rw e refl, h))
]

positive-IsNonneg : (c : Decimal) → ltb_dec dec_zero c ≡ true → IsNonneg c
unfolding ltb_dec
positive-IsNonneg c h = coefficient c.coeff c.scale h
  where
    coefficient :
        (z : ℤ) (s : ℕ)
        → ltb (0 * 10 ^ s + neg_part z * 10 ^ 0) (pos_part z * 10 ^ 0 + 0 * 10 ^ s) ≡ true
        → neg_part z ≡ 0
    coefficient (pos n) s k = refl
    coefficient (negsuc n) s k = ground arith

gain_of-IsNonneg : (c : Decimal) → IsNonneg (gain_of c)
gain_of-IsNonneg c = elim (Bool-cases (ltb_dec dec_zero c)) [
  | inl up ↦ rw up (positive-IsNonneg c up)
  | inr flat ↦ rw flat refl
]

loss_of-IsNonneg : (c : Decimal) → IsNonneg (loss_of c)
loss_of-IsNonneg c = elim (Bool-cases (ltb_dec dec_zero c)) [
  | inl up ↦ rw up refl
  | inr flat ↦ rw flat (abs-IsNonneg c)
]

-- No division by zero is left: the loss is not zero where it divides, and one more than the ratio
-- is not zero either.
strength_index-returns :
    (avg_gain avg_loss : Decimal)
    → IsNonneg avg_gain
    → IsNonneg avg_loss
    → (x : Decimal) × (strength_index avg_gain avg_loss ≡ ok x)
unfolding strength_index
strength_index-returns avg_gain avg_loss hg hl = elim (Bool-cases (eqb_dec avg_loss dec_zero)) [
  | inl none_lost ↦ (dec 100 0, rw none_lost refl)
  | inr lost ↦ elim (Bool-cases (eqb_dec avg_gain dec_zero)) [
    | inl none_won ↦ (dec 0 0, rw (lost, none_won) refl)
    | inr won ↦
        let (rs, e, hr) =
          div-ReturnsNonneg avg_gain avg_loss hg hl (nonzero-eqb_dec avg_loss lost) in
        let (part, e', hp) =
          div-ReturnsNonneg (dec 100 0) (add (dec 1 0) rs) refl (add-IsNonneg (dec 1 0) rs refl hr)
            (one_plus_nonzero rs hr) in
        (sub (dec 100 0) part, rw (lost, won, e, e') refl)
  ]
]

-- The strength index raises nothing either: with a period that is not zero and one more bar than
-- the period it has a value, and otherwise there is none.
pub calculate_rsi_total :
    (first : Bar) (rest : List Bar) (period : ℕ)
    → ((too_few (first ∷ rest) (period + 1) period ≡ true)
        × (calculate_rsi (first ∷ rest) period ≡ ok none))
      ⊎ ((too_few (first ∷ rest) (period + 1) period ≡ false)
          × ((x : Decimal) × (calculate_rsi (first ∷ rest) period ≡ ok (some x))))
unfolding calculate_rsi gains losses
calculate_rsi_total first rest period =
    elim (Bool-cases (too_few (first ∷ rest) (period + 1) period)) [
      | inl few ↦ inl (few, rw few refl)
      | inr enough ↦
          let up = λ (a b : Bar). gain_of (change a b) in
          let down = λ (a b : Bar). loss_of (change a b) in
          let nonzero : (period == 0) ≡ false = ground (arith, enough) in
          let long : ltb (length (pairwise_from up first rest)) period ≡ false =
            ground (arith, enough, length-pairwise_from up first rest) in
          let (g, eg, hg) =
            wilder-Returns period nonzero (pairwise_from up first rest)
              (All-pairwise_from IsNonneg up first rest (λ a b. gain_of-IsNonneg (change a b))) in
          let (l, el, hl) =
            wilder-Returns period nonzero (pairwise_from down first rest)
              (All-pairwise_from IsNonneg down first rest (λ a b. loss_of-IsNonneg (change a b))) in
          let (x, ex) = strength_index-returns g l hg hl in
          inr (enough, (x, rw (enough, long, eg, el, ex) refl))
    ]
