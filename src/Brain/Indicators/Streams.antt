-- ===== src/Brain/Indicators/Streams.antt =====
-- One more closed bar: what is computed anew over the longer list is one step from the value before.
use aurexis.Base.{
  ℕ, suc, zero, ◌+◌, ◌≤◌, ◌≡◌, refl, ◌∙◌, ap, true, false, ◌⊎◌, Option, none, some, List, [], ◌∷◌,
  ◌++◌, ltb, length, take, drop, arith, length-append, Bool-cases, inl, inr, sym,
}
use aurexis.Decimal.{Decimal, Checked, ok, err, ◌>>=◌}
use aurexis.Brain.MarketData.{Bar}
use aurexis.Brain.Indicators.{
  sum, over, too_few, found, true_range, pairwise_from, true_ranges, wilder_step, wilder_from,
  wilder, calculate_atr,
}

take-append {ℓ} :
    {A : Type ℓ} (n : ℕ) (xs ys : List A) → n ≤ length xs → take n (xs ++ ys) ≡ take n xs
take-append zero xs ys h = refl
take-append (suc n) [] ys h = absurd (omega arith)
take-append (suc n) (x ∷ xs) ys h = ap (λ t. x ∷ t) (take-append n xs ys (omega arith))

drop-append {ℓ} :
    {A : Type ℓ} (n : ℕ) (xs ys : List A) → n ≤ length xs → drop n (xs ++ ys) ≡ drop n xs ++ ys
drop-append zero xs ys h = refl
drop-append (suc n) [] ys h = absurd (omega arith)
drop-append (suc n) (x ∷ xs) ys h = drop-append n xs ys (omega arith)

-- The bar that the next one is compared with.
abbrev pub last_bar : Bar → List Bar → Bar
last_bar bar [] = bar
last_bar bar (next ∷ rest) = last_bar next rest

pairwise_from-append {ℓ} :
    {A : Type ℓ} (f : Bar → Bar → A) (prev : Bar) (bars : List Bar) (bar : Bar)
    → pairwise_from f prev (bars ++ bar ∷ [])
      ≡ pairwise_from f prev bars ++ f (last_bar prev bars) bar ∷ []
unfolding pairwise_from
pairwise_from-append f prev [] bar = refl
pairwise_from-append f prev (b ∷ bars) bar =
    ap (λ t. f prev b ∷ t) (pairwise_from-append f b bars bar)

pub length-pairwise_from {ℓ} :
    {A : Type ℓ} (f : Bar → Bar → A) (prev : Bar) (bars : List Bar)
    → length (pairwise_from f prev bars) ≡ length bars
unfolding pairwise_from
length-pairwise_from f prev [] = refl
length-pairwise_from f prev (b ∷ bars) = ap suc (length-pairwise_from f b bars)

bind-ok : (m : Checked Decimal) → (m >>= ok) ≡ m
bind-ok (ok x) = refl
bind-ok (err e) = refl

-- Two binds in a row, against one that does both.
bind_step :
    (m : Checked Decimal) (f g h : Decimal → Checked Decimal)
    → ((a : Decimal) → h a ≡ (f a >>= g))
    → (m >>= h) ≡ ((m >>= f) >>= g)
bind_step (ok a) f g h eq = eq a
bind_step (err e) f g h eq = refl

wilder_from-append :
    (period : ℕ) (average : Decimal) (xs : List Decimal) (x : Decimal)
    → wilder_from period average (xs ++ x ∷ [])
      ≡ (wilder_from period average xs >>= λ a. wilder_step period a x)
unfolding wilder_from
wilder_from-append period average [] x = bind-ok (wilder_step period average x)
wilder_from-append period average (y ∷ xs) x =
    bind_step (wilder_step period average y) (λ next. wilder_from period next xs)
      (λ a. wilder_step period a x) (λ next. wilder_from period next (xs ++ x ∷ []))
      (λ next. wilder_from-append period next xs x)

wilder-append :
    (period : ℕ) (xs : List Decimal) (x : Decimal)
    → period ≤ length xs
    → wilder period (xs ++ x ∷ []) ≡ (wilder period xs >>= λ a. wilder_step period a x)
unfolding wilder
wilder-append period xs x h =
    rw (take-append period xs (x ∷ []) h, drop-append period xs (x ∷ []) h)
      (bind_step (over (sum (take period xs)) period)
        (λ first. wilder_from period first (drop period xs)) (λ a. wilder_step period a x)
        (λ first. wilder_from period first (drop period xs ++ x ∷ []))
        (λ first. wilder_from-append period first (drop period xs) x))

-- The values behind an indicator that was found.
found-some : (m : Checked Decimal) (a : Decimal) → found m ≡ ok (some a) → m ≡ ok a
found-some (ok x) a h = cc
found-some (err e) a h = cc

length-ranges : (first : Bar) (rest : List Bar) → length (true_ranges (first ∷ rest)) ≡ length rest
unfolding true_ranges
length-ranges first rest = length-pairwise_from true_range first rest

true_ranges-append :
    (first : Bar) (rest : List Bar) (bar : Bar)
    → true_ranges ((first ∷ rest) ++ bar ∷ [])
      ≡ true_ranges (first ∷ rest) ++ true_range (last_bar first rest) bar ∷ []
unfolding true_ranges
true_ranges-append first rest bar = pairwise_from-append true_range first rest bar

not_less : (a b : ℕ) → a ≤ b → ltb b a ≡ false
not_less a b h = ground arith

ok_none-some : (a : Decimal) → ¬ (◌≡◌ {A = Checked (Option Decimal)} (ok none) (ok (some a)))
ok_none-some a h = cc

-- The second test of the code never decides.
pub calculate_atr_cases :
    (first : Bar) (rest : List Bar) (period : ℕ)
    → ((too_few (first ∷ rest) (period + 1) period ≡ true)
        × (calculate_atr (first ∷ rest) period ≡ ok none))
      ⊎ ((too_few (first ∷ rest) (period + 1) period ≡ false)
          × (period ≤ length rest)
          × (calculate_atr (first ∷ rest) period
              ≡ found (wilder period (true_ranges (first ∷ rest)))))
unfolding calculate_atr
calculate_atr_cases first rest period =
    let n = length-ranges first rest in
    elim (Bool-cases (too_few (first ∷ rest) (period + 1) period)) [
      | inl few ↦ inl (few, rw few refl)
      | inr enough ↦
          let long : period ≤ length rest = ground (arith, enough) in
          inr (enough, long, rw (enough, n, not_less period (length rest) long) refl)
    ]

-- One more closed bar costs one step: the average range over the longer list, computed anew, is
-- Wilder's step from the one before with the true range of the new bar.
pub calculate_atr-append :
    (first : Bar) (rest : List Bar) (bar : Bar) (period : ℕ) (a : Decimal)
    → calculate_atr (first ∷ rest) period ≡ ok (some a)
    → calculate_atr ((first ∷ rest) ++ bar ∷ []) period
      ≡ found (wilder_step period a (true_range (last_bar first rest) bar))
calculate_atr-append first rest bar period a h = elim (calculate_atr_cases first rest period) [
  | inl (few, nothing) ↦ absurd (ok_none-some a (sym nothing ∙ h))
  | inr (enough, long, found_before) ↦ elim (calculate_atr_cases first (rest ++ bar ∷ []) period) [
    | inl (few, nothing) ↦ absurd (ground (arith, few, enough, length-append rest (bar ∷ [])))
    | inr (enough', long', found_after) ↦
        found_after
        ∙ ap found (
            rw (true_ranges-append first rest bar) (
              wilder-append period (true_ranges (first ∷ rest)) _
                (rw (length-ranges first rest) long)
              ∙ rw (found-some _ a (sym found_before ∙ h)) refl))
  ]
]
