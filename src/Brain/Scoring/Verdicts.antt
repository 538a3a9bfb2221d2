-- ===== src/Brain/Scoring/Verdicts.antt =====
-- What a signal with a direction rests on.
use aurexis.Base.{
  String, ◌≡◌, ◌≢◌, refl, ◌⊎◌, inl, inr, true, false, Option, none, some, str_eq, eq_iff, arith,
  Bool-cases, Option-cases,
}
use aurexis.Decimal.{Decimal, dec, ltb_dec, leb_dec}
use aurexis.Decimal.Order.{leb_dec_trans, leb_dec_refl, leb_dec_of_ltb, ltb_dec_of_not_leb}
use aurexis.Brain.Interfaces.{CandidateSignal}
use aurexis.Brain.MarketData.{Tick}
use aurexis.Brain.Structure.{StructureState}
use aurexis.Brain.Scoring.{RegimeContext, permits_new_entry, Side, buy, sell, MultiFactorScorer}
use aurexis.Brain.Scoring.Signals.{
  spread, confidence, range_or_one, compute_sl_tp, no_signal, directed_signal, Best, consider,
  evaluate,
}

-- A score above one that is not negative is positive.
above_zero :
    (a b : Decimal) → leb_dec (dec 0 1) b ≡ true → leb_dec a b ≡ false → ltb_dec (dec 0 1) a ≡ true
above_zero a b h k = elim (Bool-cases (leb_dec a (dec 0 1))) [
  | inl low ↦ ground (arith, k, leb_dec_trans a (dec 0 1) b low h)
  | inr high ↦ ltb_dec_of_not_leb (dec 0 1) a high
]

module _ (m : MultiFactorScorer) (tick : Tick) (structure : StructureState) (reg : RegimeContext)
    (setup : String) where
  abbrev score : Side → Decimal
  score d = confidence m d structure reg setup

  abbrev levels : Side → Option (Decimal × Decimal)
  levels d = compute_sl_tp m tick structure (range_or_one reg.atr) d

  -- A side that can give no signal, or whose score is no higher.
  abbrev pub Beaten : Side → Decimal → Type 0
  Beaten d conf =
      (ltb_dec (score d) m.min_conf ≡ true) ⊎ ((levels d ≡ none) ⊎ (leb_dec (score d) conf ≡ true))

  -- The best of the sides that were considered.
  pub data Chosen : Best → Type 0 where
    neither : Chosen (no_signal m tick, dec 0 1)
    side :
        (d : Side) (sl_tp : Decimal × Decimal)
        → levels d ≡ some sl_tp
        → ltb_dec (score d) m.min_conf ≡ false
        → ltb_dec (dec 0 1) (score d) ≡ true
        → Chosen (directed_signal m tick d (score d) sl_tp, score d)

  consider-Chosen :
      (d : Side) (best : Best)
      → Chosen best
      → leb_dec (dec 0 1) best.1 ≡ true
      → Chosen (consider m tick structure reg setup d best)
        × (leb_dec (dec 0 1) (consider m tick structure reg setup d best).1 ≡ true)
        × (leb_dec best.1 (consider m tick structure reg setup d best).1 ≡ true)
        × Beaten d (consider m tick structure reg setup d best).1
  unfolding consider
  consider-Chosen d best h k = elim (Bool-cases (ltb_dec (score d) m.min_conf)) [
    | inl low ↦ rw low (h, k, leb_dec_refl best.1, inl refl)
    | inr enough ↦ elim (Bool-cases (leb_dec (score d) best.1)) [
      | inl worse ↦ rw (enough, worse) (h, k, leb_dec_refl best.1, inr (inr worse))
      | inr more ↦ elim (Option-cases (levels d)) [
        | inl no_stop ↦ rw (enough, more, no_stop) (h, k, leb_dec_refl best.1, inr (inl refl))
        | inr (sl_tp, e) ↦
            rw (enough, more, e)
              (
                side d sl_tp e enough (above_zero (score d) best.1 k more),
                leb_dec_of_ltb (dec 0 1) (score d) (above_zero (score d) best.1 k more),
                leb_dec_of_ltb best.1 (score d) (ltb_dec_of_not_leb best.1 (score d) more),
                inr (inr (leb_dec_refl (score d))),
              )
      ]
    ]
  ]

  Beaten-weaken : (d : Side) (a b : Decimal) → leb_dec a b ≡ true → Beaten d a → Beaten d b
  Beaten-weaken d a b h (inl low) = inl low
  Beaten-weaken d a b h (inr (inl none_left)) = inr (inl none_left)
  Beaten-weaken d a b h (inr (inr worse)) = inr (inr (leb_dec_trans (score d) a b worse h))

  -- Why a signal is as it is: a gate is closed, no side qualifies, or the side stands that does.
  pub data Verdict (news : String) : CandidateSignal → Type 0 where
    blocked :
        (news ≢ "CLEAR")
          ⊎ ((ltb_dec m.max_spread (spread tick) ≡ true) ⊎ (permits_new_entry reg ≡ false))
        → Verdict news (no_signal m tick)
    undirected : Beaten buy (dec 0 1) → Beaten sell (dec 0 1) → Verdict news (no_signal m tick)
    directed :
        (d : Side) (sl_tp : Decimal × Decimal)
        → news ≡ "CLEAR"
        → ltb_dec m.max_spread (spread tick) ≡ false
        → permits_new_entry reg ≡ true
        → levels d ≡ some sl_tp
        → ltb_dec (score d) m.min_conf ≡ false
        → ltb_dec (dec 0 1) (score d) ≡ true
        → Beaten buy (score d)
        → Beaten sell (score d)
        → Verdict news (directed_signal m tick d (score d) sl_tp)

  Verdict-of :
      (news : String) (best : Best)
      → news ≡ "CLEAR"
      → ltb_dec m.max_spread (spread tick) ≡ false
      → permits_new_entry reg ≡ true
      → Chosen best
      → Beaten buy best.1
      → Beaten sell best.1
      → Verdict news best.0
  Verdict-of news best clear narrow open_regime neither b s = undirected b s
  Verdict-of news best clear narrow open_regime (side d sl_tp e enough high) b s =
      directed d sl_tp clear narrow open_regime e enough high b s

  -- Every signal has its reason. Without direction: the news are not clear, the spread is too wide,
  -- the regime permits no entry, or each side has a score below the minimum, no stop, or no
  -- positive score. With a direction: the gates are open, the side's score is positive and at least
  -- the minimum, its stop and target are the computed ones, and the other side does not have a
  -- higher score with a stop.
  pub evaluate-Verdict : (news : String) → Verdict news (evaluate m tick structure reg news setup)
  unfolding evaluate
  evaluate-Verdict news =
      let (c1, z1, up1, b1) =
        consider-Chosen buy (no_signal m tick, dec 0 1) neither (leb_dec_refl (dec 0 1)) in
      let first = consider m tick structure reg setup buy (no_signal m tick, dec 0 1) in
      let (c2, z2, up2, b2) = consider-Chosen sell first c1 z1 in
      let second = consider m tick structure reg setup sell first in
      elim (Bool-cases (str_eq news "CLEAR")) [
        | inr other ↦ rw other (blocked (inl (λ e. ground (arith, other, e, eq_iff news "CLEAR"))))
        | inl clear ↦ elim (Bool-cases (ltb_dec m.max_spread (spread tick))) [
          | inl wide ↦ rw (clear, wide) (blocked (inr (inl wide)))
          | inr narrow ↦ elim (Bool-cases (permits_new_entry reg)) [
            | inr shut ↦ rw (clear, narrow, shut) (blocked (inr (inr shut)))
            | inl permits ↦
                rw (clear, narrow, permits)
                  (Verdict-of news second ((eq_iff news "CLEAR").0 clear) narrow permits c2
                    (Beaten-weaken buy first.1 second.1 up2 b1) b2)
          ]
        ]
      ]
