-- ===== src/Brain/BarManager/Streams.antt =====
-- What a tick that was taken in leaves: every builder has had it, and only a valid one is taken.
use aurexis.Base.{
  suc, String, ◌≡◌, refl, Bool, true, false, not, Option, none, some, [], ◌∷◌, Bool-cases, inl, inr,
  lookup, Dict, String_key, str_eq, subst, if◌then◌else◌, eq_iff, arith,
}
use aurexis.Decimal.{dec_zero, Checked, ok, err, ◌>>=◌, leb_dec, ltb_dec}
use aurexis.Brain.MarketData.{Tick, Bar}
use aurexis.Brain.BarBuilder.{BarBuilder, process_tick}
use aurexis.Brain.BarManager.{
  BarManager, is_valid, validate_tick, earlier, ingest_tick, add_closed, update_builders,
}

-- What validity means.
pub record IsSound (m : BarManager) (tick : Tick) : Type 0 where
  pub of_symbol : tick.symbol ≡ m.symbol
  pub bid_positive : leb_dec tick.bid dec_zero ≡ false
  pub ask_positive : leb_dec tick.ask dec_zero ≡ false
  pub not_crossed : ltb_dec tick.ask tick.bid ≡ false
  pub in_order : earlier tick m.last_tick ≡ false

validate_tick-IsSound :
    (m : BarManager) (tick : Tick) → is_valid (validate_tick m tick) ≡ true → IsSound m tick
unfolding validate_tick
validate_tick-IsSound m tick h = record {
  of_symbol = (eq_iff tick.symbol m.symbol).0 (ground arith);
  bid_positive = ground arith;
  ask_positive = ground arith;
  not_crossed = ground arith;
  in_order = ground arith;
}

abbrev Continues : Tick → BarBuilder → String → Dict String BarBuilder → Type 0
Continues tick b tf builders =
    (u : Option Bar × BarBuilder) × (process_tick b tick ≡ ok u) × (lookup tf builders ≡ some u.1)

entry-lookup :
    (tick : Tick) (key tf : String) (c b : BarBuilder) (u : Option Bar × BarBuilder)
    (rest others : Dict String BarBuilder)
    → process_tick c tick ≡ ok u
    → lookup tf ((key, c) ∷ rest) ≡ some b
    → (lookup tf rest ≡ some b → Continues tick b tf others)
    → Continues tick b tf ((key, u.1) ∷ others)
unfolding lookup
entry-lookup tick key tf c b u rest others e h later = elim (Bool-cases (str_eq key tf)) [
  | inl same ↦ (u, subst (λ x. process_tick x tick ≡ ok u) (ground arith) e, rw same refl)
  | inr apart ↦ after apart (later (ground arith))
]
  where
    after :
        str_eq key tf ≡ false
        → Continues tick b tf others
        → Continues tick b tf ((key, u.1) ∷ others)
    after apart (v, ev, ef) = (v, ev, rw apart ef)

update_builders-lookup :
    (tick : Tick) (builders : Dict String BarBuilder) (tf : String) (b : BarBuilder)
    (r : Dict String Bar × Dict String BarBuilder)
    → lookup tf builders ≡ some b
    → update_builders tick builders ≡ ok r
    → Continues tick b tf r.1
unfolding update_builders lookup
update_builders-lookup tick [] tf b r h e = cc
update_builders-lookup tick ((key, c) ∷ rest) tf b r h e =
    go (process_tick c tick) refl (update_builders tick rest) refl e
      (λ q found eq. update_builders-lookup tick rest tf b q found eq)
  where
    go :
        (p : Checked (Option Bar × BarBuilder))
        → process_tick c tick ≡ p
        → (q : Checked (Dict String Bar × Dict String BarBuilder)) → update_builders tick rest ≡ q
        → (p >>= λ u. q >>= λ others. ok (add_closed key u.0 others.0, (key, u.1) ∷ others.1))
          ≡ ok r
        → ((q' : Dict String Bar × Dict String BarBuilder)
            → lookup tf rest ≡ some b
            → update_builders tick rest ≡ ok q'
            → Continues tick b tf q'.1)
        → Continues tick b tf r.1
    go (err x) ep q eq h1 later = cc
    go (ok u) ep (err x) eq h1 later = cc
    go (ok u) ep (ok others) eq h1 later =
        let same : (add_closed key u.0 others.0, (key, u.1) ∷ others.1) ≡ r = cc in
        subst (λ (x : Dict String Bar × Dict String BarBuilder). Continues tick b tf x.1) same
          (entry-lookup tick key tf c b u rest others.1 ep h (λ found. later others found eq))

-- A tick that is taken in has the manager's symbol, positive prices that are not crossed, and a time
-- not before the last one; it becomes the last tick and is counted once; and each timeframe's
-- builder goes on exactly as it would alone.
pub ingest_tick-Independent :
    (m : BarManager) (tick : Tick) (tf : String) (b : BarBuilder) (closed : Dict String Bar)
    (m' : BarManager)
    → lookup tf m.builders ≡ some b
    → ingest_tick m tick ≡ ok (some (closed, m'))
    → IsSound m tick
      × (m'.last_tick ≡ some tick)
      × (m'.tick_count ≡ suc m.tick_count)
      × ((u : Option Bar × BarBuilder) × (process_tick b tick ≡ ok u)
          × (lookup tf m'.builders ≡ some u.1))
unfolding ingest_tick
ingest_tick-Independent m tick tf b closed m' h e =
    go (is_valid (validate_tick m tick)) refl (update_builders tick m.builders) refl e
  where
    go :
        (v : Bool)
        → is_valid (validate_tick m tick) ≡ v
        → (q : Checked (Dict String Bar × Dict String BarBuilder))
        → update_builders tick m.builders ≡ q
        → (if◌then◌else◌ {A = Checked (Option (Dict String Bar × BarManager))} (not v) (ok none) (
            q >>= λ u. ok (
              some (
                u.0,
                record m { builders = u.1; last_tick = some tick; tick_count = suc m.tick_count },
              ))))
          ≡ ok (some (closed, m'))
        → IsSound m tick
          × (m'.last_tick ≡ some tick)
          × (m'.tick_count ≡ suc m.tick_count)
          × Continues tick b tf m'.builders
    go false ev q eq h1 = cc
    go true ev (err x) eq h1 = cc
    go true ev (ok u) eq h1 =
        let same : (record m {
          builders = u.1;
          last_tick = some tick;
          tick_count = suc m.tick_count;
        })
            ≡ m' =
          cc in
        subst
          (λ (x : BarManager).
            IsSound m tick
            × (x.last_tick ≡ some tick)
            × (x.tick_count ≡ suc m.tick_count)
            × Continues tick b tf x.builders)
          same
          (
            validate_tick-IsSound m tick ev,
            refl,
            refl,
            update_builders-lookup tick m.builders tf b u h eq,
          )
