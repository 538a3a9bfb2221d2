-- ===== src/Services/TradingPipeline/Cycle/Freeze.antt =====
-- The circuit breaker: when an account is frozen, and that a frozen one does not trade.
use aurexis.Base.{
  String, String_key, ◌≡◌, refl, true, false, ◌||◌, Option, arith, lookup, lookup-insert, eq_refl,
  is_some, subst, ap, ◌∙◌, sym,
}
use aurexis.Decimal.{Checked, ok, err, IfOk}
use aurexis.Brain.MarketData.{Tick}
use aurexis.Services.TradingPipeline.{
  PipelineCycleResult, TradingPipeline, Moments, freeze_account, is_account_frozen, freeze_reason,
}
use aurexis.Services.TradingPipeline.Cycle.{Result, with_db, process_tick}
use aurexis.Services.TradingPipeline.Cycle.Stages.{process_tick-Course}
use aurexis.Services.TradingPipeline.Cycle.Guards.{
  Untouched, Course, execution, idle, raised, traded,
}
use aurexis.Services.TradingPipeline.Cycle.Endings.{
  not_both, halted, Unreconciled-halted, compared, Ending, broken, clean, reconciled-Ending,
}

at_ok : {A : Type 0} (P : A → Type 0) (c : Checked A) (a : A) → c ≡ ok a → IfOk P c → P a
at_ok P (ok x) a e h = let same : x ≡ a = cc in subst P same h
at_ok P (err x) a e h = cc

-- The account is frozen after the cycle where it was before, or the cycle found a discrepancy.
abbrev pub Freezes : TradingPipeline → Result → Type 0
Freezes p (o, p') =
    is_account_frozen p.account_id p' ≡ (is_account_frozen p.account_id p || halted o)

is_account_frozen-freeze_account :
    (account reason : String) (q : TradingPipeline)
    → is_account_frozen account (freeze_account account reason q) ≡ true
unfolding freeze_account is_account_frozen
is_account_frozen-freeze_account account reason q =
    ground (arith, eq_refl account, lookup-insert account account reason q.frozen_accounts)

same_frozen-is_account_frozen :
    (p q : TradingPipeline)
    → q.frozen_accounts ≡ p.frozen_accounts
    → is_account_frozen p.account_id q ≡ is_account_frozen p.account_id p
unfolding is_account_frozen
same_frozen-is_account_frozen p q f = ap (λ known. is_some (lookup p.account_id known)) f

Ending-Freezes :
    (p q : TradingPipeline) (r : PipelineCycleResult) {x : Result}
    → q.account_id ≡ p.account_id
    → q.frozen_accounts ≡ p.frozen_accounts
    → is_account_frozen p.account_id p ≡ false
    → Ending q r x
    → Freezes p x
Ending-Freezes p q r a f free (broken db events e same) =
    ap
      (λ account.
        is_account_frozen account
          (freeze_account q.account_id (freeze_reason (compared q).0) (with_db q db)))
      (sym a)
    ∙ is_account_frozen-freeze_account q.account_id (freeze_reason (compared q).0) (with_db q db)
    ∙ ground (arith, free, e)
Ending-Freezes p q r a f free (clean db e same) =
    same_frozen-is_account_frozen p (with_db q db) f ∙ ground (arith, free, e)

pub Course-Freezes :
    (t : Moments) (p : TradingPipeline) (tick : Tick) (news : String) {r : Result}
    → Course t p tick news r
    → Freezes p r
Course-Freezes t p tick news (idle o p' u same) =
    ground (arith, Unreconciled-halted o u, same_frozen-is_account_frozen p p' same.same_frozen)
Course-Freezes t p tick news (raised q row decision u a at) =
    same_frozen-is_account_frozen p
      (record q { world = (execution t p tick news q row decision).1 }) u.same_frozen
    ∙ ground (arith, a.signalled_by.not_frozen)
Course-Freezes t p tick news (traded q row decision status r u a at) =
    Ending-Freezes p _ r u.same_account u.same_frozen a.signalled_by.not_frozen
      (reconciled-Ending t _ r)

-- A sequence of cycles.
pub data Reach (p : TradingPipeline) : TradingPipeline → Type 0 where
  here : Reach p p
  later :
      (q : TradingPipeline) (t : Moments) (tick : Tick) (news : String)
      (o : Option PipelineCycleResult) (q' : TradingPipeline)
      → Reach p q
      → process_tick t q tick news ≡ ok (o, q')
      → Reach p q'

frozen-Untouched :
    (t : Moments) (p : TradingPipeline) (tick : Tick) (news : String) {r : Result}
    → Course t p tick news r
    → is_account_frozen p.account_id p ≡ true
    → Untouched p r.1
frozen-Untouched t p tick news (idle o p' u same) h = same
frozen-Untouched t p tick news (raised q row decision u a at) h =
    absurd (not_both h a.signalled_by.not_frozen)
frozen-Untouched t p tick news (traded q row decision status r u a at) h =
    absurd (not_both h a.signalled_by.not_frozen)

-- Once an account is frozen, no sequence of cycles sends an order, fills anything or lifts the freeze.
pub Reach-Untouched :
    (p q : TradingPipeline)
    → is_account_frozen p.account_id p ≡ true
    → Reach p q
    → Untouched p q × (is_account_frozen q.account_id q ≡ true)
Reach-Untouched p q h here = (
  record {
    same_account = refl;
    same_frozen = refl;
    same_broker = refl;
    same_commands = refl;
    same_positions = refl;
  },
  h,
)
Reach-Untouched p end h (later q t tick news o q' r e) =
    let (before, frozen) = Reach-Untouched p q h r in
    let step =
      frozen-Untouched t q tick news
        (at_ok (Course t q tick news) (process_tick t q tick news) (o, q') e
          (process_tick-Course t q tick news))
        frozen in
    (
      record {
        same_account = step.same_account ∙ before.same_account;
        same_frozen = step.same_frozen ∙ before.same_frozen;
        same_broker = step.same_broker ∙ before.same_broker;
        same_commands = step.same_commands ∙ before.same_commands;
        same_positions = step.same_positions ∙ before.same_positions;
      },
      subst (λ account. is_account_frozen account q' ≡ true) (sym step.same_account)
          (same_frozen-is_account_frozen q q' step.same_frozen ∙ frozen),
    )
