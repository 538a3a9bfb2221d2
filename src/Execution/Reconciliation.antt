-- ===== src/Execution/Reconciliation.antt =====
-- backend/execution/reconciliation.py: the comparison of the server's positions with the broker's.
-- The texts for the log (`detail`) and the time of the cycle are left out. `Decimal(str(lots))` of a
-- server position is the decimal that its row holds.
pub mod Loop
pub mod Verdict
use aurexis.Base.{
  ℕ, suc, String, Bool, true, false, not, ◌&&◌, Option, none, some, List, [], ◌∷◌, ◌++◌, ◌==◌,
  str_eq, any, Dict, lookup, ℕ_key, if◌then◌else◌,
}
use aurexis.Decimal.{Decimal, dec_zero, eqb_dec}
use aurexis.Execution.Commands.{OrderType, buy, sell}
use aurexis.Execution.Reports.{PositionReport}

-- A server position is a dict, whose keys may be missing.
pub record ServerPosition : Type 0 where
  pub lots : Option Decimal
  pub side : Option String
  pub status : Option String

pub data DiscrepancyType : Type 0 where
  orphan phantom volume_mismatch side_mismatch : DiscrepancyType

pub record Discrepancy : Type 0 where
  pub account_id : String
  pub broker_ticket : ℕ
  pub discrepancy_type : DiscrepancyType
  pub server_volume : Option Decimal
  pub broker_volume : Option Decimal

pub record ReconciliationResult : Type 0 where
  pub account_id : String
  pub is_clean : Bool
  pub matched_count : ℕ
  pub discrepancies : List Discrepancy

abbrev pub is_critical : Discrepancy → Bool
is_critical d = elim d.discrepancy_type [ phantom ↦ false | _ ↦ true ]

unfoldable pub has_critical_discrepancy : ReconciliationResult → Bool
has_critical_discrepancy r = any is_critical r.discrepancies

-- `sp.get("lots", 0)`, `sp.get("side", "")`
abbrev pub lots_of : ServerPosition → Decimal
lots_of sp = elim sp.lots [ none ↦ dec_zero | some lots ↦ lots ]

abbrev pub side_of : ServerPosition → String
side_of sp = elim sp.side [ none ↦ "" | some side ↦ side ]

abbrev pub is_open : ServerPosition → Bool
is_open sp = elim sp.status [ none ↦ false | some status ↦ str_eq status "OPEN" ]

abbrev pub side_text : OrderType → String
side_text buy = "BUY"
side_text sell = "SELL"

abbrev pub Positions : Type 0
Positions = Dict ℕ ServerPosition

abbrev discrepancy_at : String → ℕ → DiscrepancyType → Option Decimal → Option Decimal → Discrepancy
discrepancy_at account ticket kind server broker = record {
  account_id = account;
  broker_ticket = ticket;
  discrepancy_type = kind;
  server_volume = server;
  broker_volume = broker;
}

-- The body of the loop for one broker position: `none` is a match.
unfoldable pub compare_position :
    String → Option ServerPosition → PositionReport → Option Discrepancy
compare_position account none bp =
    some (discrepancy_at account bp.broker_ticket orphan none (some bp.lots))
compare_position account (some sp) bp =
    if not (eqb_dec (lots_of sp) bp.lots)
    then some
        (discrepancy_at account bp.broker_ticket volume_mismatch (some (lots_of sp)) (some bp.lots))
    else if not (str_eq (side_of sp) (side_text bp.side))
    then some
        (discrepancy_at account bp.broker_ticket side_mismatch (some (lots_of sp)) (some bp.lots))
    else none

-- The state of the loop over the broker's positions.
pub record Progress : Type 0 where
  pub found : List Discrepancy
  pub matched : ℕ
  pub seen : List ℕ

abbrev pub note : Option Discrepancy → ℕ → Progress → Progress
note none ticket p = record { found = p.found; matched = suc p.matched; seen = ticket ∷ p.seen }
note (some d) ticket p = record {
  found = p.found ++ d ∷ [];
  matched = p.matched;
  seen = ticket ∷ p.seen;
}

unfoldable pub compare_all : String → Positions → List PositionReport → Progress → Progress
unfolding compare_position lookup
compare_all account server [] p = p
compare_all account server (bp ∷ bps) p =
    compare_all account server bps
      (note (compare_position account (lookup bp.broker_ticket server) bp) bp.broker_ticket p)

abbrev pub seen_ticket : ℕ → List ℕ → Bool
seen_ticket t seen = any (λ s. s == t) seen

-- `ticket not in seen and sp.get("status") == "OPEN"`
abbrev pub is_phantom : List ℕ → ℕ × ServerPosition → Bool
is_phantom seen (ticket, sp) = not (seen_ticket ticket seen) && is_open sp

unfoldable pub phantoms : String → List ℕ → Positions → List Discrepancy
phantoms account seen [] = []
phantoms account seen ((ticket, sp) ∷ rest) =
    let more = phantoms account seen rest in
    if is_phantom seen (ticket, sp)
    then discrepancy_at account ticket phantom (some (lots_of sp)) none ∷ more
    else more

abbrev pub is_empty {ℓ} : {A : Type ℓ} → List A → Bool
is_empty [] = true
is_empty (_ ∷ _) = false

unfoldable pub reconcile : String → Positions → List PositionReport → ReconciliationResult
unfolding compare_all phantoms
reconcile account server broker =
    let p = compare_all account server broker (record { found = []; matched = 0; seen = [] }) in
    let discrepancies = p.found ++ phantoms account p.seen server in
    record {
      account_id = account;
      is_clean = is_empty discrepancies;
      matched_count = p.matched;
      discrepancies = discrepancies;
    }
