-- ===== src/Execution/Reconciliation/Loop.antt =====
-- The two loops of `reconcile`, against plain recursions over the positions.
use aurexis.Base.{
  ℕ, suc, ◌+◌, String, ◌≡◌, refl, ◌↔◌, ◌∙◌, ◌⊎◌, select, append-nil, append_assoc, true, false,
  Option, none, some, List, [], ◌∷◌, ◌++◌, arith, length, All, lookup, ℕ_key, eq_iff,
}
use aurexis.Decimal.{eqb_dec}
use aurexis.Execution.Reports.{PositionReport}
use aurexis.Execution.Reconciliation.{
  ServerPosition, Positions, Discrepancy, Progress, is_critical, lots_of, side_of, is_open,
  side_text, compare_position, compare_all, note, seen_ticket, phantoms,
}

-- The server knows the broker's position, with its lots and its side.
abbrev Agrees : Option ServerPosition → PositionReport → Type 0
Agrees none bp = ⊥
Agrees (some sp) bp = (eqb_dec (lots_of sp) bp.lots ≡ true) × (side_of sp ≡ side_text bp.side)

abbrev pub Tracked : Positions → PositionReport → Type 0
Tracked server bp = Agrees (lookup bp.broker_ticket server) bp

-- The broker reports the ticket.
abbrev pub Reported : List PositionReport → ℕ → Type 0
Reported [] t = ⊥
Reported (bp ∷ bps) t = (bp.broker_ticket ≡ t) ⊎ Reported bps t

compare_position-none :
    (account : String) (sp : Option ServerPosition) (bp : PositionReport)
    → (compare_position account sp bp ≡ none) ↔ Agrees sp bp
unfolding compare_position
compare_position-none account none bp = ground arith
compare_position-none account (some sp) bp = ground (arith, eq_iff (side_of sp) (side_text bp.side))

abbrev prepend : Option Discrepancy → List Discrepancy → List Discrepancy
prepend none rest = rest
prepend (some d) rest = d ∷ rest

-- The discrepancies of the broker's positions, in their order.
pub found_in : String → Positions → List PositionReport → List Discrepancy
found_in account server [] = []
found_in account server (bp ∷ bps) =
    prepend (compare_position account (lookup bp.broker_ticket server) bp)
      (found_in account server bps)

found-note :
    (o : Option Discrepancy) (t : ℕ) (p : Progress) (rest : List Discrepancy)
    → (note o t p).found ++ rest ≡ p.found ++ prepend o rest
found-note none t p rest = refl
found-note (some d) t p rest = append_assoc p.found (d ∷ []) rest

pub found-compare_all :
    (account : String) (server : Positions) (bps : List PositionReport) (p : Progress)
    → (compare_all account server bps p).found ≡ p.found ++ found_in account server bps
unfolding compare_all found_in
found-compare_all account server [] p = rw append-nil
found-compare_all account server (bp ∷ bps) p =
    let o = compare_position account (lookup bp.broker_ticket server) bp in
    found-compare_all account server bps (note o bp.broker_ticket p)
    ∙ found-note o bp.broker_ticket p (found_in account server bps)

matched-note :
    (o : Option Discrepancy) (t : ℕ) (p : Progress) (rest : List Discrepancy)
    → (note o t p).matched + length (prepend o rest) ≡ p.matched + suc (length rest)
matched-note none t p rest = omega arith
matched-note (some d) t p rest = refl

pub matched-compare_all :
    (account : String) (server : Positions) (bps : List PositionReport) (p : Progress)
    → (compare_all account server bps p).matched + length (found_in account server bps)
      ≡ p.matched + length bps
unfolding compare_all found_in
matched-compare_all account server [] p = refl
matched-compare_all account server (bp ∷ bps) p =
    let o = compare_position account (lookup bp.broker_ticket server) bp in
    let rest = found_in account server bps in
    omega (
      arith,
      matched-compare_all account server bps (note o bp.broker_ticket p),
      matched-note o bp.broker_ticket p rest,
    )

seen-note :
    (o : Option Discrepancy) (t u : ℕ) (p : Progress)
    → (seen_ticket u (note o t p).seen ≡ true) ↔ ((t ≡ u) ⊎ (seen_ticket u p.seen ≡ true))
seen-note none t u p = ground arith
seen-note (some d) t u p = ground arith

-- After the loop the seen tickets are the reported ones.
pub seen-compare_all :
    (account : String) (server : Positions) (bps : List PositionReport) (p : Progress) (u : ℕ)
    → (seen_ticket u (compare_all account server bps p).seen ≡ true)
      ↔ (Reported bps u ⊎ (seen_ticket u p.seen ≡ true))
unfolding compare_all
seen-compare_all account server [] p u = ground arith
seen-compare_all account server (bp ∷ bps) p u =
    let o = compare_position account (lookup bp.broker_ticket server) bp in
    ground (
      arith,
      seen-compare_all account server bps (note o bp.broker_ticket p) u,
      seen-note o bp.broker_ticket u p,
    )

pub found_in-nil :
    (account : String) (server : Positions) (bps : List PositionReport)
    → (found_in account server bps ≡ []) ↔ All (Tracked server) bps
unfolding found_in
found_in-nil account server [] = ground arith
found_in-nil account server (bp ∷ bps) = ground (
  arith,
  compare_position-none account (lookup bp.broker_ticket server) bp,
  found_in-nil account server bps,
)

-- Each discrepancy of a broker position is critical.
pub critical-found_in :
    (account : String) (server : Positions) (bps : List PositionReport)
    → select is_critical (found_in account server bps) ≡ found_in account server bps
unfolding found_in compare_position
critical-found_in account server [] = refl
critical-found_in account server (bp ∷ bps) = ground (arith, critical-found_in account server bps)

pub critical-phantoms :
    (account : String) (seen : List ℕ) (server : Positions)
    → select is_critical (phantoms account seen server) ≡ []
unfolding phantoms
critical-phantoms account seen [] = refl
critical-phantoms account seen ((t, sp) ∷ rest) =
    ground (arith, critical-phantoms account seen rest)

-- A server position is closed, or among the seen tickets.
abbrev pub NotPhantom : List ℕ → ℕ × ServerPosition → Type 0
NotPhantom seen (t, sp) = (is_open sp ≡ false) ⊎ (seen_ticket t seen ≡ true)

pub phantoms-nil :
    (account : String) (seen : List ℕ) (server : Positions)
    → (phantoms account seen server ≡ []) ↔ All (NotPhantom seen) server
unfolding phantoms
phantoms-nil account seen [] = ground arith
phantoms-nil account seen ((t, sp) ∷ rest) = ground (arith, phantoms-nil account seen rest)
