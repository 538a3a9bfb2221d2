-- ===== src/Execution/Reconciliation/Verdict.antt =====
-- What the verdict of a reconciliation means.
use aurexis.Base.{
  ℕ, ◌+◌, String, ◌≡◌, refl, ◌↔◌, ◌∙◌, ◌⊎◌, Bool, true, false, List, [], ◌∷◌, ◌++◌, arith, length,
  select, any, All, append-nil,
}
use aurexis.Execution.Reports.{PositionReport}
use aurexis.Execution.Reconciliation.{
  ServerPosition, Positions, Progress, is_empty, is_critical, has_critical_discrepancy, is_open,
  compare_all, phantoms, reconcile,
}
use aurexis.Execution.Reconciliation.Loop.{
  Tracked, Reported, NotPhantom, found_in, found-compare_all, matched-compare_all, seen-compare_all,
  found_in-nil, phantoms-nil, critical-found_in, critical-phantoms,
}

pub select-append {ℓ} :
    {A : Type ℓ} (p : A → Bool) (xs ys : List A) → select p (xs ++ ys) ≡ select p xs ++ select p ys
select-append p [] ys = refl
select-append p (x ∷ xs) ys = ground (arith, select-append p xs ys)

any-select {ℓ} : {A : Type ℓ} (p : A → Bool) (xs : List A) → (any p xs ≡ false) ↔ (select p xs ≡ [])
any-select p [] = ground arith
any-select p (x ∷ xs) = ground (arith, any-select p xs)

is_empty-append {ℓ} :
    {A : Type ℓ} (xs ys : List A) → (is_empty (xs ++ ys) ≡ true) ↔ ((xs ≡ []) × (ys ≡ []))
is_empty-append [] [] = ground arith
is_empty-append [] (y ∷ ys) = ground arith
is_empty-append (x ∷ xs) ys = ground arith

abbrev start : Progress
start = record { found = []; matched = 0; seen = [] }

module _ (account : String) (server : Positions) (broker : List PositionReport) where
  critical-reconcile :
      select is_critical (reconcile account server broker).discrepancies
      ≡ found_in account server broker
  unfolding reconcile
  critical-reconcile =
      select-append is_critical (compare_all account server broker start).found _
      ∙ rw (found-compare_all account server broker start, critical-found_in account server broker)
          (rw (critical-phantoms account _ server) (append-nil _))

  -- Every position that the broker reports is either matched or has exactly one discrepancy that
  -- halts new trades.
  pub reconcile_accounts :
      let r = reconcile account server broker in
      r.matched_count + length (select is_critical r.discrepancies) ≡ length broker
  unfolding reconcile
  reconcile_accounts =
      rw critical-reconcile (matched-compare_all account server broker start ∙ omega arith)

  -- New trades are not halted exactly when the server tracks every position of the broker, with
  -- its lots and its side. Positions that only the server has do not halt them.
  pub has_critical_discrepancy_iff :
      (has_critical_discrepancy (reconcile account server broker) ≡ false)
      ↔ All (Tracked server) broker
  unfolding has_critical_discrepancy
  has_critical_discrepancy_iff = ground (
    arith,
    any-select is_critical (reconcile account server broker).discrepancies,
    critical-reconcile,
    found_in-nil account server broker,
  )

  -- A server position is closed, or the broker reports it.
  abbrev pub Live : ℕ × ServerPosition → Type 0
  Live (t, sp) = (is_open sp ≡ false) ⊎ Reported broker t

  Live-iff :
      (entries : Positions)
      → All (NotPhantom (compare_all account server broker start).seen) entries ↔ All Live entries
  Live-iff [] = ground arith
  Live-iff ((t, sp) ∷ rest) =
      ground (arith, Live-iff rest, seen-compare_all account server broker start t)

  -- A cycle is clean exactly when both sides agree: the server tracks what the broker reports, and
  -- the broker reports what the server holds open.
  pub is_clean_iff :
      ((reconcile account server broker).is_clean ≡ true)
      ↔ (All (Tracked server) broker × All Live server)
  unfolding reconcile
  is_clean_iff =
      let seen = (compare_all account server broker start).seen in
      ground (
        arith,
        is_empty-append (compare_all account server broker start).found
            (phantoms account seen server),
        found-compare_all account server broker start,
        found_in-nil account server broker,
        phantoms-nil account seen server,
        Live-iff server,
      )
