-- ===== src/Services/Mt5Session/Rows.antt =====
-- The rows of the agents: what changing one of them in place does to the lookups.
use aurexis.Base.{
  ℕ, true, false, ◌≡◌, refl, ◌⊎◌, inl, inr, Option, none, some, List, [], ◌∷◌, ◌==◌, ==_iff, arith,
  any, map, select, All, subst, Bool-cases, if◌then◌else◌,
}
use aurexis.Services.Database.{latest_from}
use aurexis.Services.Mt5Session.{Agent, find, store, is_agent}

-- The primary key of the agents.
abbrev pub HasUniqueIds : List Agent → Type 0
HasUniqueIds [] = Unit
HasUniqueIds (a ∷ rows) = (any (λ b. b.id == a.id) rows ≡ false) × HasUniqueIds rows

module _ (a : Agent) where
  abbrev pub swap : Agent → Agent
  swap b = if b.id == a.id then a else b

  abbrev pub swap_in : Option Agent → Option Agent
  swap_in none = none
  swap_in (some b) = some (swap b)

  -- Another agent, or one with this one's account and time of creation.
  abbrev pub Fits : Agent → Type 0
  Fits b =
      ((b.id == a.id) ≡ false) ⊎ ((b.created_at ≡ a.created_at) × (b.account_id ≡ a.account_id))

  absent-Fits :
      (rows : List Agent)
      → any (λ b. b.id == a.id) rows ≡ false
      → All Fits rows × (map swap rows ≡ rows)
  absent-Fits [] h = (tt, refl)
  absent-Fits (r ∷ rows) h = ground (arith, absent-Fits rows)

  at_id :
      (i : ℕ) (rows : List Agent)
      → i ≡ a.id
      → any (λ b. b.id == i) rows ≡ false
      → any (λ b. b.id == a.id) rows ≡ false
  at_id i rows e h = subst (λ j. any (λ b. b.id == j) rows ≡ false) e h

  pub store-map : (rows : List Agent) → HasUniqueIds rows → store a rows ≡ map swap rows
  unfolding store
  store-map [] h = refl
  store-map (r ∷ rows) (h, hs) = elim (Bool-cases (r.id == a.id)) [
    | inl same ↦
        rw (same, (absent-Fits rows (at_id r.id rows ((==_iff r.id a.id).0 same) h)).1) refl
    | inr other ↦ rw (other, store-map rows hs) refl
  ]

  pub found-any :
      (account : ℕ) (rows : List Agent) (row : Agent)
      → find (is_agent a.id account) rows ≡ some row
      → any (λ b. b.id == a.id) rows ≡ true
  unfolding find
  found-any account [] row h = cc
  found-any account (r ∷ rows) row h = ground (arith, found-any account rows row)

  pub found-Fits :
      (rows : List Agent) (row : Agent)
      → HasUniqueIds rows
      → find (is_agent a.id a.account_id) rows ≡ some row
      → row.created_at ≡ a.created_at
      → All Fits rows
  unfolding find
  found-Fits [] row h e k = tt
  found-Fits (r ∷ rows) row (h, hs) e k = elim (Bool-cases (r.id == a.id)) [
    | inr other ↦ (inl other, found-Fits rows row hs (ground (arith, other, e)) k)
    | inl same ↦
        let missing = at_id r.id rows ((==_iff r.id a.id).0 same) h in
        elim (Bool-cases (r.account_id == a.account_id)) [
          | inl here ↦ (inr (ground (arith, same, here, e, k)), (absent-Fits rows missing).0)
          | inr there ↦
              absurd (
                ground (arith, missing, found-any a.account_id rows row (ground (arith, there, e))))
        ]
  ]

  -- The rows of an account after the swap are the rows from before, swapped.
  pub select-map :
      (account : ℕ) (rows : List Agent)
      → All Fits rows
      → (select (λ b. b.account_id == account) (map swap rows)
          ≡ map swap (select (λ b. b.account_id == account) rows))
        × All Fits (select (λ b. b.account_id == account) rows)
  select-map account [] h = (refl, tt)
  select-map account (r ∷ rows) (h, hs) = ground (arith, select-map account rows)

  latest-swap :
      (best : Agent) (rows : List Agent)
      → Fits best
      → All Fits rows
      → latest_from (λ b. b.created_at) (some (swap best)) (map swap rows)
        ≡ swap_in (latest_from (λ b. b.created_at) (some best) rows)
  unfolding latest_from
  latest-swap best [] k h = refl
  latest-swap best (r ∷ rows) k (h, hs) =
      ground (arith, latest-swap best rows k, latest-swap r rows h)

  pub latest_from-map :
      (rows : List Agent)
      → All Fits rows
      → latest_from (λ b. b.created_at) none (map swap rows)
        ≡ swap_in (latest_from (λ b. b.created_at) none rows)
  unfolding latest_from
  latest_from-map [] h = refl
  latest_from-map (r ∷ rows) (h, hs) = latest-swap r rows h hs

  find-store :
      (rows : List Agent)
      → any (λ b. b.id == a.id) rows ≡ true
      → find (λ b. b.id == a.id) (store a rows) ≡ some a
  unfolding find store
  find-store [] h = cc
  find-store (r ∷ rows) h = ground (arith, find-store rows)

  -- What storing an agent does to the lookups: by its id, it is found; and where it is the latest of
  -- its account, the latest is what it is now.
  pub store-lookups :
      (rows : List Agent) (row latest : Agent)
      → HasUniqueIds rows
      → find (is_agent a.id a.account_id) rows ≡ some row
      → row.created_at ≡ a.created_at
      → latest_from (λ b. b.created_at) none (select (λ b. b.account_id == a.account_id) rows)
        ≡ some latest
      → latest.id ≡ a.id
      → (find (λ b. b.id == a.id) (store a rows) ≡ some a)
        × (latest_from
              (λ b. b.created_at)
              none
              (select (λ b. b.account_id == a.account_id) (store a rows))
            ≡ some a)
  store-lookups rows row latest unique found born picked same =
      let fits = found-Fits rows row unique found born in
      let (chosen, fit) = select-map a.account_id rows fits in
      (
        find-store rows (found-any a.account_id rows row found),
        rw (store-map rows unique, chosen, latest_from-map _ fit, picked, same) (ground arith),
      )
