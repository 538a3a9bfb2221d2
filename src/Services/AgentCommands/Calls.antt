-- ===== src/Services/AgentCommands/Calls.antt =====
-- Sequences of calls by several agents on one database: ids stay, and a finished command stays.
use aurexis.Base.{
  subst, ℕ, zero, suc, ◌≡◌, refl, ◌≢◌, ◌⊎◌, Option, none, some, List, [], ◌∷◌, arith, map, All,
  String,
}
use aurexis.Services.AgentCommands.{
  AgentCommand, Result, CommandStatus, pending, completed, failed, expired, Database, put_row,
  get_row, get_command,
}
use aurexis.Services.AgentCommands.Operations.{
  Environment, complete_command, acknowledge_command, fail_command, claim_rows,
  claim_pending_commands,
}
use aurexis.Services.AgentCommands.Transitions.{
  Outcome, missing, refused, moved, unserialized, Moves, sent_acknowledged, SameCommand,
  acknowledge_command-Outcome, fail_command-Outcome, complete_command-Outcome,
}

abbrev pub NoRepeats : List ℕ → Type 0
NoRepeats [] = Unit {0}
NoRepeats (i ∷ is) = All (λ j. j ≢ i) is × NoRepeats is

abbrev ids : List AgentCommand → List ℕ
ids rows = map (λ r. r.id) rows

-- The primary key of the table.
abbrev pub HasKey : List AgentCommand → Type 0
HasKey rows = NoRepeats (ids rows)

put_row-ids : (c : AgentCommand) (rows : List AgentCommand) → ids (put_row c rows) ≡ ids rows
unfolding put_row
put_row-ids c [] = refl
put_row-ids c (r ∷ rs) = ground (arith, put_row-ids c rs)

claim_rows-ids :
    (now agent_id limit : ℕ) (rows : List AgentCommand)
    → ids (claim_rows now agent_id limit rows).0 ≡ ids rows
unfolding claim_rows
claim_rows-ids now a zero rows = refl
claim_rows-ids now a (suc n) [] = refl
claim_rows-ids now a (suc n) (r ∷ rs) =
    ground (arith, claim_rows-ids now a n rs, claim_rows-ids now a (suc n) rs)

pub get_row-is_row :
    (a i : ℕ) (rows : List AgentCommand) (c : AgentCommand)
    → get_row a i rows ≡ some c
    → (c.id ≡ i) × (c.agent_id ≡ a)
unfolding get_row
get_row-is_row a i [] c e = cc
get_row-is_row a i (r ∷ rs) c e = ground (arith, get_row-is_row a i rs c)

get_row-absent :
    (a i : ℕ) (rows : List AgentCommand) → All (λ j. j ≢ i) (ids rows) → get_row a i rows ≡ none
unfolding get_row
get_row-absent a i [] h = refl
get_row-absent a i (r ∷ rs) h = ground (arith, get_row-absent a i rs)

-- With a primary key, an id belongs to one row.
get_row_unique :
    (a b i : ℕ) (rows : List AgentCommand) (c d : AgentCommand)
    → HasKey rows
    → get_row a i rows ≡ some c
    → get_row b i rows ≡ some d
    → c ≡ d
unfolding get_row
get_row_unique a b i [] c d h e f = cc
get_row_unique a b i (r ∷ rs) c d h e f =
    ground (arith, get_row_unique a b i rs c d, get_row-absent a i rs, get_row-absent b i rs)

put_row-keeps :
    (a i : ℕ) (c' : AgentCommand) (rows : List AgentCommand) (c : AgentCommand)
    → c'.id ≢ i
    → get_row a i rows ≡ some c
    → get_row a i (put_row c' rows) ≡ some c
unfolding get_row put_row
put_row-keeps a i c' [] c n e = e
put_row-keeps a i c' (r ∷ rs) c n e = ground (arith, put_row-keeps a i c' rs c)

claim_rows-keeps :
    (now b limit a i : ℕ) (rows : List AgentCommand) (c : AgentCommand)
    → c.status ≢ pending
    → get_row a i rows ≡ some c
    → get_row a i (claim_rows now b limit rows).0 ≡ some c
unfolding get_row claim_rows
claim_rows-keeps now b zero a i rows c n e = e
claim_rows-keeps now b (suc m) a i [] c n e = e
claim_rows-keeps now b (suc m) a i (r ∷ rs) c n e =
    ground (arith, claim_rows-keeps now b m a i rs c, claim_rows-keeps now b (suc m) a i rs c)

abbrev pub IsFinished : CommandStatus → Type 0
IsFinished s = (s ≡ completed) ⊎ ((s ≡ failed) ⊎ (s ≡ expired))

Moves-unfinished : {s t : CommandStatus} → Moves s t → ¬ IsFinished s
Moves-unfinished sent_acknowledged h = ground arith
Moves-unfinished _ h = ground arith

finished-pending : {s : CommandStatus} → IsFinished s → s ≢ pending
finished-pending h = ground arith

-- A database whose rows have a key, and in which this command of this agent is the row `c`.
abbrev Stands : ℕ → ℕ → AgentCommand → Database → Type 0
Stands a i c db = HasKey db.rows × (get_command a i db ≡ some c)

row_written :
    {t : CommandStatus} (a b i j : ℕ) (c d d' : AgentCommand) (db : Database)
    → IsFinished c.status
    → Stands a i c db
    → get_command b j db ≡ some d
    → Moves d.status t
    → SameCommand d' d
    → HasKey (put_row d' db.rows) × (get_row a i (put_row d' db.rows) ≡ some c)
unfolding get_command
row_written a b i j c d d' db fin st e m same = (
  rw (put_row-ids d' db.rows) st.0,
  put_row-keeps a i d' db.rows c
      (λ q.
        let at = get_row-is_row b j db.rows d e in
        let here : get_row b i db.rows ≡ some d = cc in
        let one = get_row_unique a b i db.rows c d st.0 st.1 here in
        Moves-unfinished m (subst (λ x. IsFinished x.status) one fin))
      st.1,
)

Outcome-Stands :
    {t : CommandStatus} (a b i j : ℕ) (c : AgentCommand) (db : Database)
    (r : Result AgentCommand × Database)
    → IsFinished c.status
    → Stands a i c db
    → Outcome t (get_command b j db) db r
    → Stands a i c r.1
unfolding get_command
Outcome-Stands a b i j c db r fin st (missing e) = st
Outcome-Stands a b i j c db r fin st (refused d e n) = st
Outcome-Stands a b i j c db r fin st (moved d d' kind message e m s same k) =
    row_written a b i j c d d' db fin st e m same
Outcome-Stands a b i j c db r fin st (unserialized d d' e m s same k) =
    row_written a b i j c d d' db fin st e m same

claim-Stands :
    (now b limit a i : ℕ) (c : AgentCommand) (db : Database)
    → IsFinished c.status
    → Stands a i c db
    → Stands a i c (claim_pending_commands now b limit db).1
unfolding get_command claim_pending_commands
claim-Stands now b limit a i c db fin st = (
  rw (claim_rows-ids now b limit db.rows) st.0,
  claim_rows-keeps now b limit a i db.rows c (finished-pending fin) st.1,
)

-- A call of the protocol, by an agent, with the clock of its time.
pub data Call (Json : Type 0) : Type 0 where
  claim : ℕ → ℕ → ℕ → Call Json
  acknowledge : ℕ → ℕ → ℕ → Call Json
  complete : Environment Json → ℕ → ℕ → Option Json → Call Json
  fail : ℕ → ℕ → ℕ → Option String → Call Json

module _ {Json : Type 0} where
  unfoldable pub call : Call Json → Database → Database
  call (claim now agent_id limit) db = (claim_pending_commands now agent_id limit db).1
  call (acknowledge now agent_id command_id) db = (acknowledge_command now agent_id command_id db).1
  call (complete env agent_id command_id result) db =
      (complete_command env agent_id command_id result db).1
  call (fail now agent_id command_id message) db =
      (fail_command now agent_id command_id message db).1

  unfoldable pub run_calls : List (Call Json) → Database → Database
  run_calls [] db = db
  run_calls (k ∷ ks) db = run_calls ks (call k db)

  call-Stands :
      (a i : ℕ) (c : AgentCommand) (k : Call Json) (db : Database)
      → IsFinished c.status
      → Stands a i c db
      → Stands a i c (call k db)
  unfolding call
  call-Stands a i c (claim now b limit) db fin st = claim-Stands now b limit a i c db fin st
  call-Stands a i c (acknowledge now b j) db fin st =
      Outcome-Stands a b i j c db _ fin st (acknowledge_command-Outcome now b j db)
  call-Stands a i c (complete env b j result) db fin st =
      Outcome-Stands a b i j c db _ fin st (complete_command-Outcome env b j result db)
  call-Stands a i c (fail now b j message) db fin st =
      Outcome-Stands a b i j c db _ fin st (fail_command-Outcome now b j message db)

  run_calls-Stands :
      (a i : ℕ) (c : AgentCommand) (ks : List (Call Json)) (db : Database)
      → IsFinished c.status
      → Stands a i c db
      → Stands a i c (run_calls ks db)
  unfolding run_calls
  run_calls-Stands a i c [] db fin st = st
  run_calls-Stands a i c (k ∷ ks) db fin st =
      run_calls-Stands a i c ks (call k db) fin (call-Stands a i c k db fin st)

  -- Whatever sequence of claims, acknowledgements, completions and failures follows, by whichever
  -- agents, a command that is completed, failed or expired keeps its row as it is, in a table whose
  -- ids are unique, and the ids stay unique.
  pub run_calls-get_command :
      (a i : ℕ) (c : AgentCommand) (ks : List (Call Json)) (db : Database)
      → HasKey db.rows
      → get_command a i db ≡ some c
      → IsFinished c.status
      → HasKey (run_calls ks db).rows × (get_command a i (run_calls ks db) ≡ some c)
  run_calls-get_command a i c ks db key found fin = run_calls-Stands a i c ks db fin (key, found)
