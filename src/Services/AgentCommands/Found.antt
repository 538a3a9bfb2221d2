-- ===== src/Services/AgentCommands/Found.antt =====
-- What a call wrote is what is found afterwards.
use aurexis.Base.{
  ℕ, suc, ◌≡◌, ◌≢◌, refl, String, true, Option, some, List, [], ◌∷◌, ◌++◌, All, arith, map,
}
use aurexis.Services.AgentCommands.{
  AgentCommand, pending, sent, Database, ok, put_row, get_row, get_command, supported_command_type,
}
use aurexis.Services.AgentCommands.Operations.{mark_sent, Environment, serialized, create_command}
use aurexis.Services.AgentCommands.Claims.{backlog}
use aurexis.Services.AgentCommands.Calls.{get_row-is_row}

put_row-get :
    (a i : ℕ) (c c' : AgentCommand) (rows : List AgentCommand)
    → (c'.id ≡ i) × (c'.agent_id ≡ a)
    → get_row a i rows ≡ some c
    → get_row a i (put_row c' rows) ≡ some c'
unfolding get_row put_row
put_row-get a i c c' [] same e = cc
put_row-get a i c c' (r ∷ rs) same e = ground (arith, put_row-get a i c c' rs)

-- `mark_sent` succeeds on every command of the agent, whatever its status, also on one that is
-- completed, failed or expired: the command is SENT afterwards.
pub mark_sent-get_command :
    (now a i : ℕ) (c : AgentCommand) (db : Database)
    → get_command a i db ≡ some c
    → let (r, db') = mark_sent now a i db in
      let c' = record c { status = sent; sent_at = some now } in
      (r ≡ ok c') × (get_command a i db' ≡ some c')
unfolding mark_sent get_command
mark_sent-get_command now a i c db e =
    let c' = record c { status = sent; sent_at = some now } in
    rw e (refl, put_row-get a i c c' db.rows (get_row-is_row a i db.rows c e) e)

append-get :
    (a i : ℕ) (c : AgentCommand) (rows : List AgentCommand)
    → All (λ j. j ≢ i) (map (λ r. r.id) rows)
    → (c.id ≡ i) × (c.agent_id ≡ a)
    → get_row a i (rows ++ c ∷ []) ≡ some c
unfolding get_row
append-get a i c [] h same = ground arith
append-get a i c (r ∷ rs) h same = ground (arith, append-get a i c rs)

backlog-append :
    (a : ℕ) (c : AgentCommand) (rows : List AgentCommand)
    → (c.agent_id ≡ a) × (c.status ≡ pending)
    → backlog a (rows ++ c ∷ []) ≡ suc (backlog a rows)
backlog-append a c [] h = ground arith
backlog-append a c (r ∷ rs) h = ground (arith, backlog-append a c rs)

-- A command of a supported type, whose payload can be serialized, is created under a fresh id: it
-- is found there for its agent, PENDING and with that payload, and the agent's backlog grows by
-- one.
pub create_command-get_command :
    {Json : Type 0} (env : Environment Json) (a : ℕ) (type : String) (payload : Option Json)
    (text : Option String) (db : Database)
    → supported_command_type (env.upper type) ≡ true
    → serialized env payload ≡ ok text
    → All (λ j. j ≢ env.fresh_id) (map (λ r. r.id) db.rows)
    → let (r, db') = create_command env a type payload db in
      (c : AgentCommand) × (r ≡ ok c)
      × (get_command a env.fresh_id db' ≡ some c)
      × (c.status ≡ pending)
      × (c.payload_json ≡ text)
      × (backlog a db'.rows ≡ suc (backlog a db.rows))
unfolding create_command get_command
create_command-get_command env a type payload text db supported serial fresh =
    rw (supported, serial)
      (
        _,
        refl,
        append-get a env.fresh_id _ db.rows fresh (refl, refl),
        refl,
        refl,
        backlog-append a _ db.rows (refl, refl),
      )
