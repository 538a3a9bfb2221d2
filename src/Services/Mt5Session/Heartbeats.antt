-- ===== src/Services/Mt5Session/Heartbeats.antt =====
-- What the two views of a heartbeat say later: the registry of the database and the one in memory.
use aurexis.Base.{
  ℕ, ◌+◌, ◌≤◌, String, Bool, true, false, ◌&&◌, ◌≡◌, refl, ◌↔◌, inl, inr, Option, none, some, List,
  [], ◌∷◌, ◌==◌, arith, leb, select, subst, sym, ap, ◌∙◌, Option-cases, String_key, lookup-insert,
  str_eq, eq_refl, if◌then◌else◌,
}
use aurexis.Services.Database.{latest_from}
use aurexis.Services.Mt5Session.Rows.{HasUniqueIds, store-lookups}
use aurexis.Services.Mt5Session.{
  agent_timeout_seconds, microseconds, connected, status_text, Agent, Registry, beaten, status_of,
  find, store, is_agent, process_agent_heartbeat, get_agent_connection_state, effective_status,
  says_connected, SessionService, new_session, record_heartbeat, is_connected,
}

abbrev pub SeenWithin : ℕ → Option ℕ → Type 0
SeenWithin now none = ⊥
SeenWithin now (some seen) = now ≤ seen + 15000000

-- An agent counts as connected exactly when it is marked so and was seen in the last fifteen
-- seconds.
pub says_connected-effective_status_iff :
    (now : ℕ) (a : Agent)
    → (says_connected (effective_status now a) ≡ true)
      ↔ ((a.last_known_status ≡ connected) × SeenWithin now a.last_seen_at)
unfolding effective_status
says_connected-effective_status_iff now a = ground arith

-- In memory, a heartbeat decides for its own agent, until the timeout has passed, and leaves the
-- others as they are.
pub is_connected-record_heartbeat :
    (now later : ℕ) (beats asked account status : String) (number version : Option String)
    (s : SessionService)
    → is_connected later asked (record_heartbeat now beats account status number version s) ≡ (
        if str_eq beats asked
        then str_eq status "CONNECTED" && leb later (now + microseconds s.heartbeat_timeout_seconds)
        else is_connected later asked s)
unfolding is_connected record_heartbeat
is_connected-record_heartbeat now later beats asked account status number version s =
    ground
      (arith, lookup-insert beats asked (new_session now account status number version) s.agents)

-- What a heartbeat that returns an agent has found and stored.
pub record Beat (uuid : String → Option ℕ) (now : ℕ) (agent_id account_id : String)
    (ea_version mt5_version : Option String) (terminal_connected : Bool) (r r' : Registry)
    (a : Agent) : Type 0 where
  pub account : ℕ
  pub row : Agent
  pub of_account : uuid account_id ≡ some account
  pub found : find (is_agent row.id account) r.agents ≡ some row
  pub same_account : row.account_id ≡ account
  pub beats : a ≡ beaten now ea_version mt5_version terminal_connected row
  pub stored : r'.agents ≡ store a r.agents

find-is_agent :
    (agent account : ℕ) (rows : List Agent) (row : Agent)
    → find (is_agent agent account) rows ≡ some row
    → (row.id ≡ agent) × (row.account_id ≡ account)
unfolding find
find-is_agent agent account [] row h = cc
find-is_agent agent account (r ∷ rows) row h = ground (arith, find-is_agent agent account rows row)

process_agent_heartbeat-Beat :
    (uuid : String → Option ℕ) (now : ℕ) (agent_id account_id : String)
    (ea_version mt5_version : Option String) (terminal_connected : Bool) (r : Registry) (a : Agent)
    → (process_agent_heartbeat uuid now agent_id account_id ea_version mt5_version
        terminal_connected r).0
      ≡ some a
    → Beat uuid now agent_id account_id ea_version mt5_version terminal_connected r
        (process_agent_heartbeat uuid now agent_id account_id ea_version mt5_version
          terminal_connected r).1
        a
unfolding process_agent_heartbeat
process_agent_heartbeat-Beat uuid now agent_id account_id ea mt5 connects r a h =
    elim (Option-cases (uuid agent_id)) [
      | inl bad ↦ absurd (ground (arith, bad, h))
      | inr (agent, e) ↦ elim (Option-cases (uuid account_id)) [
        | inl bad ↦ absurd (ground (arith, e, bad, h))
        | inr (account, k) ↦ elim (Option-cases (find (is_agent agent account) r.agents)) [
          | inl bad ↦ absurd (ground (arith, e, k, bad, h))
          | inr (row, found) ↦
              let (of_agent, same) = find-is_agent agent account r.agents row found in
              record {
                account = account;
                row = row;
                of_account = k;
                found =
                    subst (λ i. find (is_agent i account) r.agents ≡ some row) (sym of_agent) found;
                same_account = same;
                beats = ground (arith, e, k, found, h);
                stored = ground (arith, e, k, found, h);
              }
        ]
      ]
    ]

-- The row that a heartbeat leaves, and the session that it leaves in memory, say the same later.
effective_status-is_connected :
    (now later : ℕ) (agent account : String) (connects : Bool) (ea number : Option String)
    (a : Agent) (s : SessionService)
    → a.last_seen_at ≡ some now
    → a.last_known_status ≡ status_of connects
    → s.heartbeat_timeout_seconds ≡ agent_timeout_seconds
    → says_connected (effective_status later a)
      ≡ is_connected later agent
          (record_heartbeat now agent account (status_text (status_of connects)) number ea s)
unfolding effective_status agent_timeout_seconds
effective_status-is_connected now later agent account true ea number a s seen status t =
    rw (is_connected-record_heartbeat now later agent agent account _ number ea s, eq_refl)
      (ground arith)
effective_status-is_connected now later agent account false ea number a s seen status t =
    rw (is_connected-record_heartbeat now later agent agent account _ number ea s, eq_refl)
      (ground arith)

module _ {uuid : String → Option ℕ} {now : ℕ} {agent_id account_id : String}
    {ea mt5 : Option String} {connects : Bool} {r r' : Registry} {a : Agent}
    (beat : Beat uuid now agent_id account_id ea mt5 connects r r' a) where
  Beat-of_account : beat.account ≡ a.account_id
  unfolding beaten
  Beat-of_account = rw beat.beats (sym beat.same_account)

  Beat-created_at : beat.row.created_at ≡ a.created_at
  unfolding beaten
  Beat-created_at = rw beat.beats refl

  Beat-seen : a.last_seen_at ≡ some now
  unfolding beaten
  Beat-seen = rw beat.beats refl

  Beat-status : a.last_known_status ≡ status_of connects
  unfolding beaten
  Beat-status = rw beat.beats refl

  Beat-id : beat.row.id ≡ a.id
  unfolding beaten
  Beat-id = rw beat.beats refl

  Beat-found : find (is_agent a.id a.account_id) r.agents ≡ some beat.row
  Beat-found =
      subst (λ k. find (is_agent a.id k) r.agents ≡ some beat.row) Beat-of_account
        (subst (λ i. find (is_agent i beat.account) r.agents ≡ some beat.row) Beat-id beat.found)

connection_state-latest :
    (uuid : String → Option ℕ) (now : ℕ) (account_id : String) (r : Registry) (account : ℕ)
    (a : Agent)
    → uuid account_id ≡ some account
    → latest_from (λ b. b.created_at) none (select (λ b. b.account_id == account) r.agents) ≡ some a
    → get_agent_connection_state uuid now account_id r ≡ effective_status now a
unfolding get_agent_connection_state
connection_state-latest uuid now account_id r account a e h =
    rw (e, get_agent_connection_state) (rw h refl)

-- The two views of one heartbeat agree at every later time, where no two agents share an id, the
-- heartbeat is taken and its agent is the latest of its account: the database keeps the row that the
-- heartbeat returns, under its id, and the connection state of the account, which reads the rows,
-- says connected exactly where the session in memory does, under the default timeout.
pub effective_status-process_agent_heartbeat :
    (uuid : String → Option ℕ) (now later : ℕ) (agent_id account_id : String)
    (ea_version mt5_version : Option String) (terminal_connected : Bool) (r : Registry)
    (s : SessionService) (number : Option String) (a latest : Agent)
    → (process_agent_heartbeat uuid now agent_id account_id ea_version mt5_version
        terminal_connected r).0
      ≡ some a
    → HasUniqueIds r.agents
    → latest_from (λ b. b.created_at) none (select (λ b. b.account_id == a.account_id) r.agents)
      ≡ some latest
    → latest.id ≡ a.id
    → s.heartbeat_timeout_seconds ≡ agent_timeout_seconds
    → let r' =
        (process_agent_heartbeat uuid now agent_id account_id ea_version mt5_version
          terminal_connected r).1 in
      (find (λ b. b.id == a.id) r'.agents ≡ some a)
      × (says_connected (get_agent_connection_state uuid later account_id r')
          ≡ is_connected later agent_id (
              record_heartbeat now agent_id account_id
                (status_text (status_of terminal_connected))
                number
                ea_version
                s))
effective_status-process_agent_heartbeat uuid now later agent account ea mt5 connects r s number a
      latest h unique picked same t =
    let beat = process_agent_heartbeat-Beat uuid now agent account ea mt5 connects r a h in
    let (by_id, of_account) =
      store-lookups a r.agents beat.row latest unique (Beat-found beat) (Beat-created_at beat)
        picked same in
    (
      rw beat.stored by_id,
      ap says_connected (
            connection_state-latest uuid later account _ a.account_id a
              (beat.of_account ∙ ap (λ i. some i) (Beat-of_account beat))
              (rw beat.stored of_account))
          ∙ effective_status-is_connected now later agent account connects ea number a s
              (Beat-seen beat) (Beat-status beat) t,
    )
