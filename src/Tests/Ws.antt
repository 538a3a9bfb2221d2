-- ===== src/Tests/Ws.antt =====
-- Connections at concrete inputs.
use aurexis.Base.{
  String, eq_iff, ◌≢◌, ◌≡◌, refl, inl, inr, true, false, some, [], ◌∷◌, List, All, lookup,
  String_key, select, arith, str_eq, ◌==◌,
}
use aurexis.Ws.AgentManager.{AgentManager, no_agents, closes_old, stores, send_to}
use aurexis.Ws.AgentManager.Latest.{
  Event, begins, ends, disconnects, sends, happen_all, Spares, connect-send_to,
}
use aurexis.Ws.Manager.{ConnectionManager, of_account, broadcast_event}
use aurexis.Ws.Manager.Routing.{broadcast_event_scoped}

texts_apart : (a b : String) → str_eq a b ≡ false → a ≢ b
texts_apart a b h = ground (arith, eq_iff a b)

-- The agent's socket 1 is replaced by 2, while another connection begins; then 1 ends, and a send
-- that began on it fails.
abbrev one_agent : AgentManager
one_agent = record no_agents { active = ("a", 1) ∷ [] }

abbrev late : List Event
late = disconnects "a" 1 ∷ sends "a" (some 1) false ∷ ends true "b" 3 ∷ []

late-Spares : All (Spares "a" 2) late
late-Spares = (inr (ground arith), (inr (inl (ground arith)), (inl (texts_apart "b" "a" refl), tt)))

abbrev meanwhile : List Event
meanwhile = begins "a" 4 ∷ []

connect-send_to_example :
    send_to "a"
      (happen_all late (stores true "a" 2 (happen_all meanwhile (closes_old "a" 2 one_agent))))
    ≡ some 2
connect-send_to_example = connect-send_to "a" 2 meanwhile late one_agent late-Spares

one-lookup : lookup "a" one_agent.active ≡ some 1
unfolding lookup
one-lookup = refl

abbrev two_accounts : ConnectionManager
two_accounts = record {
  account_connections = ("x", 1 ∷ 2 ∷ []) ∷ ("y", 3 ∷ []) ∷ [];
  global_connections = 4 ∷ [];
}

broadcast_event_scoped_example :
    let (sent, m') = broadcast_event (λ w. w == 1) "PNL_UPDATED" (some "x") two_accounts in
    (sent ≡ select (λ w. w == 1) (of_account "x" two_accounts))
    × (of_account "x" m' ≡ select (λ w. w == 1) (of_account "x" two_accounts))
    × (of_account "y" m' ≡ of_account "y" two_accounts)
    × (m'.global_connections ≡ 4 ∷ [])
broadcast_event_scoped_example =
    broadcast_event_scoped (λ w. w == 1) "PNL_UPDATED" "x" "y" two_accounts
      (texts_apart "x" "" refl) (texts_apart "PNL_UPDATED" "SYSTEM_ALERT" refl)
      (texts_apart "y" "x" refl)
