-- ===== src/Ws/Manager.antt =====
-- backend/ws/manager.py: the connections of the clients, and the routing of an event. A socket is a
-- number, and a set of sockets a list without repetition. A broadcast runs as one step, and which
-- sockets take the message is an argument. What the account sets do on a missing key is written out:
-- `defaultdict` gives an empty set.
pub mod Routing
use aurexis.Base.{
  ℕ, ◌+◌, String, Bool, true, false, not, ◌||◌, Option, none, some, List, [], ◌∷◌, ◌++◌, ◌==◌,
  str_eq, Dict, String_key, lookup, insert, any, select, length, if◌then◌else◌, is_some,
}

abbrev pub Socket : Type 0
Socket = ℕ

pub record ConnectionManager : Type 0 where
  pub account_connections : Dict String (List Socket)
  pub global_connections : List Socket

-- `ws in sockets`, `sockets.add(ws)`, `sockets.discard(ws)`
abbrev pub member : Socket → List Socket → Bool
member w sockets = any (λ v. v == w) sockets

abbrev pub add : Socket → List Socket → List Socket
add w sockets = if member w sockets then sockets else sockets ++ w ∷ []

abbrev pub discard : Socket → List Socket → List Socket
discard w sockets = select (λ v. not (v == w)) sockets

-- The set of an account.
unfoldable pub of_account : String → ConnectionManager → List Socket
of_account account m = elim (lookup account m.account_connections) [
  | none ↦ []
  | some sockets ↦ sockets
]

abbrev set_account : String → List Socket → ConnectionManager → ConnectionManager
set_account account sockets m = record m {
  account_connections = insert account sockets m.account_connections;
}

-- `if account_id`: an empty text is false.
abbrev pub given : Option String → Option String
given none = none
given (some account) = if str_eq account "" then none else some account

unfoldable pub connect : Socket → Option String → ConnectionManager → ConnectionManager
unfolding of_account
connect w account_id m = elim (given account_id) [
  | none ↦ record m { global_connections = add w m.global_connections }
  | some account ↦ set_account account (add w (of_account account m)) m
]

unfoldable pub disconnect : Socket → Option String → ConnectionManager → ConnectionManager
unfolding of_account
disconnect w account_id m =
    let m' : ConnectionManager = elim (given account_id) [
      | none ↦ m
      | some account ↦ set_account account (discard w (of_account account m)) m
    ] in
    record m' { global_connections = discard w m'.global_connections }

-- The sockets that got the message, and the manager without those that did not.
unfoldable pub send_to_account :
    (Socket → Bool) → String → ConnectionManager → List Socket × ConnectionManager
send_to_account takes account m = elim (lookup account m.account_connections) [
  | none ↦ ([], m)
  | some sockets ↦ (select takes sockets, set_account account (select takes sockets) m)
]

unfoldable pub send_to_all_global :
    (Socket → Bool) → ConnectionManager → List Socket × ConnectionManager
send_to_all_global takes m = (
  select takes m.global_connections,
  record m { global_connections = select takes m.global_connections },
)

abbrev account_part :
    (Socket → Bool) → Option String → ConnectionManager → List Socket × ConnectionManager
account_part takes none m = ([], m)
account_part takes (some account) m = send_to_account takes account m

-- `event.event == "SYSTEM_ALERT" or event.account_id is None`
abbrev pub is_global : String → Option String → Bool
is_global event account_id = str_eq event "SYSTEM_ALERT" || not (is_some account_id)

unfoldable pub broadcast_event :
    (Socket → Bool) → String → Option String → ConnectionManager → List Socket × ConnectionManager
unfolding send_to_account send_to_all_global
broadcast_event takes event account_id m =
    let (sent, m') = account_part takes (given account_id) m in
    if is_global event account_id
    then (sent ++ (send_to_all_global takes m').0, (send_to_all_global takes m').1)
    else (sent, m')

-- `sum(len(sockets) for sockets in …)`
unfoldable pub total : Dict String (List Socket) → ℕ
total [] = 0
total ((account, sockets) ∷ rest) = length sockets + total rest

unfoldable pub connection_count : ConnectionManager → ℕ
unfolding total
connection_count m = length m.global_connections + total m.account_connections
