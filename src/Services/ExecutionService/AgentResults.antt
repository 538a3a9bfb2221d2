-- ===== src/Services/ExecutionService/AgentResults.antt =====
-- `record_agent_execution_result` of backend/services/execution_service.py: the result of an
-- agent's command, into a report and into the rows of the positions. What `json.loads` gives for
-- the command's payload is an argument.
use aurexis.Base.{
  ℕ, String, Bool, true, false, not, ◌&&◌, Option, none, some, List, [], ◌∷◌, ◌++◌, ◌==◌, any,
  str_eq, if◌then◌else◌, ℤ, magnitude,
}
use aurexis.Decimal.{value_or, Decimal, dec}
use aurexis.Services.AgentCommands.{AgentCommand, CommandStatus, completed}
use aurexis.Services.Database.{
  ReportRow, PositionRow, opened, closed, is_opened, Database, has_ticket,
}

-- An entry of the result's dict: missing or `None`, a value that the conversion refuses, or one
-- that it reads.
pub data Field (A : Type 0) : Type 0 where
  absent unreadable : Field A
  readable : A → Field A

-- The entries that the function reads.
pub record AgentResult : Type 0 where
  pub position_ticket : Field ℕ
  pub order_ticket : Field ℕ
  pub deal_ticket : Field ℕ
  pub executed_price : Field Decimal
  pub executed_volume : Field Decimal
  pub retcode : Field ℤ
  pub retcode_description : Option String
  pub symbol : Option String
  pub side : Option String

-- `int(x)` or `Decimal(str(x))`, and `None` where there is no entry or the conversion raises.
abbrev pub converted : {A : Type 0} → Field A → Option A
converted absent = none
converted unreadable = none
converted (readable a) = some a

-- `a or b` of two tickets: zero is false, and a value that `int` refuses is not.
abbrev pub first_ticket : Field ℕ → Field ℕ → Field ℕ
first_ticket absent b = b
first_ticket unreadable b = unreadable
first_ticket (readable n) b = if n == 0 then b else readable n

unfoldable pub result_ticket : AgentResult → Option ℕ
result_ticket r = converted (first_ticket r.position_ticket r.order_ticket)

-- `if broker_ticket:`
abbrev pub nonzero : Option ℕ → Option ℕ
nonzero none = none
nonzero (some ticket) = if ticket == 0 then none else some ticket

abbrev pub get_or : Option String → String → String
get_or none default = default
get_or (some s) default = s

abbrev pub is_completed : CommandStatus → Bool
is_completed completed = true
is_completed _ = false

-- `error_message or res_dict.get("retcode_description")`
abbrev pub message_or : Option String → Option String → Option String
message_or none description = description
message_or (some message) description = if str_eq message "" then description else some message

unfoldable pub result_report : ℕ → String → AgentCommand → AgentResult → Option String → ReportRow
result_report now account command r error_message = record {
  account_id = account;
  command_id = none;
  correlation_id = none;
  idempotency_key = none;
  broker_ticket = result_ticket r;
  broker_deal_id = converted r.deal_ticket;
  status = if is_completed command.status then "FILLED" else "FAILED";
  fill_volume_lots = converted r.executed_volume;
  fill_price = converted r.executed_price;
  slippage_points = none;
  commission_usd = some (dec 0 2);
  swap_usd = some (dec 0 2);
  broker_error_code = converted r.retcode;
  broker_error_message = message_or error_message r.retcode_description;
  executed_at = now;
}

unfoldable pub result_position : ℕ → String → AgentResult → ℕ → PositionRow
result_position now account r ticket = record {
  account_id = account;
  command_id = none;
  broker_ticket = ticket;
  symbol = get_or r.symbol "XAUUSD";
  side = get_or r.side "BUY";
  lots = value_or (converted r.executed_volume) (dec 1 2);
  open_price = value_or (converted r.executed_price) (dec 0 2);
  stop_loss = none;
  take_profit = none;
  current_price = converted r.executed_price;
  unrealized_pnl_usd = dec 0 2;
  commission_usd = dec 0 2;
  swap_usd = dec 0 2;
  status = opened;
  opened_at = now;
  closed_at = none;
  close_price = none;
}

-- OPEN_POSITION: a row is added unless the account has one with the ticket, open or not.
abbrev pub open_rows : ℕ → String → AgentResult → Option ℕ → List PositionRow → List PositionRow
open_rows now account r none rows = rows
open_rows now account r (some ticket) rows =
    if any (has_ticket account ticket) rows
    then rows
    else rows ++ result_position now account r ticket ∷ []

-- `if fill_price: pos.close_price = fill_price`
abbrev pub closing_price : Option Decimal → Option Decimal → Option Decimal
closing_price none old = old
closing_price (some price) old = if magnitude price.coeff == 0 then old else some price

abbrev pub closed_row : ℕ → AgentResult → PositionRow → PositionRow
closed_row now r row = record row {
  status = closed;
  closed_at = some now;
  close_price = closing_price (converted r.executed_price) row.close_price;
}

abbrev pub is_open_at : String → ℕ → PositionRow → Bool
is_open_at account ticket row = has_ticket account ticket row && is_opened row.status

-- CLOSE_POSITION: the open row of the account with the ticket.
unfoldable pub close_rows : ℕ → String → AgentResult → ℕ → List PositionRow → List PositionRow
close_rows now account r ticket [] = []
close_rows now account r ticket (row ∷ rows) =
    let rest = close_rows now account r ticket rows in
    if is_open_at account ticket row then closed_row now r row ∷ rows else row ∷ rest

-- The ticket of a payload: none where the text is no JSON object, or its entry is missing or counts
-- as false; otherwise what `int` makes of the entry, which is zero for the text "0", or its
-- exception, which leaves the function.
pub data Target : Type 0 where
  no_ticket refused_ticket : Target
  at_ticket : ℕ → Target

-- `broker_ticket`, or else the ticket of the payload.
abbrev pub target_ticket : (String → Target) → AgentCommand → AgentResult → Target
target_ticket payload_ticket command r = elim (nonzero (result_ticket r)) [
  | some given ↦ at_ticket given
  | none ↦ elim command.payload_json [
    | none ↦ no_ticket
    | some text ↦ if str_eq text "" then no_ticket else payload_ticket text
  ]
]

abbrev pub close_target :
    ℕ → String → AgentResult → Target → List PositionRow → Option (List PositionRow)
close_target now account r no_ticket rows = some rows
close_target now account r refused_ticket rows = none
close_target now account r (at_ticket t) rows = some (close_rows now account r t rows)

-- The rows of the positions after the result; `none` is an exception.
unfoldable pub synchronized :
    (String → Target)
    → ℕ
    → String
    → AgentCommand
    → AgentResult
    → List PositionRow
    → Option (List PositionRow)
unfolding result_ticket
synchronized payload_ticket now account command r rows =
    if not (is_completed command.status)
    then some rows
    else if str_eq command.command_type "OPEN_POSITION"
    then some (open_rows now account r (nonzero (result_ticket r)) rows)
    else close_target now account r (target_ticket payload_ticket command r) rows

-- The commands that are recorded.
abbrev pub is_trade : AgentCommand → Bool
is_trade command =
    if str_eq command.command_type "OPEN_POSITION"
    then true
    else str_eq command.command_type "CLOSE_POSITION"

-- The database with the report and these rows of the positions.
abbrev pub with_result :
    ℕ → String → AgentCommand → AgentResult → Option String → Database → List PositionRow → Database
with_result now account command r error_message db rows = record db {
  reports = db.reports ++ result_report now account command r error_message ∷ [];
  positions = rows;
}

-- `none` is an exception, after which the caller commits nothing.
unfoldable pub record_agent_execution_result :
    (String → Target)
    → ℕ
    → String
    → AgentCommand
    → AgentResult
    → Option String
    → Database
    → Option Database
record_agent_execution_result payload_ticket now account command r error_message db =
    if is_trade command
    then elim (synchronized payload_ticket now account command r db.positions) [
      | none ↦ none
      | some rows ↦ some (with_result now account command r error_message db rows)
    ]
    else some db
