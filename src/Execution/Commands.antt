-- ===== src/Execution/Commands.antt =====
-- backend/execution/commands.py: the command and its state machine. The clock is an argument.
pub mod Lifecycle
pub mod History
use aurexis.Base.{
  ℕ, String, Bool, true, false, Option, none, some, List, [], ◌∷◌, ltb, str_eq, one_of, map, ℤ,
  if◌then◌else◌,
}
use aurexis.Decimal.{Decimal}

pub data CommandAction : Type 0 where
  order_open order_close basket_close position_modify : CommandAction

pub data CommandState : Type 0 where
  created sent acknowledged executing filled partially_filled rejected expired reconciled :
      CommandState

-- A `StrEnum` is its text, and is compared by it.
unfoldable pub state_text : CommandState → String
state_text created = "CREATED"
state_text sent = "SENT"
state_text acknowledged = "ACKNOWLEDGED"
state_text executing = "EXECUTING"
state_text filled = "FILLED"
state_text partially_filled = "PARTIALLY_FILLED"
state_text rejected = "REJECTED"
state_text expired = "EXPIRED"
state_text reconciled = "RECONCILED"

unfoldable pub valid_transitions : CommandState → List CommandState
valid_transitions created = sent ∷ expired ∷ rejected ∷ []
valid_transitions sent = acknowledged ∷ expired ∷ rejected ∷ []
valid_transitions acknowledged = executing ∷ expired ∷ rejected ∷ []
valid_transitions executing = filled ∷ partially_filled ∷ rejected ∷ expired ∷ []
valid_transitions filled = reconciled ∷ []
valid_transitions partially_filled = filled ∷ reconciled ∷ []
valid_transitions rejected = []
valid_transitions expired = []
valid_transitions reconciled = []

-- `state in states`
unfoldable pub state_in : CommandState → List CommandState → Bool
unfolding state_text
state_in s states = one_of (state_text s) (map state_text states)

pub data OrderType : Type 0 where
  buy sell : OrderType

pub record ExecutionCommand : Type 0 where
  pub command_id : String
  pub account_id : String
  pub action : CommandAction
  pub symbol : String
  pub order_type : OrderType
  pub volume_lots : Decimal
  pub price : Decimal
  pub slippage_points : ℤ
  pub idempotency_key : String
  pub correlation_id : String
  pub state : CommandState
  pub signal_id : Option String
  pub stop_loss : Option Decimal
  pub take_profit : Option Decimal
  pub magic_number : ℕ
  pub position_ticket : Option ℕ
  pub created_at : ℕ
  pub expires_at : ℕ
  pub sent_at : Option ℕ
  pub acknowledged_at : Option ℕ
  pub fill_price : Option Decimal
  pub fill_volume_lots : Option Decimal
  pub broker_ticket : Option ℕ
  pub rejection_reason : Option String

unfoldable pub is_expired : ℕ → ExecutionCommand → Bool
is_expired now c = ltb c.expires_at now

unfoldable pub is_terminal : ExecutionCommand → Bool
unfolding state_in
is_terminal c = state_in c.state (filled ∷ rejected ∷ expired ∷ reconciled ∷ [])

-- `if reason: self.rejection_reason = reason`
abbrev pub with_reason : Option String → ExecutionCommand → ExecutionCommand
with_reason none c = c
with_reason (some reason) c =
    if str_eq reason "" then c else record c { rejection_reason = some reason }

abbrev pub stamp : ℕ → CommandState → ExecutionCommand → ExecutionCommand
stamp now sent c = record c { sent_at = some now }
stamp now acknowledged c = record c { acknowledged_at = some now }
stamp now _ c = c

-- The command after the call, and whether the transition was made.
unfoldable pub transition_to :
    ℕ → ExecutionCommand → CommandState → Option String → ExecutionCommand × Bool
unfolding valid_transitions state_in
transition_to now c new_state reason =
    if state_in new_state (valid_transitions c.state)
    then (stamp now new_state (with_reason reason (record c { state = new_state })), true)
    else (c, false)
