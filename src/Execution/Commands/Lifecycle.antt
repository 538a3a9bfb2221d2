-- ===== src/Execution/Commands/Lifecycle.antt =====
-- What the state machine of a command promises, over single transitions and over histories.
use aurexis.Base.{
  ℕ, String, ◌≡◌, refl, ◌↔◌, ◌⊎◌, inl, inr, true, false, Option, none, some, arith, Bool-cases,
  str_eq, if◌then◌else◌,
}
use aurexis.Execution.Commands.{
  CommandState, created, sent, acknowledged, executing, filled, partially_filled, rejected, expired,
  reconciled, ExecutionCommand, valid_transitions, state_in, with_reason, stamp, transition_to,
}

-- The diagram of docs/MT5_COMMAND_PROTOCOL.md, as the table of the code has it.
infix 40 ◌⟶◌
pub data ◌⟶◌ : CommandState → CommandState → Type 0 where
  send : created ⟶ sent
  acknowledge : sent ⟶ acknowledged
  start : acknowledged ⟶ executing
  fill : executing ⟶ filled
  fill_part : executing ⟶ partially_filled
  fill_rest : partially_filled ⟶ filled
  settle : filled ⟶ reconciled
  settle_part : partially_filled ⟶ reconciled
  expire_created : created ⟶ expired
  expire_sent : sent ⟶ expired
  expire_acknowledged : acknowledged ⟶ expired
  expire_executing : executing ⟶ expired
  reject_created : created ⟶ rejected
  reject_sent : sent ⟶ rejected
  reject_acknowledged : acknowledged ⟶ rejected
  reject_executing : executing ⟶ rejected

ruleset edges = (
  send, acknowledge, start, fill, fill_part, fill_rest, settle, settle_part, expire_created,
  expire_sent, expire_acknowledged, expire_executing, reject_created, reject_sent,
  reject_acknowledged, reject_executing,
)

allowed-⟶ : (s t : CommandState) → state_in t (valid_transitions s) ≡ true → s ⟶ t
unfolding state_in valid_transitions
allowed-⟶ created created h = cc
allowed-⟶ sent created h = cc
allowed-⟶ acknowledged created h = cc
allowed-⟶ executing created h = cc
allowed-⟶ filled created h = cc
allowed-⟶ partially_filled created h = cc
allowed-⟶ rejected created h = cc
allowed-⟶ expired created h = cc
allowed-⟶ reconciled created h = cc
allowed-⟶ _ _ h = first_of (search edges, cc)

⟶-allowed : {s t : CommandState} → s ⟶ t → state_in t (valid_transitions s) ≡ true
unfolding state_in valid_transitions
⟶-allowed send = refl
⟶-allowed _ = refl

-- The stamps and the reason after a transition: the sending is stamped by `sent` alone, the
-- acknowledgement by `acknowledged` alone, and a reason that is not empty replaces the old one.
abbrev pub sent_after : ℕ → CommandState → Option ℕ → Option ℕ
sent_after now sent old = some now
sent_after now _ old = old

abbrev pub acknowledged_after : ℕ → CommandState → Option ℕ → Option ℕ
acknowledged_after now acknowledged old = some now
acknowledged_after now _ old = old

abbrev pub reason_after : Option String → Option String → Option String
reason_after none old = old
reason_after (some reason) old = if str_eq reason "" then old else some reason

-- The command moved to a state: but for the state, the reason and the two stamps, every field is the
-- one from before.
abbrev pub moved : ℕ → CommandState → Option String → ExecutionCommand → ExecutionCommand
moved now t reason c = record c {
  state = t;
  rejection_reason = reason_after reason c.rejection_reason;
  sent_at = sent_after now t c.sent_at;
  acknowledged_at = acknowledged_after now t c.acknowledged_at;
}

stamp-moved :
    (now : ℕ) (t : CommandState) (reason : Option String) (c : ExecutionCommand)
    → stamp now t (with_reason reason (record c { state = t })) ≡ moved now t reason c
stamp-moved now t reason c = ground arith

pub transition_to_parts :
    (now : ℕ) (c : ExecutionCommand) (t : CommandState) (reason : Option String)
    → let (c', made) = transition_to now c t reason in
      ((made ≡ true) ↔ (c.state ⟶ t))
      × (made ≡ true → c' ≡ moved now t reason c)
      × (made ≡ false → c' ≡ c)
unfolding transition_to
transition_to_parts now c t reason = elim (Bool-cases (state_in t (valid_transitions c.state))) [
  | inl can ↦ (
    (λ _. allowed-⟶ c.state t can, λ _. ground (arith, can)),
    λ _. ground (arith, can, stamp-moved now t reason c),
    λ q. ground (arith, can),
  )
  | inr cannot ↦ (
    (λ q. ground (arith, cannot), λ e. ground (arith, cannot, ⟶-allowed e)),
    λ q. ground (arith, cannot),
    λ _. ground (arith, cannot),
  )
]

-- A transition along an edge of the diagram is made: it sets the new state, the reason where one is
-- given that is not empty, the time of sending exactly on `sent` and that of the acknowledgement
-- exactly on `acknowledged`, and leaves every other field of the command as it was. Any other is
-- refused, and the command stays as it was in every field.
pub transition_to_edge :
    (now : ℕ) (c : ExecutionCommand) (t : CommandState) (reason : Option String)
    → let (c', made) = transition_to now c t reason in
      ((c.state ⟶ t) × (made ≡ true) × (c' ≡ moved now t reason c))
      ⊎ ((¬ (c.state ⟶ t)) × (made ≡ false) × (c' ≡ c))
transition_to_edge now c t reason =
    let parts = transition_to_parts now c t reason in
    elim (Bool-cases (transition_to now c t reason).1) [
      | inl made ↦ inl (parts.0.0 made, made, parts.1 made)
      | inr kept ↦ inr (λ e. ground (arith, kept, parts.0.1 e), kept, parts.2 kept)
    ]
