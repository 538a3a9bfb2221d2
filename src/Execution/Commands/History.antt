-- ===== src/Execution/Commands/History.antt =====
-- A command over its whole life: any sequence of requested transitions, allowed or not.
use aurexis.Base.{
  ℕ, suc, ◌+◌, ◌≤◌, String, ◌≡◌, ◌≢◌, refl, Bool, true, false, Option, none, List, [], ◌∷◌, arith,
  Bool-cases, inl, inr,
}
use aurexis.Execution.Commands.{
  CommandState, created, sent, acknowledged, executing, filled, partially_filled, rejected, expired,
  reconciled, ExecutionCommand, is_terminal, transition_to, state_in,
}
use aurexis.Execution.Commands.Lifecycle.{
  sent_after, acknowledged_after, ◌⟶◌, send, settle, transition_to_parts,
}

pub record Request : Type 0 where
  pub at : ℕ
  pub target : CommandState
  pub reason : Option String

abbrev count_made : Bool → ℕ → ℕ
count_made true n = suc n
count_made false n = n

-- The command after the requests, and how many of them were carried out.
unfoldable pub run : List Request → ExecutionCommand → ExecutionCommand × ℕ
run [] c = (c, 0)
run (r ∷ rs) c =
    let (c', made) = transition_to r.at c r.target r.reason in
    let (d, n) = run rs c' in (d, count_made made n)

-- The longest way that the diagram leaves from a state.
abbrev pub moves_left : CommandState → ℕ
moves_left created = 6
moves_left sent = 5
moves_left acknowledged = 4
moves_left executing = 3
moves_left partially_filled = 2
moves_left filled = 1
moves_left _ = 0

⟶-moves_left : {s t : CommandState} → s ⟶ t → suc (moves_left t) ≤ moves_left s
⟶-moves_left send = omega arith
⟶-moves_left _ = omega arith

step_moves :
    (now : ℕ) (c : ExecutionCommand) (t : CommandState) (reason : Option String)
    → let (c', made) = transition_to now c t reason in
      count_made made (moves_left c'.state) ≤ moves_left c.state
step_moves now c t reason =
    let (edge, on, off) = transition_to_parts now c t reason in
    elim (Bool-cases (transition_to now c t reason).1) [
      | inl made ↦ rw made (rw (on made) (⟶-moves_left (edge.0 made)))
      | inr kept ↦ rw kept (rw (off kept) (omega arith))
    ]

-- Whatever is requested of a command, the transitions that are carried out are at most those that
-- its state has left, six for a new one: no history goes on for ever.
pub run_bounded :
    (rs : List Request) (c : ExecutionCommand)
    → let (d, made) = run rs c in made + moves_left d.state ≤ moves_left c.state
unfolding run
run_bounded [] c = omega arith
run_bounded (r ∷ rs) c =
    let (c', made) = transition_to r.at c r.target r.reason in
    ground (arith, step_moves r.at c r.target r.reason, run_bounded rs c')

-- The stamps that each state has behind it.
abbrev Stamps : CommandState → Option ℕ → Option ℕ → Type 0
Stamps created s a = Unit {0}
Stamps rejected s a = Unit {0}
Stamps expired s a = Unit {0}
Stamps sent s a = s ≢ none
Stamps _ s a = (s ≢ none) × (a ≢ none)

-- A command that was sent has the time of it, and one that was acknowledged has both times.
abbrev pub IsStamped : ExecutionCommand → Type 0
IsStamped c = Stamps c.state c.sent_at c.acknowledged_at

⟶-Stamps :
    {s t : CommandState}
    → s ⟶ t
    → (now : ℕ) (x y : Option ℕ) → Stamps s x y
    → Stamps t (sent_after now t x) (acknowledged_after now t y)
⟶-Stamps send now x y h = ground arith
⟶-Stamps _ now x y h = ground arith

transition_to-IsStamped :
    (now : ℕ) (c : ExecutionCommand) (t : CommandState) (reason : Option String)
    → IsStamped c
    → IsStamped (transition_to now c t reason).0
transition_to-IsStamped now c t reason h =
    let (edge, on, off) = transition_to_parts now c t reason in
    elim (Bool-cases (transition_to now c t reason).1) [
      | inl made ↦ rw (on made) (⟶-Stamps (edge.0 made) now c.sent_at c.acknowledged_at h)
      | inr kept ↦ rw (off kept) h
    ]

-- However a command came to its state, one that is sent has a time of sending, and one that is
-- acknowledged, executing, filled or reconciled has the time of its acknowledgement too: no fill
-- without a command that was sent and acknowledged.
pub run-IsStamped :
    (rs : List Request) (c : ExecutionCommand) → IsStamped c → IsStamped (run rs c).0
unfolding run
run-IsStamped [] c h = h
run-IsStamped (r ∷ rs) c h =
    run-IsStamped rs (transition_to r.at c r.target r.reason).0
      (transition_to-IsStamped r.at c r.target r.reason h)

terminal_edge :
    {s t : CommandState}
    → s ⟶ t
    → state_in s (filled ∷ rejected ∷ expired ∷ reconciled ∷ []) ≡ true
    → (s ≡ filled) × (t ≡ reconciled)
unfolding state_in
terminal_edge settle h = (refl, refl)
terminal_edge _ h = cc

-- A terminal command can only be reconciled after its fill: any other transition is refused.
pub is_terminal_leaves :
    (now : ℕ) (c : ExecutionCommand) (t : CommandState) (reason : Option String)
    → is_terminal c ≡ true
    → (transition_to now c t reason).1 ≡ true
    → (c.state ≡ filled) × (t ≡ reconciled)
unfolding is_terminal
is_terminal_leaves now c t reason h made =
    terminal_edge ((transition_to_parts now c t reason).0.0 made) h
