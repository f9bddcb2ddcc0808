-- ===== src/Delivery/Life.antt =====
-- Paths of the abstract life of a command, with the events that they log.
use orc_state.Base.{Bool, true, arith, ℕ, ◌+◌, ◌≤◌, List, [], ◌∷◌, ◌++◌}
use orc_state.Delivery.Schema.{CommandEventName}
use orc_state.Delivery.Phases.{Phase, Progress, closed, sends_left, starts, Progress-sends_left}

-- From a phase to the last one.
pub data Life (effects : Bool) (last : Phase) : Phase → List CommandEventName → Type 0 where
  done : Life effects last last []
  onward :
      {p q : Phase} {name : CommandEventName} {names : List CommandEventName}
      → Progress effects p q name
      → Life effects last q names
      → Life effects last p (name ∷ names)

pub Life-snoc :
    {effects : Bool} {q r p : Phase} {name : CommandEventName} {names : List CommandEventName}
    → Life effects q p names
    → Progress effects q r name
    → Life effects r p (names ++ name ∷ [])
Life-snoc done step = onward step done
Life-snoc (onward first rest) step = onward first (Life-snoc rest step)

abbrev pub count_starts : List CommandEventName → ℕ
count_starts [] = 0
count_starts (name ∷ names) = starts name + count_starts names

-- A path of a command with side effects has no more starts of a send than its first phase allows.
pub Life-sends_left :
    {q p : Phase} {names : List CommandEventName}
    → Life true q p names
    → count_starts names + sends_left q ≤ sends_left p
Life-sends_left done = omega arith
Life-sends_left (onward {name = n} {names = ns} first rest) =
    omega (arith, Progress-sends_left first, Life-sends_left rest)

-- A closed command takes no step.
pub closed_ends :
    {effects : Bool} {q : Phase} {name : CommandEventName} → Progress effects closed q name → ⊥
closed_ends step = elim step [ ]
