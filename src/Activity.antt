-- ===== src/Activity.antt =====
-- lib/runActivity.ts: what the events say of the latest activity of each run. A map is the list of its
-- entries in insertion order, where setting a key that is there keeps its place. A field that an
-- event's type does not have is absent.
pub mod Latest
use orc_state.Base.{
  Bool, true, false, not, ◌&&◌, Option, none, some, String, List, [], ◌∷◌, ℕ, ◌-◌, ◌==◌, ltb,
  includes, find, any_of, map, if◌then◌else◌, is_some, or_default, or_else, truthy, opt_eq,
}
use mathlib.Core.Option
use orc_state.Base.Time.{Stamp, iso, get_time, opt_stamp_truthy}

-- The fields that are read. `payload_phase` and `payload_source` are those of the payload.
pub record OrcEvent : Type 0 where
  pub run_id : Option String
  pub ts : Option Stamp
  pub event : Option String
  pub actor_type : Option String
  pub phase : Option String
  pub payload_phase : Option String
  pub payload_source : Option String

abbrev run_activity_events : List String
run_activity_events =
    "run_started" ∷ "heartbeat" ∷ "work_complete" ∷ "finalize_rebase_started" ∷ "ready_to_merge"
    ∷ "phase_started" ∷ "phase_finished" ∷ "blocked" ∷ "need_input" ∷ "input_requested"
    ∷ "input_provided" ∷ "unblocked" ∷ []

-- `getTime() > getTime()`, false at NaN.
abbrev pub later : Stamp → Stamp → Bool
later (iso m) (iso n) = ltb n m
later _ _ = false

-- An entry of the interim map of `buildRunMap`.
pub record Entry {ℓ} (T : Type ℓ) : Type ℓ where
  pub run_id : String
  pub ts : Stamp
  pub value : T

module _ {ℓ} {T : Type ℓ} where
  abbrev pub entry_of : List (Entry T) → String → Option (Entry T)
  entry_of entries run_id = find (λ e. e.run_id == run_id) entries

  -- `interim.set(run_id, …)`.
  abbrev pub set_entry : Entry T → List (Entry T) → List (Entry T)
  set_entry new [] = new ∷ []
  set_entry new (e ∷ es) =
      let rest = set_entry new es in if e.run_id == new.run_id then new ∷ es else e ∷ rest

  -- `!prev || time of the event > time of prev`.
  abbrev supersedes : Stamp → Option (Entry T) → Bool
  supersedes ts none = true
  supersedes ts (some prev) = later ts prev.ts

  abbrev pub record_event : Entry T → List (Entry T) → List (Entry T)
  record_event new entries =
      if supersedes new.ts (entry_of entries new.run_id) then set_entry new entries else entries

abbrev keyed : Option String → Option Stamp → Option (String × Stamp)
keyed (some run_id) (some ts) =
    if truthy (some run_id) && opt_stamp_truthy (some ts) then some (run_id, ts) else none
keyed _ _ = none

-- What the loop takes from an event that it does not skip: the run and the time, both truthy.
abbrev pub run_and_time : (OrcEvent → Bool) → OrcEvent → Option (String × Stamp)
run_and_time filter e = if filter e then keyed e.run_id e.ts else none

module _ {ℓ} {T : Type ℓ} (filter : OrcEvent → Bool) (extract : OrcEvent → T) where
  abbrev pub visit : OrcEvent → List (Entry T) → List (Entry T)
  visit e entries = elim (run_and_time filter e) [
    | none ↦ entries
    | some (run_id, ts) ↦
        record_event (record { run_id = run_id; ts = ts; value = extract e }) entries
  ]

  abbrev pub visit_all : List OrcEvent → List (Entry T) → List (Entry T)
  visit_all [] entries = entries
  visit_all (e ∷ es) entries = visit_all es (visit e entries)

  -- `buildRunMap`, with the interim map as its result: the values are read from its entries.
  unfoldable pub build_run_map : List OrcEvent → List (Entry T)
  build_run_map events = visit_all events []

abbrev pub is_run_activity : OrcEvent → Bool
is_run_activity e =
    includes run_activity_events (or_default e.event "")
    && (not (opt_eq e.actor_type (some "coordinator")) && not (opt_eq e.actor_type (some "human")))

pub record RunActivityDetail : Type 0 where
  pub ts : Option Stamp
  pub event : String
  pub source : String

unfoldable pub latest_run_activity_map : List OrcEvent → List (Entry (Option Stamp))
unfolding build_run_map
latest_run_activity_map events = build_run_map is_run_activity (λ e. e.ts) events

unfoldable pub latest_run_activity_detail_map : List OrcEvent → List (Entry RunActivityDetail)
unfolding build_run_map
latest_run_activity_detail_map events =
    build_run_map is_run_activity
      (λ e. record {
        ts = e.ts;
        event = or_default e.event "";
        source = or_default (or_else e.payload_source e.event) "";
      })
      events

abbrev phase_of : OrcEvent → Option String
phase_of e = or_else e.phase e.payload_phase

abbrev starts_phase : OrcEvent → Bool
starts_phase e = opt_eq e.event (some "phase_started") && truthy (phase_of e)

unfoldable pub latest_run_phase_map : List OrcEvent → List (Entry (Option String))
unfolding build_run_map
latest_run_phase_map events = build_run_map starts_phase phase_of events

-- The fields of a claim that `runIdleMs` reads.
pub record Anchors : Type 0 where
  pub last_heartbeat_at : Option Stamp
  pub started_at : Option Stamp
  pub task_envelope_sent_at : Option Stamp

abbrev claimed_run_startup_anchor : Option Anchors → Option Stamp
claimed_run_startup_anchor none = none
claimed_run_startup_anchor (some claim) = claim.task_envelope_sent_at

abbrev anchor_of : Option Anchors → Option Stamp → Option Stamp
anchor_of none latest = latest
anchor_of (some claim) latest = or_else latest (
    or_else claim.last_heartbeat_at
      (or_else claim.started_at (claimed_run_startup_anchor (some claim))))

-- The time is NaN for a text that is no date, the empty one too.
unfoldable pub run_idle_ms : Option Anchors → Option Stamp → ℕ → Option ℕ
run_idle_ms claim latest now = elim (anchor_of claim latest) [
  | none ↦ none
  | some ts ↦ elim (get_time ts) [ none ↦ none | some at ↦ some (now - at) ]
]
