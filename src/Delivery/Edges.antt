-- ===== src/Delivery/Edges.antt =====
-- The edges that the assignments of lib/commandDelivery.ts take, each from the test that guards it.
use mathlib.Core.Path.{subst}
use orc_state.Base.{
  Bool, true, false, not, ◌&&◌, ◌≡◌, ◌≤◌, refl, arith, String, ℕ, Option, is_some, leb, sym,
  Bool-cases, inl, inr,
}
use orc_state.Delivery.Schema.{
  DurableCommand, CommandState, CommandEventName, is_queued, is_dispatching, is_unknown, moved_to,
  command_accepted, command_running, command_completed, command_queued, command_dispatching,
  command_send_started, command_sent, command_failed, command_outcome_unknown,
}
use orc_state.Delivery.Sending.{reserved, started, delivered, requeued, deferred}
use orc_state.Delivery.Acks.{
  AckState, Outcome, ack_allowed, ack_event, acknowledged, is_unsent, of_ack, of_outcome,
  outcome_event,
}
use orc_state.Delivery.Phases.{
  Phase, Progress, Edge, Within, phase, phase_of, waiting, held, offered, sent, accepted, running,
  uncertain, closed, reserve, offer, deliver, give_back, retry, drop_waiting, drop_held,
  drop_offered, drop_sent, fail_accepted, fail_running, lose_offered, lose_sent, lose_accepted,
  lose_running, accept_offered, accept_sent, accept_uncertain, run, complete_accepted,
  complete_running, resolve_completed, resolve_failed, resolve_cancelled,
}

phase-queued : (s : CommandState) (b : Bool) → is_queued s ≡ true → phase_of s b ≡ waiting
phase-queued s b h = ground arith

phase-held :
    (s : CommandState) (b : Bool) → is_dispatching s ≡ true → b ≡ false → phase_of s b ≡ held
phase-held s b h e = ground arith

phase-offered :
    (s : CommandState) (b : Bool) → is_dispatching s ≡ true → b ≡ true → phase_of s b ≡ offered
phase-offered s b h e = ground arith

phase-uncertain : (s : CommandState) (b : Bool) → is_unknown s ≡ true → phase_of s b ≡ uncertain
phase-uncertain s b h = ground arith

pub Within-le : (p : Phase) (attempts limit : ℕ) → Within p attempts limit → attempts ≤ limit
Within-le p attempts limit h = ground arith

-- The assignments leave alone what identifies a command.
abbrev Same : DurableCommand → DurableCommand → Type 0
Same c d =
    (d.command_id ≡ c.command_id)
    × ((d.run_id ≡ c.run_id)
        × ((d.idempotency_key ≡ c.idempotency_key)
            × ((d.side_effecting ≡ c.side_effecting) × (d.max_attempts ≡ c.max_attempts))))

edge :
    (c d : DurableCommand) {p q : Phase} {name : CommandEventName}
    → phase c ≡ p
    → phase d ≡ q
    → Progress c.side_effecting p q name
    → Same c d
    → (Within p c.attempt_count c.max_attempts → Within q d.attempt_count d.max_attempts)
    → Edge c d name
edge c d {p} {q} {name} from to progress same within = record {
  progress =
      subst (λ x. Progress c.side_effecting x (phase d) name) (sym from)
        (subst (λ x. Progress c.side_effecting p x name) (sym to) progress);
  command_id = same.0;
  run_id = same.1.0;
  idempotency_key = same.1.1.0;
  side_effecting = same.1.1.1.0;
  max_attempts = same.1.1.1.1;
  within = λ h.
      subst (λ x. Within x d.attempt_count d.max_attempts) (sym to)
        (within (subst (λ x. Within x c.attempt_count c.max_attempts) from h));
}

-- The phases from which a command may be failed without its recipient's word.
abbrev pub droppable : Bool → Phase → Bool
droppable effects waiting = true
droppable effects held = true
droppable effects accepted = true
droppable effects running = true
droppable effects offered = not effects
droppable effects sent = not effects
droppable effects _ = false

drop :
    (effects : Bool) (p : Phase)
    → droppable effects p ≡ true
    → Progress effects p closed command_failed
drop effects waiting h = drop_waiting
drop effects held h = drop_held
drop effects accepted h = fail_accepted
drop effects running h = fail_running
drop effects offered h = drop_offered (ground arith)
drop effects sent h = drop_sent (ground arith)
drop effects uncertain h = absurd (ground arith)
drop effects closed h = absurd (ground arith)

-- The send has started and the command has not ended.
abbrev pub in_flight : Phase → Bool
in_flight offered = true
in_flight sent = true
in_flight accepted = true
in_flight running = true
in_flight _ = false

lose :
    (effects : Bool) (p : Phase)
    → effects ≡ true
    → in_flight p ≡ true
    → Progress effects p uncertain command_outcome_unknown
lose effects offered e h = lose_offered e
lose effects sent e h = lose_sent e
lose effects accepted e h = lose_accepted e
lose effects running e h = lose_running e
lose effects waiting e h = absurd (ground arith)
lose effects held e h = absurd (ground arith)
lose effects uncertain e h = absurd (ground arith)
lose effects closed e h = absurd (ground arith)

module _ (c : DurableCommand) where
  pub reserved-Edge :
      (at : ℕ) → is_queued c.state ≡ true → Edge c (reserved at c) command_dispatching
  reserved-Edge at q =
      edge c (reserved at c) (phase-queued c.state (is_some c.send_started_at) q) refl reserve
        (refl, (refl, (refl, (refl, refl)))) (λ h. (omega arith, omega arith))

  pub started-Edge :
      (now : ℕ)
      → is_dispatching c.state ≡ true
      → is_some c.send_started_at ≡ false
      → Edge c (started now c) command_send_started
  started-Edge now d s =
      edge c (started now c) (phase-held c.state (is_some c.send_started_at) d s)
        (phase-offered c.state true d refl) offer (refl, (refl, (refl, (refl, refl)))) (λ h. h)

  pub delivered-Edge :
      (now : ℕ)
      → is_dispatching c.state ≡ true
      → is_some c.send_started_at ≡ true
      → Edge c (delivered now c) command_sent
  delivered-Edge now d s =
      edge c (delivered now c) (phase-offered c.state (is_some c.send_started_at) d s) refl deliver
        (refl, (refl, (refl, (refl, refl)))) (λ h. h.1)

  pub deferred-Edge :
      (at : ℕ) (reason : String)
      → is_dispatching c.state ≡ true
      → is_some c.send_started_at ≡ false
      → Edge c (deferred at reason c) command_queued
  deferred-Edge at reason d s =
      edge c (deferred at reason c) (phase-held c.state (is_some c.send_started_at) d s) refl
        give_back (refl, (refl, (refl, (refl, refl)))) (λ h. ground (arith, h.0, h.1))

  requeued_held-Edge :
      (at : ℕ) (reason : String)
      → is_dispatching c.state ≡ true
      → is_some c.send_started_at ≡ false
      → leb c.max_attempts c.attempt_count ≡ false
      → Edge c (requeued at reason c) command_queued
  requeued_held-Edge at reason d s a =
      edge c (requeued at reason c) (phase-held c.state (is_some c.send_started_at) d s) refl
        give_back (refl, (refl, (refl, (refl, refl)))) (λ h. ground arith)

  requeued_offered-Edge :
      (at : ℕ) (reason : String)
      → is_dispatching c.state ≡ true
      → is_some c.send_started_at ≡ true
      → c.side_effecting ≡ false
      → leb c.max_attempts c.attempt_count ≡ false
      → Edge c (requeued at reason c) command_queued
  requeued_offered-Edge at reason d s e a =
      edge c (requeued at reason c) (phase-offered c.state (is_some c.send_started_at) d s) refl
        (retry e) (refl, (refl, (refl, (refl, refl)))) (λ h. ground arith)

  -- A dispatched command is queued again only if its send did not start or has no side effects.
  pub requeued-Edge :
      (at : ℕ) (reason : String)
      → is_dispatching c.state ≡ true
      → (is_some c.send_started_at && c.side_effecting) ≡ false
      → leb c.max_attempts c.attempt_count ≡ false
      → Edge c (requeued at reason c) command_queued
  requeued-Edge at reason d safe a = elim (Bool-cases (is_some c.send_started_at)) [
    | inl s ↦ requeued_offered-Edge at reason d s (ground arith) a
    | inr s ↦ requeued_held-Edge at reason d s a
  ]

  Within-closed :
      (p : Phase) → Within p c.attempt_count c.max_attempts → c.attempt_count ≤ c.max_attempts
  Within-closed p h = Within-le p c.attempt_count c.max_attempts h

  Within-acked :
      (p : Phase) (st : AckState) (now : ℕ) (reason : Option String)
      → Within p c.attempt_count c.max_attempts
      → Within (phase_of (of_ack st) (is_some c.send_started_at)) c.attempt_count c.max_attempts
  Within-acked p st now reason h = ground (arith, Within-closed p h)

  accepted-Edge :
      (now : ℕ) (reason : Option String)
      → ack_allowed AckState.accepted c.state ≡ true
      → is_unsent c ≡ false
      → Edge c (acknowledged now AckState.accepted reason c) command_accepted
  accepted-Edge now reason a u =
      let d = acknowledged now AckState.accepted reason c in
      elim (Bool-cases (is_dispatching c.state)) [
        | inl dispatched ↦
            edge c d (phase-offered c.state (is_some c.send_started_at) dispatched (ground arith))
              refl accept_offered (refl, (refl, (refl, (refl, refl)))) (Within-closed offered)
        | inr apart ↦ elim (Bool-cases (is_unknown c.state)) [
          | inl lost ↦
              edge c d (phase-uncertain c.state (is_some c.send_started_at) lost) refl
                accept_uncertain (refl, (refl, (refl, (refl, refl)))) (Within-closed uncertain)
          | inr known ↦
              edge c d {p = sent} (ground arith) refl accept_sent
                (refl, (refl, (refl, (refl, refl)))) (Within-closed sent)
        ]
      ]

  run-Edge :
      (now : ℕ) (reason : Option String)
      → ack_allowed AckState.running c.state ≡ true
      → Edge c (acknowledged now AckState.running reason c) command_running
  run-Edge now reason a =
      edge c (acknowledged now AckState.running reason c) {p = accepted} (ground arith) refl run
        (refl, (refl, (refl, (refl, refl)))) (Within-closed accepted)

  complete-Edge :
      (now : ℕ) (reason : Option String)
      → ack_allowed AckState.completed c.state ≡ true
      → Edge c (acknowledged now AckState.completed reason c) command_completed
  complete-Edge now reason a =
      let d = acknowledged now AckState.completed reason c in
      elim (Bool-cases (ack_allowed AckState.running c.state)) [
        | inl e ↦
            edge c d {p = accepted} (ground arith) refl complete_accepted
              (refl, (refl, (refl, (refl, refl)))) (Within-closed accepted)
        | inr e ↦
            edge c d {p = running} (ground arith) refl complete_running
              (refl, (refl, (refl, (refl, refl)))) (Within-closed running)
      ]

  fail-Edge :
      (now : ℕ) (reason : Option String)
      → ack_allowed AckState.failed c.state ≡ true
      → Edge c (acknowledged now AckState.failed reason c) command_failed
  fail-Edge now reason a =
      let d = acknowledged now AckState.failed reason c in
      elim (Bool-cases (ack_allowed AckState.running c.state)) [
        | inl e ↦
            edge c d {p = accepted} (ground arith) refl fail_accepted
              (refl, (refl, (refl, (refl, refl)))) (Within-closed accepted)
        | inr e ↦
            edge c d {p = running} (ground arith) refl fail_running
              (refl, (refl, (refl, (refl, refl)))) (Within-closed running)
      ]

  pub acknowledged-Edge :
      (now : ℕ) (st : AckState) (reason : Option String)
      → ack_allowed st c.state ≡ true
      → is_unsent c ≡ false
      → Edge c (acknowledged now st reason c) (ack_event st)
  acknowledged-Edge now AckState.accepted reason a u = accepted-Edge now reason a u
  acknowledged-Edge now AckState.running reason a u = run-Edge now reason a
  acknowledged-Edge now AckState.completed reason a u = complete-Edge now reason a
  acknowledged-Edge now AckState.failed reason a u = fail-Edge now reason a

  pub resolved-Edge :
      (now : ℕ) (outcome : Outcome) (reason : Option String)
      → is_unknown c.state ≡ true
      → Edge c (moved_to now (of_outcome outcome) reason c) (outcome_event outcome)
  resolved-Edge now Outcome.completed reason u =
      edge c (moved_to now CommandState.completed reason c)
        (phase-uncertain c.state (is_some c.send_started_at) u) refl resolve_completed
        (refl, (refl, (refl, (refl, refl)))) (Within-closed uncertain)
  resolved-Edge now Outcome.failed reason u =
      edge c (moved_to now CommandState.failed reason c)
        (phase-uncertain c.state (is_some c.send_started_at) u) refl resolve_failed
        (refl, (refl, (refl, (refl, refl)))) (Within-closed uncertain)
  resolved-Edge now Outcome.cancelled reason u =
      edge c (moved_to now CommandState.cancelled reason c)
        (phase-uncertain c.state (is_some c.send_started_at) u) refl resolve_cancelled
        (refl, (refl, (refl, (refl, refl)))) (Within-closed uncertain)

  pub dropped-Edge :
      (now : ℕ) (reason : Option String)
      → droppable c.side_effecting (phase c) ≡ true
      → Edge c (moved_to now CommandState.failed reason c) command_failed
  dropped-Edge now reason h =
      edge c (moved_to now CommandState.failed reason c) refl refl
        (drop c.side_effecting (phase c) h) (refl, (refl, (refl, (refl, refl))))
        (Within-closed (phase c))

  pub lost-Edge :
      (now : ℕ) (reason : Option String)
      → c.side_effecting ≡ true
      → in_flight (phase c) ≡ true
      → Edge c (moved_to now CommandState.outcome_unknown reason c) command_outcome_unknown
  lost-Edge now reason e h =
      edge c (moved_to now CommandState.outcome_unknown reason c) refl refl
        (lose c.side_effecting (phase c) e h) (refl, (refl, (refl, (refl, refl))))
        (Within-closed (phase c))
