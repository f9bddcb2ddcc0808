-- ===== src/Delivery/Frames.antt =====
-- acknowledgeFromRuntime: the frames of the provider protocol may come late, twice and out of order.
use mathlib.Core.Path.{subst}
use mathlib.Core.List.{append-nil, append_assoc}
use orc_state.Base.{
  Bool, true, false, List, if◌then◌else◌, sym, ◌∙◌, ap, ◌||◌, ◌≡◌, refl, arith, ℕ, String, [], ◌∷◌,
  ◌++◌, Option, none, some, eq_refl, ok, leb, Bool-cases, inl, inr, ◌⊎◌, ◌>>=◌,
}
use orc_state.Store.Schema.{update_where}
use orc_state.Delivery.Schema.{
  DurableCommand, CommandEvent, CommandState, Db, Run, command_of, has_command_id, run_of, event_of,
  append_event, update_command, is_queued, CommandEventName, command_accepted,
}
use orc_state.Delivery.Acks.{
  AckState, acknowledged, ack_event, ack_rank, ack_allowed, of_ack, is_unsent, is_accepted,
  is_running, apply_ack, accept_first, then_reach, acknowledge_from_runtime,
}
use orc_state.Delivery.History.{names_of, names_of-snoc}
use orc_state.Delivery.Moves.{find-update_self, command_of-id, standing}

-- The state that a frame leaves: what it proves, if that is ahead, and else what there was.
abbrev pub after_frame : AckState → CommandState → CommandState
after_frame state now_in = elim (leb (ack_rank (of_ack state)) (ack_rank now_in)) [
  | true ↦ now_in
  | false ↦ of_ack state
]

-- The events after `accepted`.
abbrev reach_events : AckState → List CommandEventName
reach_events AckState.accepted = []
reach_events state = ack_event state ∷ []

-- The events of a frame: none if it proves nothing new, and else its own, after `accepted` unless the
-- command had been accepted.
abbrev pub frame_events : AckState → CommandState → List CommandEventName
frame_events state now_in =
    if leb (ack_rank (of_ack state)) (ack_rank now_in)
    then []
    else if is_accepted now_in || is_running now_in
    then reach_events state
    else command_accepted ∷ reach_events state

past_accepted :
    (state : AckState)
    → (leb (ack_rank (of_ack state)) 1 ≡ false) ⊎ ((true ≡ true) × (state ≡ AckState.accepted))
past_accepted AckState.accepted = inr (refl, refl)
past_accepted AckState.running = inl refl
past_accepted AckState.completed = inl refl
past_accepted AckState.failed = inl refl

module _ (valid : CommandEvent → Bool) (now : ℕ) (owner : Run) where
  abbrev wrote : DurableCommand → AckState → Option String → Db → Db
  wrote c state reason db = record db {
    commands =
        update_where (has_command_id c.command_id) (acknowledged now state reason) db.commands;
    events =
        db.events
        ++ event_of now owner (acknowledged now state reason c) (ack_event state) reason ∷ [];
  }

  apply_ack-total :
      (c : DurableCommand) (state : AckState) (reason : Option String) (db : Db)
      → command_of db c.command_id ≡ some c
      → run_of db c.run_id ≡ ok owner
      → ((e : CommandEvent) → e.command_id ≡ c.command_id → valid e ≡ true)
      → ack_allowed state c.state ≡ true
      → is_unsent c ≡ false
      → apply_ack valid now c state reason db
        ≡ ok (acknowledged now state reason c, wrote c state reason db)
  unfolding apply_ack update_command append_event
  apply_ack-total c state reason db there owned good allowed sent = ground (
    arith,
    find-update_self c.command_id (acknowledged now state reason) (λ x. refl) db.commands,
    good (event_of now owner (acknowledged now state reason c) (ack_event state) reason) refl,
  )

  stands_wrote :
      (c : DurableCommand) (state : AckState) (reason : Option String) (db : Db)
      → command_of db c.command_id ≡ some c
      → command_of (wrote c state reason db) c.command_id ≡ some (acknowledged now state reason c)
  stands_wrote c state reason db there =
      ground (
        arith,
        find-update_self c.command_id (acknowledged now state reason) (λ x. refl) db.commands,
      )

  -- A command that can be acknowledged: its row stands, its run is known, its events are accepted.
  pub record Ready (c : DurableCommand) (db : Db) : Type 0 where
    pub there : command_of db c.command_id ≡ some c
    pub owned : run_of db c.run_id ≡ ok owner
    pub good : (e : CommandEvent) → e.command_id ≡ c.command_id → valid e ≡ true

  Ready-wrote :
      (c : DurableCommand) (state : AckState) (reason : Option String) (db : Db)
      → Ready c db
      → Ready (acknowledged now state reason c) (wrote c state reason db)
  Ready-wrote c state reason db r = record {
    there = stands_wrote c state reason db r.there;
    owned = r.owned;
    good = r.good;
  }

  -- What is returned stands in the new table.
  pub record Reached (state : CommandState) (id : String) (more : List CommandEventName) (db : Db)
      (out : DurableCommand) (db' : Db) : Type 0 where
    pub in_state : out.state ≡ state
    pub stands : command_of db' id ≡ some out
    pub logged : names_of id db'.events ≡ names_of id db.events ++ more

  reach_by_ack :
      (c : DurableCommand) (state : AckState) (reason : Option String) (db : Db)
      → Ready c db
      → Reached
          (of_ack state)
          c.command_id
          (ack_event state ∷ [])
          db
          (acknowledged now state reason c)
          (wrote c state reason db)
  reach_by_ack c state reason db r = record {
    in_state = refl;
    stands = stands_wrote c state reason db r.there;
    logged =
        names_of-snoc c.command_id db.events
          (event_of now owner (acknowledged now state reason c) (ack_event state) reason) refl;
  }

  then_reach_total :
      (c : DurableCommand) (state : AckState) (reason : Option String) (db : Db)
      → Ready c db
      → (is_accepted c.state || is_running c.state) ≡ true
      → leb (ack_rank (of_ack state)) (ack_rank c.state) ≡ false
        ⊎ ((is_accepted c.state ≡ true) × (state ≡ AckState.accepted))
      → (out : DurableCommand) × ((db' : Db) × ((then_reach valid now c state reason db
              ≡ ok (out, db'))
            × Reached (of_ack state) c.command_id (reach_events state) db out db'))
  unfolding then_reach
  then_reach_total c AckState.accepted reason db r live ahead = (
    c,
    (
      db,
      (
        refl,
        record {
          in_state = ground arith;
          stands = r.there;
          logged = sym (append-nil (names_of c.command_id db.events));
        },
      ),
    ),
  )
  then_reach_total c AckState.running reason db r live ahead = (
    acknowledged now AckState.running none c,
    (
      wrote c AckState.running none db,
      (
        ground (
          arith,
          apply_ack-total c AckState.running none db r.there r.owned r.good (ground arith)
              (ground arith),
        ),
        reach_by_ack c AckState.running none db r,
      ),
    ),
  )
  then_reach_total c AckState.completed reason db r live ahead = (
    acknowledged now AckState.completed reason c,
    (
      wrote c AckState.completed reason db,
      (
        apply_ack-total c AckState.completed reason db r.there r.owned r.good (ground arith)
            (ground arith),
        reach_by_ack c AckState.completed reason db r,
      ),
    ),
  )
  then_reach_total c AckState.failed reason db r live ahead = (
    acknowledged now AckState.failed reason c,
    (
      wrote c AckState.failed reason db,
      (
        apply_ack-total c AckState.failed reason db r.there r.owned r.good (ground arith)
            (ground arith),
        reach_by_ack c AckState.failed reason db r,
      ),
    ),
  )

  pass_on :
      (c : DurableCommand) (state : AckState) (reason : Option String) (db : Db)
      → Ready c db
      → is_queued c.state ≡ false
      → is_unsent c ≡ false
      → leb (ack_rank (of_ack state)) (ack_rank c.state) ≡ false
      → (out : DurableCommand) × ((db' : Db) × (((accept_first valid now c db >>= λ moved.
                then_reach valid now moved.0 state reason moved.1)
              ≡ ok (out, db'))
            × Reached
                (of_ack state)
                c.command_id
                (if is_accepted c.state || is_running c.state
                  then reach_events state
                  else command_accepted ∷ reach_events state)
                db
                out
                db'))
  unfolding accept_first
  pass_on c state reason db r queued unsent ahead =
      elim (Bool-cases (is_accepted c.state || is_running c.state)) [
        | inl live ↦
            let (out, (db', (eq, reached))) =
              then_reach_total c state reason db r live (inl ahead) in
            (
              out,
              (
                db',
                (
                  ground (arith, eq),
                  record {
                    in_state = reached.in_state;
                    stands = reached.stands;
                    logged = ground (arith, reached.logged);
                  },
                ),
              ),
            )
        | inr fresh ↦
            let c1 = acknowledged now AckState.accepted none c in
            let db1 = wrote c AckState.accepted none db in
            let first =
              apply_ack-total c AckState.accepted none db r.there r.owned r.good (ground arith)
                unsent in
            let (out, (db', (eq, reached))) =
              then_reach_total c1 state reason db1 (Ready-wrote c AckState.accepted none db r) refl
                (past_accepted state) in
            let begun = reach_by_ack c AckState.accepted none db r in
            let names = names_of c.command_id db.events in
            let path : names_of c.command_id db'.events
                ≡ names ++ command_accepted ∷ reach_events state =
              reached.logged
              ∙ ap (λ l. l ++ reach_events state) begun.logged
              ∙ append_assoc names (command_accepted ∷ []) (reach_events state) in
            (
              out,
              (
                db',
                (
                  ground (arith, first, eq),
                  record {
                    in_state = reached.in_state;
                    stands = reached.stands;
                    logged = ground (arith, path);
                  },
                ),
              ),
            )
      ]

  -- A frame for a command whose send has started, from its own session, never fails: it leaves the
  -- command in the state that it proves if that is ahead of the command's, and else where it was. Its
  -- event is logged, after one of `accepted` if the command had not been accepted, and nothing is logged
  -- by a frame that is not ahead. This holds if the run is known and the validator accepts the events of
  -- the command.
  pub acknowledge_from_runtime_total :
      (id session_id : String) (state : AckState) (reason : Option String) (db : Db)
      {c : DurableCommand}
      → command_of db id ≡ some c
      → c.session_id ≡ some session_id
      → is_queued c.state ≡ false
      → is_unsent c ≡ false
      → run_of db c.run_id ≡ ok owner
      → ((e : CommandEvent) → e.command_id ≡ c.command_id → valid e ≡ true)
      → (out : DurableCommand) × ((db' : Db) × ((acknowledge_from_runtime valid now id session_id
                state reason db
              ≡ ok (out, db'))
            × ((out.state ≡ after_frame state c.state)
                × ((command_of db' id ≡ some out)
                    × (names_of id db'.events
                        ≡ names_of id db.events ++ frame_events state c.state)))))
  unfolding acknowledge_from_runtime
  acknowledge_from_runtime_total id session_id state reason db {c} found own queued unsent owned
        good =
      let r : Ready c db = record {
        there = standing db id {c = c} found;
        owned = owned;
        good = good;
      } in
      let named = command_of-id db id {c = c} found in
      elim (Bool-cases (leb (ack_rank (of_ack state)) (ack_rank c.state))) [
        | inl behind ↦ (
          c,
          (
            db,
            (
              ground (arith, eq_refl session_id),
              (ground arith, (found, ground (arith, append-nil (names_of id db.events)))),
            ),
          ),
        )
        | inr ahead ↦
            let (out, (db', (eq, reached))) = pass_on c state reason db r queued unsent ahead in
            (
              out,
              (
                db',
                (
                  ground (arith, eq, eq_refl session_id),
                  (
                    ground (arith, reached.in_state),
                    (
                      subst (λ i. command_of db' i ≡ some out) named reached.stands,
                      ground (
                        arith,
                        subst
                            (λ i.
                              names_of i db'.events
                              ≡ names_of i db.events
                                ++ (if is_accepted c.state || is_running c.state
                                    then reach_events state
                                    else command_accepted ∷ reach_events state))
                            named reached.logged,
                      ),
                    ),
                  ),
                ),
              ),
            )
      ]
