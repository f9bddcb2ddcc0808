-- ===== src/Examples/Offsets.antt =====
-- lib/eventOffsets.ts on a log of four events and a table of two consumers.
use orc_state.Base.{
  List, [], ◌∷◌, some, String, ℕ, ◌≤◌, ◌≡◌, refl, arith, err, nat_eq, if◌then◌else◌,
}
use orc_state.Offsets.{
  EventRow, OffsetRow, OffsetsDb, Legacy, changed_concurrently, legacy_cursor, was_processed,
  advance_event_offset, read_event_offset,
}
use orc_state.Offsets.Cursor.{ProcessedUpTo, legacy_cursor-ProcessedUpTo}
use orc_state.Offsets.Advance.{Moves, advance_event_offset-Moves, advance_event_offset_race}

abbrev event_row : ℕ → String → EventRow
event_row seq event_id = record { seq = seq; event_id = event_id }

abbrev event_log : List EventRow
event_log = event_row 1 "e1" ∷ event_row 2 "e2" ∷ event_row 4 "e4" ∷ event_row 5 "e5" ∷ []

-- The third event was not processed, the fourth was.
abbrev checkpoint : Legacy
checkpoint = record {
  last_processed_seq = 5;
  processed_event_ids = "e1" ∷ "e5" ∷ "legacy:seq:2" ∷ [];
}

abbrev legacy_id : ℕ → String
legacy_id seq = if nat_eq seq 2 then "legacy:seq:2" else "legacy:seq:0"

stops_at_gap : legacy_cursor legacy_id (some checkpoint) event_log ≡ 2
unfolding legacy_cursor
stops_at_gap = refl

legacy_cursor-ProcessedUpTo_example :
    ProcessedUpTo
      (was_processed legacy_id checkpoint)
      (legacy_cursor legacy_id (some checkpoint) event_log)
      event_log
legacy_cursor-ProcessedUpTo_example =
    legacy_cursor-ProcessedUpTo legacy_id checkpoint event_log
      (ground arith, (ground arith, (ground arith, (ground arith, tt))))

abbrev offset_row : String → ℕ → OffsetRow
offset_row consumer seq = record { consumer_id = consumer; last_event_seq = seq }

abbrev offsets_at : ℕ → OffsetsDb
offsets_at seq = record {
  offsets = offset_row "mirror" 9 ∷ offset_row "coordinator" seq ∷ [];
  resets = [];
}

advance_event_offset-Moves_example :
    Moves (offsets_at 2) (offsets_at 4) "coordinator" 4
    × (read_event_offset (offsets_at 2) "coordinator" ≡ 2)
    × (2 ≤ 4)
unfolding advance_event_offset
advance_event_offset-Moves_example =
    advance_event_offset-Moves (offsets_at 2) (offsets_at 4) 2 4 4 "coordinator"
      ((refl, tt), (tt, tt)) refl

advance_event_offset_race_example :
    advance_event_offset (offsets_at 4) 2 5 "coordinator" ≡ err changed_concurrently
unfolding advance_event_offset
advance_event_offset_race_example =
    advance_event_offset_race (offsets_at 2) (offsets_at 4) 2 4 5 "coordinator" 4 refl refl
      (ground arith) (ground arith)
