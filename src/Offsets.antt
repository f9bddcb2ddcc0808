-- ===== src/Offsets.antt =====
-- lib/eventOffsets.ts: how far each consumer of the event log has read. The tables are lists, and a
-- position is a natural number. The two readings of the row in `initializeEventOffset`, before and in
-- its transaction, are one here.
pub mod Cursor
pub mod Advance
use orc_state.Base.{
  Bool, true, false, not, ◌&&◌, ◌||◌, Option, none, some, String, List, [], ◌∷◌, ℕ, ◌+◌, ◌==◌, ltb,
  leb, nat_eq, if◌then◌else◌, Result, ok, err, ◌>>=◌, ◌>>◌, throw_if, find, any_of, filter_by,
  includes, map,
}

pub record OffsetRow : Type 0 where
  pub consumer_id : String
  pub last_event_seq : ℕ

-- The rows of `events` that the cursor reads.
pub record EventRow : Type 0 where
  pub seq : ℕ
  pub event_id : String

-- `resets` are the consumers with a row `event_cursor_reset:<consumer>` in `runtime_cutovers`.
pub record OffsetsDb : Type 0 where
  pub offsets : List OffsetRow
  pub resets : List String

pub data OffsetFault : Type 0 where
  bad_offset consumer_required moves_backwards changed_concurrently not_initialized skips_pending :
      OffsetFault

-- The legacy checkpoint, as far as the import reads it.
pub record Legacy : Type 0 where
  pub last_processed_seq : ℕ
  pub processed_event_ids : List String

abbrev offset_of : OffsetsDb → String → Option OffsetRow
offset_of db consumer = find (λ row. row.consumer_id == consumer) db.offsets

abbrev pub offset_or_zero : Option OffsetRow → ℕ
offset_or_zero none = 0
offset_or_zero (some row) = row.last_event_seq

unfoldable pub read_event_offset : OffsetsDb → String → ℕ
read_event_offset db consumer = offset_or_zero (offset_of db consumer)

-- `processed.has(row.event_id) || processed.has("legacy:seq:" + row.seq)`, where `legacy_id` writes
-- the text of the second.
abbrev pub was_processed : (ℕ → String) → Legacy → EventRow → Bool
was_processed legacy_id legacy row =
    includes legacy.processed_event_ids row.event_id
    || includes legacy.processed_event_ids (legacy_id row.seq)

-- The loop over the rows: it stops at the first row that was not processed.
abbrev pub advance_cursor : (EventRow → Bool) → List EventRow → ℕ → ℕ
advance_cursor processed [] cursor = cursor
advance_cursor processed (row ∷ rows) cursor =
    let rest = advance_cursor processed rows row.seq in if processed row then rest else cursor

-- `WHERE seq <= ?` on the rows, which are in the order of `seq`.
abbrev pub up_to : ℕ → List EventRow → List EventRow
up_to last rows = filter_by (λ row. leb row.seq last) rows

unfoldable pub legacy_cursor : (ℕ → String) → Option Legacy → List EventRow → ℕ
legacy_cursor legacy_id none rows = 0
legacy_cursor legacy_id (some legacy) rows =
    advance_cursor (was_processed legacy_id legacy) (up_to legacy.last_processed_seq rows) 0

abbrev insert_offset : OffsetsDb → String → ℕ → OffsetsDb
insert_offset db consumer cursor = record db {
  offsets = record { consumer_id = consumer; last_event_seq = cursor } ∷ db.offsets;
}

-- The checkpoint file is read, if it stands there, for the coordinator alone.
abbrev legacy_for : String → Option Legacy → Option Legacy
legacy_for consumer file = if consumer == "coordinator" then file else none

unfoldable pub initialize_event_offset :
    (ℕ → String)
    → OffsetsDb
    → Option Legacy
    → List EventRow
    → String
    → Result OffsetFault (OffsetsDb × ℕ)
initialize_event_offset legacy_id db file rows consumer =
    if consumer == "" then err consumer_required else elim (offset_of db consumer) [
      | some row ↦ ok (db, row.last_event_seq)
      | none ↦ ok (
        insert_offset db consumer (legacy_cursor legacy_id (legacy_for consumer file) rows),
        legacy_cursor legacy_id (legacy_for consumer file) rows,
      )
    ]

-- `UPDATE offsets SET last_event_seq = ? WHERE …`.
abbrev pub set_where : (OffsetRow → Bool) → ℕ → List OffsetRow → List OffsetRow
set_where p seq [] = []
set_where p seq (row ∷ rows) =
    let rest = set_where p seq rows in
    if p row then record row { last_event_seq = seq } ∷ rest else row ∷ rest

abbrev pub count_where : (OffsetRow → Bool) → List OffsetRow → ℕ
count_where p [] = 0
count_where p (row ∷ rows) = let rest = count_where p rows in if p row then 1 + rest else rest

abbrev pub stands_at : String → ℕ → OffsetRow → Bool
stands_at consumer seq row = (row.consumer_id == consumer) && nat_eq row.last_event_seq seq

-- `assertSeq` refuses what is no safe integer.
abbrev is_unsafe : ℕ → Bool
is_unsafe seq = ltb 9007199254740991 seq

unfoldable pub advance_event_offset :
    OffsetsDb → ℕ → ℕ → String → Result OffsetFault (OffsetsDb × ℕ)
advance_event_offset db expected next consumer = do
  throw_if (is_unsafe expected || is_unsafe next) bad_offset
  throw_if (ltb next expected) moves_backwards
  throw_if (not (nat_eq (count_where (stands_at consumer expected) db.offsets) 1))
      changed_concurrently
  ok (record db { offsets = set_where (stands_at consumer expected) next db.offsets }, next)

-- `INSERT OR IGNORE` into a list of keys.
abbrev insert_or_ignore : String → List String → List String
insert_or_ignore key keys = if includes keys key then keys else key ∷ keys

abbrev of_consumer : String → OffsetRow → Bool
of_consumer consumer row = row.consumer_id == consumer

unfoldable pub reset_event_offset : OffsetsDb → ℕ → String → Result OffsetFault OffsetsDb
reset_event_offset db seq consumer =
    if is_unsafe seq then err bad_offset else elim (offset_of db consumer) [
      | none ↦ err not_initialized
      | some row ↦
          if ltb row.last_event_seq seq
          then err skips_pending
          else ok (record db {
            offsets = set_where (of_consumer consumer) seq db.offsets;
            resets = insert_or_ignore consumer db.resets;
          })
    ]

unfoldable pub was_event_offset_reset : OffsetsDb → String → Bool
was_event_offset_reset db consumer = includes db.resets consumer
