-- ===== src/Offsets/Advance.antt =====
-- lib/eventOffsets.ts: what moving a position does, and what it never does.
use mathlib.Core.Path.{subst}
use orc_state.Base.{
  Bool, false, Option, String, List, [], ◌∷◌, ℕ, ◌≤◌, ◌≡◌, sym, refl, arith, ◌==◌, eq_iff, nat_eq,
  ok, err, find, All,
}
use orc_state.Offsets.{
  OffsetRow, OffsetsDb, changed_concurrently, advance_event_offset, read_event_offset, set_where,
  count_where, stands_at, offset_or_zero,
}

-- A consumer has at most one row: `consumer_id` is the key of the table.
abbrev IsKeyed : List OffsetRow → Type 0
IsKeyed [] = Unit
IsKeyed (row ∷ rows) =
    All (λ other. (other.consumer_id == row.consumer_id) ≡ false) rows × IsKeyed rows

-- The position of a consumer in the table.
abbrev pub position : List OffsetRow → String → Option OffsetRow
position rows consumer = find (λ row. row.consumer_id == consumer) rows

module _ (consumer : String) (expected next : ℕ) where
  -- After the move nobody stands where the consumer stood.
  none_left :
      (rows : List OffsetRow)
      → nat_eq next expected ≡ false
      → count_where
          (stands_at consumer expected)
          (set_where (stands_at consumer expected) next rows)
        ≡ 0
  none_left [] ne = refl
  none_left (row ∷ rows) ne = ground (arith, none_left rows ne)

-- Of two consumers of one name that read the same position, the second to move it to a safe integer
-- that is not smaller fails once the first has moved it.
pub advance_event_offset_race :
    (db moved : OffsetsDb) (expected next next2 : ℕ) (consumer : String) (at : ℕ)
    → advance_event_offset db expected next consumer ≡ ok (moved, at)
    → nat_eq next expected ≡ false
    → expected ≤ next2
    → next2 ≤ 9007199254740991
    → advance_event_offset moved expected next2 consumer ≡ err changed_concurrently
unfolding advance_event_offset
advance_event_offset_race db moved expected next next2 consumer at h ne le safe =
    ground (arith, none_left consumer expected next db.offsets ne)

-- What a change of one position to `next` leaves: the table keyed, and everybody else in place.
pub record Moves (old new : OffsetsDb) (consumer : String) (next : ℕ) : Type 0 where
  pub keyed : IsKeyed new.offsets
  pub moved : read_event_offset new consumer ≡ next
  pub others :
      (other : String)
      → (other == consumer) ≡ false
      → read_event_offset new other ≡ read_event_offset old other

module _ (consumer : String) (p : OffsetRow → Bool) (next : ℕ) where
  apart-set_where :
      (id : String) (rows : List OffsetRow)
      → All (λ other. (other.consumer_id == id) ≡ false) rows
      → All (λ other. (other.consumer_id == id) ≡ false) (set_where p next rows)
  apart-set_where id [] apart = tt
  apart-set_where id (row ∷ rows) (here, there) = ground (arith, apart-set_where id rows there)

  set_where-IsKeyed : (rows : List OffsetRow) → IsKeyed rows → IsKeyed (set_where p next rows)
  set_where-IsKeyed [] keyed = tt
  set_where-IsKeyed (row ∷ rows) (apart, keyed) =
      ground (arith, apart-set_where row.consumer_id rows apart, set_where-IsKeyed rows keyed)

abbrev value : List OffsetRow → String → ℕ
value rows consumer = offset_or_zero (position rows consumer)

module _ (consumer : String) (expected next : ℕ) where
  count_apart :
      (rows : List OffsetRow)
      → All (λ other. (other.consumer_id == consumer) ≡ false) rows
      → count_where (stands_at consumer expected) rows ≡ 0
  count_apart [] apart = refl
  count_apart (row ∷ rows) (here, there) = ground (arith, count_apart rows there)

  apart_same :
      (id : String) (rows : List OffsetRow)
      → id ≡ consumer
      → All (λ other. (other.consumer_id == id) ≡ false) rows
      → count_where (stands_at consumer expected) rows ≡ 0
  apart_same id rows e apart =
      count_apart rows (subst (λ c. All (λ other. (other.consumer_id == c) ≡ false) rows) e apart)

  value_before :
      (rows : List OffsetRow)
      → IsKeyed rows
      → count_where (stands_at consumer expected) rows ≡ 1
      → value rows consumer ≡ expected
  value_before [] keyed h = ground arith
  value_before (row ∷ rows) (apart, keyed) h = ground (
    arith,
    value_before rows keyed,
    eq_iff row.consumer_id consumer,
    apart_same row.consumer_id rows,
  )

  value_after :
      (rows : List OffsetRow)
      → IsKeyed rows
      → count_where (stands_at consumer expected) rows ≡ 1
      → value (set_where (stands_at consumer expected) next rows) consumer ≡ next
  value_after [] keyed h = ground arith
  value_after (row ∷ rows) (apart, keyed) h = ground (
    arith,
    value_after rows keyed,
    eq_iff row.consumer_id consumer,
    apart_same row.consumer_id rows,
  )

  value_others :
      (other : String) (rows : List OffsetRow)
      → (other == consumer) ≡ false
      → value (set_where (stands_at consumer expected) next rows) other ≡ value rows other
  value_others other [] ne = refl
  value_others other (row ∷ rows) ne = ground (
    arith,
    value_others other rows ne,
    eq_iff row.consumer_id consumer,
    eq_iff row.consumer_id other,
    eq_iff other consumer,
  )

-- What a move that is let through says of the table.
advanced_row :
    (db new : OffsetsDb) (expected next at : ℕ) (consumer : String)
    → advance_event_offset db expected next consumer ≡ ok (new, at)
    → (count_where (stands_at consumer expected) db.offsets ≡ 1)
      × (expected ≤ next)
      × (new.offsets ≡ set_where (stands_at consumer expected) next db.offsets)
unfolding advance_event_offset
advanced_row db new expected next at consumer h = ground arith

-- In a table with one row for each consumer, a move that succeeds started at the expected position,
-- went forward, leaves the consumer at the new position and every other consumer where it was, and
-- keeps one row for each consumer.
pub advance_event_offset-Moves :
    (db new : OffsetsDb) (expected next at : ℕ) (consumer : String)
    → IsKeyed db.offsets
    → advance_event_offset db expected next consumer ≡ ok (new, at)
    → Moves db new consumer next × (read_event_offset db consumer ≡ expected) × (expected ≤ next)
unfolding read_event_offset
advance_event_offset-Moves db new expected next at consumer keyed h =
    let (count, le, e) = advanced_row db new expected next at consumer h in
    (
      record {
        keyed =
            subst IsKeyed (sym e)
              (set_where-IsKeyed consumer (stands_at consumer expected) next db.offsets keyed);
        moved =
            subst (λ rows. value rows consumer ≡ next) (sym e)
              (value_after consumer expected next db.offsets keyed count);
        others = λ other ne.
            subst (λ rows. value rows other ≡ value db.offsets other) (sym e)
              (value_others consumer expected next other db.offsets ne);
      },
      value_before consumer expected next db.offsets keyed count,
      le,
    )
