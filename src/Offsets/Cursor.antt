-- ===== src/Offsets/Cursor.antt =====
-- lib/eventOffsets.ts: the position that the import of a legacy checkpoint gives.
use mathlib.Core.Path.{subst}
use orc_state.Base.{
  Bool, true, some, String, List, [], ◌∷◌, ℕ, ◌≤◌, ◌<◌, ◌≡◌, ◌⊎◌, inl, inr, sym, refl, arith, All,
}
use orc_state.Offsets.{EventRow, Legacy, legacy_cursor, advance_cursor, up_to, was_processed}

-- The rows stand in the order of `seq`, all of them after `last`.
abbrev Ascending : ℕ → List EventRow → Type 0
Ascending last [] = Unit
Ascending last (row ∷ rows) = (last < row.seq) × Ascending row.seq rows

-- Each row up to `cursor` was processed.
abbrev pub ProcessedUpTo : (EventRow → Bool) → ℕ → List EventRow → Type 0
ProcessedUpTo processed cursor rows = All (λ row. row.seq ≤ cursor → processed row ≡ true) rows

Ascending-weaken : (a b : ℕ) (rows : List EventRow) → a ≤ b → Ascending b rows → Ascending a rows
Ascending-weaken a b [] le asc = tt
Ascending-weaken a b (row ∷ rows) le (lt, asc) = (omega arith, asc)

-- No row after `last` is read.
up_to_none :
    (last cursor : ℕ) (rows : List EventRow)
    → last ≤ cursor
    → Ascending cursor rows
    → up_to last rows ≡ []
up_to_none last cursor [] le asc = refl
up_to_none last cursor (row ∷ rows) le (lt, asc) =
    ground (arith, up_to_none last row.seq rows (omega arith) asc)

beyond :
    (processed : EventRow → Bool) (cursor : ℕ) (rows : List EventRow)
    → Ascending cursor rows
    → ProcessedUpTo processed cursor rows
beyond processed cursor [] asc = tt
beyond processed cursor (row ∷ rows) (lt, asc) = (
  λ le. absurd (omega arith),
  beyond processed cursor rows (Ascending-weaken cursor row.seq rows (omega arith) asc),
)

-- The import stops before a row, or the row was processed and the import goes on behind it.
stops_or_goes_on :
    (processed : EventRow → Bool) (last cursor : ℕ) (row : EventRow) (rows : List EventRow)
    → Ascending cursor (row ∷ rows)
    → (advance_cursor processed (up_to last (row ∷ rows)) cursor ≡ cursor)
      ⊎ ((processed row ≡ true)
          × (advance_cursor processed (up_to last (row ∷ rows)) cursor
              ≡ advance_cursor processed (up_to last rows) row.seq))
stops_or_goes_on processed last cursor row rows (lt, asc) =
    ground (arith, up_to_none last row.seq rows)

advance_cursor-ProcessedUpTo :
    (processed : EventRow → Bool) (last cursor : ℕ) (rows : List EventRow)
    → Ascending cursor rows
    → ProcessedUpTo processed (advance_cursor processed (up_to last rows) cursor) rows
advance_cursor-ProcessedUpTo processed last cursor [] asc = tt
advance_cursor-ProcessedUpTo processed last cursor (row ∷ rows) asc =
    elim (stops_or_goes_on processed last cursor row rows asc) [
      | inl e ↦
          subst (λ c. ProcessedUpTo processed c (row ∷ rows)) (sym e)
            (beyond processed cursor (row ∷ rows) asc)
      | inr (p, e) ↦
          subst (λ c. ProcessedUpTo processed c (row ∷ rows)) (sym e)
            ((λ le. p), advance_cursor-ProcessedUpTo processed last row.seq rows asc.1)
    ]

-- If the events stand in the order of their positive sequence numbers, the position imported from a
-- legacy checkpoint has no event before it or at it that was not processed.
pub legacy_cursor-ProcessedUpTo :
    (legacy_id : ℕ → String) (legacy : Legacy) (rows : List EventRow)
    → Ascending 0 rows
    → ProcessedUpTo
        (was_processed legacy_id legacy)
        (legacy_cursor legacy_id (some legacy) rows)
        rows
unfolding legacy_cursor
legacy_cursor-ProcessedUpTo legacy_id legacy rows asc =
    advance_cursor-ProcessedUpTo (was_processed legacy_id legacy) legacy.last_processed_seq 0 rows
      asc
