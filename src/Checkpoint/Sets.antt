-- ===== src/Checkpoint/Sets.antt =====
-- The checkpoint as a set of processed events.
use orc_state.Base.{
  false, ◌||◌, String, List, [], ◌∷◌, ◌++◌, ℕ, ◌≤◌, ◌≡◌, refl, arith, ◌==◌, eq_iff, includes, dedup,
  without,
}
use orc_state.Base.Time.{Stamp}
use orc_state.Checkpoint.{EventProcessingCheckpoint, advance_event_checkpoint}

includes-without :
    (a : String) (xs : List String) (x : String)
    → ((a == x) || includes (without a xs) x) ≡ ((a == x) || includes xs x)
includes-without a [] x = refl
includes-without a (y ∷ ys) x =
    ground (arith, includes-without a ys x, eq_iff y a, eq_iff a x, eq_iff y x)

includes-dedup : (xs : List String) (x : String) → includes (dedup xs) x ≡ includes xs x
includes-dedup [] x = refl
includes-dedup (y ∷ ys) x = ground (arith, includes-without y (dedup ys) x, includes-dedup ys x)

includes-snoc :
    (xs : List String) (a x : String) → includes (xs ++ a ∷ []) x ≡ (includes xs x || (a == x))
includes-snoc [] a x = ground arith
includes-snoc (y ∷ ys) a x = ground (arith, includes-snoc ys a x)

-- No text stands twice in the list.
abbrev pub Unrepeated : List String → Type 0
Unrepeated [] = Unit
Unrepeated (x ∷ xs) = (includes xs x ≡ false) × Unrepeated xs

without_gone : (a : String) (xs : List String) → includes (without a xs) a ≡ false
without_gone a [] = refl
without_gone a (x ∷ xs) = ground (arith, without_gone a xs)

without_absent :
    (a x : String) (xs : List String) → includes xs x ≡ false → includes (without a xs) x ≡ false
without_absent a x [] h = refl
without_absent a x (y ∷ ys) h = ground (arith, without_absent a x ys)

without-Unrepeated : (a : String) (xs : List String) → Unrepeated xs → Unrepeated (without a xs)
without-Unrepeated a [] h = tt
without-Unrepeated a (x ∷ xs) (fresh, rest) =
    ground (arith, without-Unrepeated a xs rest, without_absent a x xs fresh)

dedup-Unrepeated : (xs : List String) → Unrepeated (dedup xs)
dedup-Unrepeated [] = tt
dedup-Unrepeated (x ∷ xs) =
    (without_gone x (dedup xs), without-Unrepeated x (dedup xs) (dedup-Unrepeated xs))

-- Advancing a checkpoint adds the event to the processed ones and forgets none, lists no event twice,
-- and never lowers the last processed number.
advance_event_checkpoint-includes :
    (c : EventProcessingCheckpoint) (event_id : String) (seq : ℕ) (now : Stamp)
    → ((x : String)
        → includes (advance_event_checkpoint c event_id seq now).processed_event_ids x
          ≡ (includes c.processed_event_ids x || (event_id == x)))
      × Unrepeated (advance_event_checkpoint c event_id seq now).processed_event_ids
      × (c.last_processed_seq ≤ (advance_event_checkpoint c event_id seq now).last_processed_seq)
      × (seq ≤ (advance_event_checkpoint c event_id seq now).last_processed_seq)
unfolding advance_event_checkpoint
advance_event_checkpoint-includes c event_id seq now = (
  (λ x. ground (
    arith,
    includes-dedup (c.processed_event_ids ++ event_id ∷ []) x,
    includes-snoc c.processed_event_ids event_id x,
  )),
  dedup-Unrepeated (c.processed_event_ids ++ event_id ∷ []),
  omega arith,
  omega arith,
)
