-- ===== src/Store/Plans/Saving.antt =====
-- What saving a plan leaves to read.
use orc_state.Base.{
  Bool, true, false, Option, none, some, String, List, [], ◌∷◌, ℕ, ◌≡◌, refl, arith, nat_eq, find,
  ok, eq_refl,
}
use mathlib.Core.Option
use orc_state.Base.Time.{Stamp}
use orc_state.Store.Plans.{
  PlanInput, PlanRow, get_plan, upsert_plan, save_plan, row_of, with_plan_id, is_unchanged,
}

-- What a reader sees of a stored plan.
abbrev pub content : PlanRow → PlanInput × String
content row = (row.plan, row.content_hash)

get_plan-upsert :
    (new : PlanRow) (rows : List PlanRow)
    → Option.map content (find (with_plan_id new.plan.plan_id) (upsert_plan new rows))
      ≡ some (content new)
get_plan-upsert new [] = ground arith
get_plan-upsert new (r ∷ rs) = ground (arith, get_plan-upsert new rs)

get_plan-upsert_ne :
    (new : PlanRow) (other : ℕ) (rows : List PlanRow)
    → nat_eq new.plan.plan_id other ≡ false
    → find (with_plan_id other) (upsert_plan new rows) ≡ find (with_plan_id other) rows
get_plan-upsert_ne new other [] ne = ground arith
get_plan-upsert_ne new other (r ∷ rs) ne = ground (arith, get_plan-upsert_ne new other rs ne)

-- A save that reports a change makes the given plan the stored one, with the hash of its body, and
-- leaves every other plan; one that reports none leaves the table.
pub save_plan-get_plan :
    (content_hash : String → String) (now : Stamp) (plan : PlanInput) (rows saved : List PlanRow)
    (changed : Bool)
    → save_plan content_hash now plan rows ≡ ok (changed, saved)
    → (changed ≡ true
        → (Option.map content (get_plan saved plan.plan_id)
            ≡ some (plan, content_hash plan.body_markdown))
          × ((other : ℕ)
              → nat_eq plan.plan_id other ≡ false
              → get_plan saved other ≡ get_plan rows other))
      × (changed ≡ false → saved ≡ rows)
unfolding save_plan
save_plan-get_plan content_hash now plan rows saved changed h = (
  (λ c. (
    ground (arith, get_plan-upsert (row_of content_hash now plan) rows),
    λ other ne. ground (arith, get_plan-upsert_ne (row_of content_hash now plan) other rows ne),
  )),
  (λ c. ground arith),
)

stored_unchanged :
    (content_hash : String → String) (plan : PlanInput) (found : Option PlanRow)
    → Option.map content found ≡ some (plan, content_hash plan.body_markdown)
    → is_unchanged content_hash plan found ≡ true
stored_unchanged content_hash plan none h = cc
stored_unchanged content_hash plan (some row) h =
    ground (arith, eq_refl (content_hash plan.body_markdown), eq_refl plan.metadata_json)

-- A plan that was saved with a change is unchanged when it is saved again.
save_plan_again :
    (content_hash : String → String) (now later : Stamp) (plan : PlanInput)
    (rows saved : List PlanRow)
    → save_plan content_hash now plan rows ≡ ok (true, saved)
    → save_plan content_hash later plan saved ≡ ok (false, saved)
unfolding save_plan
save_plan_again content_hash now later plan rows saved h =
    let (stored, others) = (save_plan-get_plan content_hash now plan rows saved true h).0 refl in
    ground (arith, stored_unchanged content_hash plan (get_plan saved plan.plan_id) stored)
