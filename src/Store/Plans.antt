-- ===== src/Store/Plans.antt =====
-- lib/projectTaskStore.ts: the table of plan documents, savePlan, getPlan and listPlans. The metadata
-- is the text that JSON.stringify gives; `content_hash` stands for the SHA-256 of a text.
pub mod Saving
use orc_state.Base.{
  Bool, true, false, not, ◌&&◌, Option, none, some, String, List, [], ◌∷◌, ℕ, ◌==◌, nat_eq, leb,
  find, map, if◌then◌else◌, Result, ok, err, ◌>>=◌, ◌>>◌, throw_if,
}
use orc_state.Base.Time.{Stamp}
use orc_state.Store.Transition.{all_spaces}

pub record PlanInput : Type 0 where
  pub plan_id : ℕ
  pub name : String
  pub title : String
  pub body_markdown : String
  pub metadata_json : String
  pub source_path : Option String

pub record PlanRow : Type 0 where
  pub plan : PlanInput
  pub content_hash : String
  pub created_at : Stamp
  pub updated_at : Stamp

-- The CHECK on the name.
pub data PlanFault : Type 0 where
  blank_name : PlanFault

abbrev pub with_plan_id : ℕ → PlanRow → Bool
with_plan_id id row = nat_eq row.plan.plan_id id

unfoldable pub get_plan : List PlanRow → ℕ → Option PlanRow
get_plan rows id = find (with_plan_id id) rows

-- `INSERT … ON CONFLICT(plan_id) DO UPDATE`, which keeps `created_at`.
abbrev pub upsert_plan : PlanRow → List PlanRow → List PlanRow
upsert_plan new [] = new ∷ []
upsert_plan new (row ∷ rows) =
    let rest = upsert_plan new rows in
    if nat_eq row.plan.plan_id new.plan.plan_id
    then record new { created_at = row.created_at } ∷ rows
    else row ∷ rest

module _ (content_hash : String → String) where
  -- The stored plan has the hash and the metadata of the given one.
  abbrev pub is_unchanged : PlanInput → Option PlanRow → Bool
  is_unchanged plan none = false
  is_unchanged plan (some row) =
      (row.content_hash == content_hash plan.body_markdown)
      && (row.plan.metadata_json == plan.metadata_json)

  abbrev pub row_of : Stamp → PlanInput → PlanRow
  row_of now plan = record {
    plan = plan;
    content_hash = content_hash plan.body_markdown;
    created_at = now;
    updated_at = now;
  }

  unfoldable pub save_plan :
      Stamp → PlanInput → List PlanRow → Result PlanFault (Bool × List PlanRow)
  unfolding get_plan
  save_plan now plan rows =
      if is_unchanged plan (get_plan rows plan.plan_id) then ok (false, rows) else do
        throw_if (all_spaces plan.name) blank_name
        ok (true, upsert_plan (row_of now plan) rows)

-- `ORDER BY plan_id`.
abbrev insert_plan : PlanRow → List PlanRow → List PlanRow
insert_plan p [] = p ∷ []
insert_plan p (q ∷ qs) =
    let rest = insert_plan p qs in
    if leb p.plan.plan_id q.plan.plan_id then p ∷ q ∷ qs else q ∷ rest

unfoldable pub list_plans : List PlanRow → List PlanRow
list_plans [] = []
list_plans (p ∷ ps) = insert_plan p (list_plans ps)
