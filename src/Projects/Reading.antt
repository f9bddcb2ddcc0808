-- ===== src/Projects/Reading.antt =====
-- lib/projectTasks.ts, readProjectBacklog, with listTasks of lib/projectTaskStore.ts: the backlog that is
-- derived from the store. The times of creation are the clock's.
use Prim.Native.Char.{code}
use Prim.Native.String.{compare}
use text.Mathlib.Text.{is_le}
use orc_state.Base.{
  Bool, false, ◌&&◌, ◌||◌, List, [], ◌∷◌, ◌++◌, none, some, String, ◌==◌, any_of, modify_first,
  if◌then◌else◌, or_default, ltb, nat_eq,
}
use orc_state.Base.Time.{Stamp, iso}
use orc_state.Model.Task.{Task, Feature, Backlog}
use orc_state.Store.Schema.{TaskRow, Db}
use orc_state.Store.Transition.{ProjectTask, latest_revision, join_task}
use orc_state.Projects.{Metadata, project_task_to_backlog_task}

abbrev earlier : Stamp → Stamp → Bool
earlier (iso a) (iso b) = ltb a b
earlier _ _ = false

abbrev same_time : Stamp → Stamp → Bool
same_time (iso a) (iso b) = nat_eq a b
same_time _ _ = false

-- ORDER BY created_at, ref.
abbrev pub row_first : TaskRow → TaskRow → Bool
row_first a b =
    earlier a.created_at b.created_at
    || (same_time a.created_at b.created_at && is_le (compare a.ref b.ref))

abbrev pub insert_row : TaskRow → List TaskRow → List TaskRow
insert_row a [] = a ∷ []
insert_row a (b ∷ bs) = let rest = insert_row a bs in if row_first a b then a ∷ b ∷ bs else b ∷ rest

abbrev pub sort_rows : List TaskRow → List TaskRow
sort_rows [] = []
sort_rows (a ∷ rows) = insert_row a (sort_rows rows)

-- The join leaves out a task without a revision.
abbrev pub joined_rows : Db → List TaskRow → List ProjectTask
joined_rows db [] = []
joined_rows db (row ∷ rows) =
    let rest = joined_rows db rows in
    elim (join_task db row.ref (some row) (latest_revision db.revisions row.ref)) [
      | none ↦ rest
      | some task ↦ task ∷ rest
    ]

unfoldable pub list_tasks : Db → List ProjectTask
list_tasks db = joined_rows db (sort_rows db.tasks)

-- `ref.split('/')[0]`.
abbrev pub first_segment : String → String
first_segment String.[] = ""
first_segment (String.◌∷◌ c s) =
    let rest = first_segment s in if nat_eq (code c) 47 then "" else String.◌∷◌ c rest

unfoldable pub feature_ref_of : Metadata → String → String
feature_ref_of metadata ref = or_default metadata.feature (first_segment ref)

abbrev pub add_to_feature : String → Task → List Feature → List Feature
add_to_feature ref task features =
    if any_of (λ (f : Feature). f.ref == ref) features
    then modify_first (λ (f : Feature). f.ref == ref)
        (λ f. record f { tasks = f.tasks ++ task ∷ [] }) features
    else features ++ record { ref = ref; title = ref; tasks = task ∷ [] } ∷ []

module _ (parse : String → Metadata) where
  abbrev pub add_tasks : List ProjectTask → List Feature → List Feature
  add_tasks [] features = features
  add_tasks (task ∷ tasks) features =
      let metadata = parse task.revision.metadata_json in
      add_tasks tasks (
        add_to_feature (feature_ref_of metadata task.row.ref)
          (project_task_to_backlog_task metadata task) features)

  unfoldable pub read_project_backlog : Db → Backlog
  unfolding list_tasks feature_ref_of project_task_to_backlog_task
  read_project_backlog db = record { features = add_tasks (list_tasks db) [] }
