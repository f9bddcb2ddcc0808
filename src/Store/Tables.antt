-- ===== src/Store/Tables.antt =====
-- Laws of the tables: what an UPDATE leaves to find.
use mathlib.Core.Option
use orc_state.Base.{List, [], ◌∷◌, String, ◌≡◌, ◌≢◌, refl, arith, ◌==◌, eq_iff}
use orc_state.Store.Schema.{TaskRow, update_where, task_by_ref}

module _ (ref : String) (f : TaskRow → TaskRow) (keeps : (t : TaskRow) → (f t).ref ≡ t.ref) where
  pub task_by_ref-update_self :
      (tasks : List TaskRow)
      → task_by_ref (update_where (λ t. t.ref == ref) f tasks) ref
        ≡ Option.map f (task_by_ref tasks ref)
  task_by_ref-update_self [] = refl
  task_by_ref-update_self (t ∷ ts) = ground (arith, keeps t, task_by_ref-update_self ts)

  pub task_by_ref-update_ne :
      (tasks : List TaskRow) (other : String)
      → other ≢ ref
      → task_by_ref (update_where (λ t. t.ref == ref) f tasks) other ≡ task_by_ref tasks other
  task_by_ref-update_ne [] other h = refl
  task_by_ref-update_ne (t ∷ ts) other h =
      ground
        (arith, keeps t, eq_iff t.ref ref, eq_iff t.ref other, task_by_ref-update_ne ts other h)
