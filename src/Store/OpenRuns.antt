-- ===== src/Store/OpenRuns.antt =====
-- How many open runs a task has, and what each UPDATE and INSERT of task_runs does to that number.
use orc_state.Base.{
  Bool, false, ◌&&◌, List, [], ◌∷◌, ◌++◌, String, ℕ, ◌+◌, ◌≤◌, ◌≡◌, ◌≢◌, refl, arith, ◌==◌, eq_iff,
  any_of, filter_by, length, if◌then◌else◌,
}
use orc_state.Base.Time.{Stamp}
use orc_state.Store.Schema.{RunRow, RunState, update_where, is_open}
use orc_state.Store.Transition.{set_runs, is_claimed_run}
use orc_state.Store.Binding.{open_run_of}

abbrev pub open_count : String → List RunRow → ℕ
open_count ref runs = length (filter_by (open_run_of ref) runs)

module _ (now : Stamp) (ref : String) where
  -- Closing the open runs of a task leaves it none.
  pub open_count-close :
      (state : RunState) (runs : List RunRow)
      → is_open state ≡ false
      → open_count ref (set_runs now ref is_open state runs) ≡ 0
  open_count-close state [] h = refl
  open_count-close state (r ∷ rs) h = ground (arith, open_count-close state rs h)

  -- An UPDATE of the runs of one task changes nothing for another.
  pub open_count-set_runs_ne :
      (test : RunState → Bool) (state : RunState) (runs : List RunRow) (other : String)
      → other ≢ ref
      → open_count other (set_runs now ref test state runs) ≡ open_count other runs
  open_count-set_runs_ne test state [] other h = refl
  open_count-set_runs_ne test state (r ∷ rs) other h = ground (
    arith,
    eq_iff r.task_ref ref,
    eq_iff r.task_ref other,
    open_count-set_runs_ne test state rs other h,
  )

  pub open_count-close_le :
      (state : RunState) (runs : List RunRow) (other : String)
      → is_open state ≡ false
      → open_count other (set_runs now ref is_open state runs) ≤ open_count other runs
  open_count-close_le state [] other h = omega arith
  open_count-close_le state (r ∷ rs) other h = ground (arith, open_count-close_le state rs other h)

  -- Starting a claimed run keeps it open.
  pub open_count-start :
      (runs : List RunRow) (other : String)
      → open_count other (set_runs now ref is_claimed_run RunState.in_progress runs)
        ≡ open_count other runs
  open_count-start [] other = refl
  open_count-start (r ∷ rs) other = ground (arith, open_count-start rs other)

pub open_count-snoc :
    (ref : String) (runs : List RunRow) (r : RunRow)
    → open_count ref (runs ++ r ∷ []) ≡ open_count ref runs + (if open_run_of ref r then 1 else 0)
open_count-snoc ref [] r = ground arith
open_count-snoc ref (s ∷ ss) r = ground (arith, open_count-snoc ref ss r)

pub open_count-none :
    (ref : String) (runs : List RunRow)
    → open_count ref runs ≡ 0
    → any_of (open_run_of ref) runs ≡ false
open_count-none ref [] h = refl
open_count-none ref (r ∷ rs) h = ground (arith, open_count-none ref rs)

pub open_count_abandon_le :
    (now : Stamp) (run_id other : String) (runs : List RunRow)
    → open_count other (
        update_where
          (λ r. r.run_id == run_id && is_open r.state)
          (λ r. record r { state = RunState.failed; updated_at = now })
          runs)
      ≤ open_count other runs
open_count_abandon_le now run_id other [] = omega arith
open_count_abandon_le now run_id other (r ∷ rs) =
    ground (arith, open_count_abandon_le now run_id other rs)
