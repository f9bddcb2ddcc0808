-- ===== src/Selection.antt =====
-- selectProject of lib/projectContract.ts: which registered project a command is about.
pub mod Precedence
use Prim.Native.Char.{code}
use orc_state.Base.{
  Bool, true, false, not, ◌&&◌, ◌||◌, Option, none, some, String, List, [], ◌∷◌, ℕ, ◌==◌, leb,
  nat_eq, filter_by, if◌then◌else◌, Result, ok, err, ◌>>=◌, ◌>>◌, throw_if,
}

pub record RegisteredProjectIdentity : Type 0 where
  pub id : String
  pub canonical_git_root : String

pub data ProjectSelectionSource : Type 0 where
  explicit environment cwd selected : ProjectSelectionSource

pub record Choices : Type 0 where
  pub projects : List RegisteredProjectIdentity
  pub explicit_project_id : Option String
  pub environment_project_id : Option String
  pub cwd_git_root : Option String
  pub selected_project_id : Option String

pub record Selected : Type 0 where
  pub project_id : String
  pub source : ProjectSelectionSource

pub data SelectionFault : Type 0 where
  empty_id : ProjectSelectionSource → SelectionFault
  not_unique : ProjectSelectionSource → String → SelectionFault
  not_registered ambiguous_root : String → SelectionFault
  nothing_selected : SelectionFault

-- The characters that `trim` removes.
abbrev is_space : ℕ → Bool
is_space c =
    leb 9 c && leb c 13
    || (nat_eq c 32
        || (nat_eq c 160
            || (nat_eq c 5760
                || (leb 8192 c && leb c 8202
                    || (nat_eq c 8232
                        || (nat_eq c 8233
                            || (nat_eq c 8239
                                || (nat_eq c 8287 || (nat_eq c 12288 || nat_eq c 65279)))))))))

-- `!id.trim()`.
abbrev is_blank : String → Bool
is_blank String.[] = true
is_blank (String.◌∷◌ c s) = is_space (code c) && is_blank s

abbrev is_single : List RegisteredProjectIdentity → Bool
is_single (p ∷ []) = true
is_single _ = false

abbrev pub with_id : String → RegisteredProjectIdentity → Bool
with_id id p = p.id == id

abbrev pub with_root : String → RegisteredProjectIdentity → Bool
with_root root p = p.canonical_git_root == root

unfoldable pub find_by_id :
    List RegisteredProjectIdentity
    → String
    → ProjectSelectionSource
    → Result SelectionFault Selected
find_by_id projects id source = do
  throw_if (is_blank id) (empty_id source)
  throw_if (not (is_single (filter_by (with_id id) projects))) (not_unique source id)
  ok (record { project_id = id; source = source })

abbrev pub of_root : String → List RegisteredProjectIdentity → Result SelectionFault Selected
of_root root [] = err (not_registered root)
of_root root (p ∷ []) = ok (record { project_id = p.id; source = cwd })
of_root root (p ∷ q ∷ more) = err (ambiguous_root root)

abbrev by_selection : Choices → Option String → Result SelectionFault Selected
by_selection c none = err nothing_selected
by_selection c (some id) = find_by_id c.projects id selected

abbrev by_cwd : Choices → Option String → Result SelectionFault Selected
by_cwd c none = by_selection c c.selected_project_id
by_cwd c (some root) = of_root root (filter_by (with_root root) c.projects)

abbrev by_environment : Choices → Option String → Result SelectionFault Selected
by_environment c none = by_cwd c c.cwd_git_root
by_environment c (some id) = find_by_id c.projects id environment

unfoldable pub select_project : Choices → Result SelectionFault Selected
unfolding find_by_id
select_project c = elim c.explicit_project_id [
  | none ↦ by_environment c c.environment_project_id
  | some id ↦ find_by_id c.projects id explicit
]
