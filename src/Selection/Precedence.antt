-- ===== src/Selection/Precedence.antt =====
-- What a selection that succeeds guarantees.
use orc_state.Base.{
  Bool, true, false, none, some, String, List, [], ◌∷◌, ◌≡◌, refl, arith, ◌==◌, eq_refl, any_of,
  filter_by, ok, Option-cases, inl, inr,
}
use orc_state.Selection.{
  Choices, Selected, RegisteredProjectIdentity, ProjectSelectionSource, explicit, environment, cwd,
  selected, select_project, find_by_id, with_id, with_root, of_root,
}

-- The sources in the order in which they count.
abbrev first_source : Choices → ProjectSelectionSource
first_source c = elim c.explicit_project_id [
  | some id ↦ explicit
  | none ↦ elim c.environment_project_id [
    | some id ↦ environment
    | none ↦ elim c.cwd_git_root [ some root ↦ cwd | none ↦ selected ]
  ]
]

-- A project of that id is registered.
abbrev is_registered : List RegisteredProjectIdentity → String → Bool
is_registered projects id = any_of (λ p. p.id == id) projects

-- What is wanted of a selection.
abbrev pub Chosen : Choices → Selected → ProjectSelectionSource → Type 0
Chosen c s source = (s.source ≡ source) × (is_registered c.projects s.project_id ≡ true)

registered_none :
    (projects : List RegisteredProjectIdentity) (id : String)
    → is_registered projects id ≡ false
    → filter_by (with_id id) projects ≡ []
registered_none [] id h = refl
registered_none (p ∷ ps) id h = ground (arith, registered_none ps id)

find_by_id-Chosen :
    (c : Choices) (s : Selected) (id : String) (source : ProjectSelectionSource)
    → find_by_id c.projects id source ≡ ok s
    → Chosen c s source
unfolding find_by_id
find_by_id-Chosen c s id source h = (ground arith, ground (arith, registered_none c.projects id))

root_registered :
    (root : String) (projects : List RegisteredProjectIdentity) (p : RegisteredProjectIdentity)
    (more : List RegisteredProjectIdentity)
    → filter_by (with_root root) projects ≡ p ∷ more
    → is_registered projects p.id ≡ true
root_registered root [] p more h = absurd (ground arith)
root_registered root (q ∷ qs) p more h =
    ground (arith, eq_refl p.id, root_registered root qs p more)

of_root-Chosen :
    (c : Choices) (s : Selected) (root : String) (found : List RegisteredProjectIdentity)
    → filter_by (with_root root) c.projects ≡ found
    → of_root root found ≡ ok s
    → Chosen c s cwd
of_root-Chosen c s root [] e h = absurd (ground arith)
of_root-Chosen c s root (p ∷ []) e h =
    (ground arith, ground (arith, root_registered root c.projects p [] e))
of_root-Chosen c s root (p ∷ q ∷ more) e h = absurd (ground arith)

-- A selection that succeeds is of a registered project, and its source is the first of explicit id,
-- environment, working directory and stored selection that is given at all.
pub select_project-Chosen :
    (c : Choices) (s : Selected) → select_project c ≡ ok s → Chosen c s (first_source c)
unfolding select_project
select_project-Chosen c s h = elim (Option-cases c.explicit_project_id) [
  | inr (id, e) ↦
      let (source, known) = find_by_id-Chosen c s id explicit (ground arith) in
      (ground arith, known)
  | inl e ↦ elim (Option-cases c.environment_project_id) [
    | inr (id, f) ↦
        let (source, known) = find_by_id-Chosen c s id environment (ground arith) in
        (ground arith, known)
    | inl f ↦ elim (Option-cases c.cwd_git_root) [
      | inr (root, g) ↦
          let (source, known) =
            of_root-Chosen c s root (filter_by (with_root root) c.projects) refl (ground arith) in
          (ground arith, known)
      | inl g ↦ elim (Option-cases c.selected_project_id) [
        | inr (id, k) ↦
            let (source, known) = find_by_id-Chosen c s id selected (ground arith) in
            (ground arith, known)
        | inl k ↦ absurd (ground arith)
      ]
    ]
  ]
]
