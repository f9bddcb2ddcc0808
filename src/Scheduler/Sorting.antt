-- ===== src/Scheduler/Sorting.antt =====
-- The head of the sorted candidates is the first one of the highest rank.
use mathlib.Core.Option
use orc_state.Base.{
  Bool, List, [], ◌∷◌, Option, none, some, ℕ, ◌+◌, ◌≤◌, ◌≡◌, refl, arith, ltb, if◌then◌else◌,
  Bool-cases, Option-cases, inl, inr,
}
use orc_state.Model.Task.{Task}
use orc_state.Scheduler.{Candidate, collect, precedes, insert_candidate, sort, first_ref}

abbrev head_of : List Candidate → Option Candidate
head_of [] = none
head_of (c ∷ cs) = some c

-- The first candidate of the highest rank.
abbrev pub top : List Candidate → Option Candidate
top [] = none
top (c ∷ cs) =
    let rest = top cs in
    elim rest [ none ↦ some c | some d ↦ if ltb c.rank d.rank then some d else some c ]

abbrev AllFrom : ℕ → List Candidate → Type 0
AllFrom n [] = Unit
AllFrom n (c ∷ cs) = (n ≤ c.index) × AllFrom (c.index + 1) cs

top-from :
    (n : ℕ) (cs : List Candidate) {d : Candidate} → AllFrom n cs → top cs ≡ some d → n ≤ d.index
top-from n [] h e = ground arith
top-from n (c ∷ cs) {d} h e = ground (arith, top-from (c.index + 1) cs {d = d} h.1)

head_of-insert :
    (c : Candidate) (cs : List Candidate)
    → head_of (insert_candidate c cs)
      ≡ (elim (head_of cs) [ none ↦ some c | some d ↦ if precedes c d then some c else some d ])
head_of-insert c [] = refl
head_of-insert c (d ∷ ds) = ground arith

head_of-sort : (n : ℕ) (cs : List Candidate) → AllFrom n cs → head_of (sort cs) ≡ top cs
head_of-sort n [] h = refl
head_of-sort n (c ∷ cs) h = elim (Option-cases (top cs)) [
  | inl e ↦ ground (arith, head_of-insert c (sort cs), head_of-sort (c.index + 1) cs h.1)
  | inr (d, e) ↦ ground (
    arith,
    head_of-insert c (sort cs),
    head_of-sort (c.index + 1) cs h.1,
    top-from (c.index + 1) cs h.1 e,
  )
]

collect-AllFrom : (p : Task → Bool) (n : ℕ) (ts : List Task) → AllFrom n (collect p n ts)
collect-AllFrom p n [] = tt
collect-AllFrom p n (t ∷ ts) = elim (Bool-cases (p t)) [
  | inl e ↦ rw e (omega arith, collect-AllFrom p (n + 1) ts)
  | inr e ↦ rw e (collect-AllFrom p n ts)
]

first_ref-head :
    (cs : List Candidate) → first_ref cs ≡ Option.map (λ (c : Candidate). c.ref) (head_of cs)
first_ref-head [] = refl
first_ref-head (c ∷ cs) = refl

-- The scheduler's answer is the reference of the first candidate of the highest rank.
pub first_ref-sort :
    (p : Task → Bool) (ts : List Task)
    → first_ref (sort (collect p 0 ts))
      ≡ Option.map (λ (c : Candidate). c.ref) (top (collect p 0 ts))
first_ref-sort p ts = ground (
  arith,
  first_ref-head (sort (collect p 0 ts)),
  head_of-sort 0 (collect p 0 ts) (collect-AllFrom p 0 ts),
)
