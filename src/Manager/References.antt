-- ===== src/Manager/References.antt =====
-- Laws of `findTask` and of the change of a task through the reference that it returns.
use mathlib.Core.Path.{subst}
use orc_state.Base.{
  Bool, true, false, List, [], ◌∷◌, ◌++◌, map, none, some, String, ◌==◌, ◌≡◌, ◌≢◌, refl, ap, arith,
  eq_iff, eq_refl, find, any_of, modify_first, All, Bool-cases, Option-cases, inl, inr,
}
use orc_state.Base.Find.{find_sound}
use orc_state.Model.Task.{Task, Feature}
use orc_state.Projects.{tasks_of}
use orc_state.Manager.{find_in, put_in}

abbrev pub refs_of : List Task → List String
refs_of tasks = map (λ (t : Task). t.ref) tasks

abbrev has_ref : String → Task → Bool
has_ref ref t = t.ref == ref

All-prefix {ℓ κ} : {A : Type ℓ} (P : A → Type κ) (xs ys : List A) → All P (xs ++ ys) → All P xs
All-prefix P [] ys h = tt
All-prefix P (x ∷ xs) ys h = (h.0, All-prefix P xs ys h.1)

All-suffix {ℓ κ} : {A : Type ℓ} (P : A → Type κ) (xs ys : List A) → All P (xs ++ ys) → All P ys
All-suffix P [] ys h = h
All-suffix P (x ∷ xs) ys h = All-suffix P xs ys h.1

pub find_in_ref :
    (features : List Feature) (ref : String) {t : Task}
    → find_in features ref ≡ some t
    → t.ref ≡ ref
find_in_ref [] ref h = absurd (ground arith)
find_in_ref (f ∷ fs) ref {t} h = elim (Option-cases (find (has_ref ref) f.tasks)) [
  | inl e ↦ find_in_ref fs ref {t = t} (ground arith)
  | inr (u, e) ↦
      let named = find_sound (has_ref ref) f.tasks {a = u} e in ground (arith, eq_iff u.ref ref)
]

find_absent :
    (ref : String) (tasks : List Task)
    → any_of (has_ref ref) tasks ≡ false
    → find (has_ref ref) tasks ≡ none
find_absent ref [] h = refl
find_absent ref (t ∷ ts) h = ground (arith, find_absent ref ts)

refs-modify :
    (new : Task) (tasks : List Task)
    → refs_of (modify_first (has_ref new.ref) (λ _. new) tasks) ≡ refs_of tasks
refs-modify new [] = refl
refs-modify new (t ∷ ts) = ground (arith, eq_iff t.ref new.ref, refs-modify new ts)

refs-append : (xs ys : List Task) → refs_of (xs ++ ys) ≡ refs_of xs ++ refs_of ys
refs-append [] ys = refl
refs-append (x ∷ xs) ys = ap (λ l. x.ref ∷ l) (refs-append xs ys)

-- The references of a backlog do not change when one of its tasks does.
pub refs-put_in :
    (new : Task) (features : List Feature)
    → refs_of (tasks_of (put_in new features)) ≡ refs_of (tasks_of features)
refs-put_in new [] = refl
refs-put_in new (f ∷ fs) = elim (Bool-cases (any_of (has_ref new.ref) f.tasks)) [
  | inl here ↦ ground (
    arith,
    refs-append (modify_first (has_ref new.ref) (λ _. new) f.tasks) (tasks_of fs),
    refs-append f.tasks (tasks_of fs),
    refs-modify new f.tasks,
  )
  | inr past ↦ ground (
    arith,
    refs-append f.tasks (tasks_of (put_in new fs)),
    refs-append f.tasks (tasks_of fs),
    refs-put_in new fs,
  )
]

All-modify {κ} :
    (P : Task → Type κ) (new : Task) (tasks : List Task)
    → any_of (has_ref new.ref) tasks ≡ true
    → All P (modify_first (has_ref new.ref) (λ _. new) tasks)
    → P new
All-modify P new [] h a = absurd (ground arith)
All-modify P new (t ∷ ts) h a = elim (Bool-cases (has_ref new.ref t)) [
  | inl e ↦
      (subst (All P) {x = modify_first (has_ref new.ref) (λ _. new) (t ∷ ts)} {y = new ∷ ts}
        (ground arith) a).0
  | inr e ↦
      All-modify P new ts (ground arith)
        (subst (All P) {x = modify_first (has_ref new.ref) (λ _. new) (t ∷ ts)}
          {y = t ∷ modify_first (has_ref new.ref) (λ _. new) ts} (ground arith) a).1
]

-- What holds of every task of a backlog holds of the task that was put into it.
pub All-put_in {κ} :
    (P : Task → Type κ) (new : Task) (features : List Feature) {old : Task}
    → find_in features new.ref ≡ some old
    → All P (tasks_of (put_in new features))
    → P new
All-put_in P new [] h a = absurd (ground arith)
All-put_in P new (f ∷ fs) {old} h a = elim (Bool-cases (any_of (has_ref new.ref) f.tasks)) [
  | inl here ↦ All-modify P new f.tasks here (
      All-prefix P (modify_first (has_ref new.ref) (λ _. new) f.tasks) (tasks_of fs) (
        subst (All P) {x = tasks_of (put_in new (f ∷ fs))}
          {y = modify_first (has_ref new.ref) (λ _. new) f.tasks ++ tasks_of fs} (ground arith) a))
  | inr past ↦ All-put_in P new fs {old = old} (ground (arith, find_absent new.ref f.tasks past)) (
      All-suffix P f.tasks (tasks_of (put_in new fs)) (
        subst (All P) {x = tasks_of (put_in new (f ∷ fs))} {y = f.tasks ++ tasks_of (put_in new fs)}
          (ground arith) a))
]

find-modify_self :
    (new : Task) (tasks : List Task)
    → any_of (has_ref new.ref) tasks ≡ true
    → find (has_ref new.ref) (modify_first (has_ref new.ref) (λ _. new) tasks) ≡ some new
find-modify_self new [] h = absurd (ground arith)
find-modify_self new (t ∷ ts) h = ground (arith, eq_refl new.ref, find-modify_self new ts)

find-modify_ne :
    (new : Task) (ref : String) (tasks : List Task)
    → ref ≢ new.ref
    → find (has_ref ref) (modify_first (has_ref new.ref) (λ _. new) tasks)
      ≡ find (has_ref ref) tasks
find-modify_ne new ref [] h = refl
find-modify_ne new ref (t ∷ ts) h =
    ground
      (arith, eq_iff t.ref new.ref, eq_iff t.ref ref, eq_iff new.ref ref, find-modify_ne new ref ts)

-- The task that was put is the one found.
pub find_in-put_self :
    (new : Task) (features : List Feature) {old : Task}
    → find_in features new.ref ≡ some old
    → find_in (put_in new features) new.ref ≡ some new
find_in-put_self new [] h = absurd (ground arith)
find_in-put_self new (f ∷ fs) {old} h = elim (Bool-cases (any_of (has_ref new.ref) f.tasks)) [
  | inl here ↦ ground (arith, find-modify_self new f.tasks)
  | inr past ↦
      let absent = find_absent new.ref f.tasks past in
      ground (arith, absent, find_in-put_self new fs {old = old} (ground (arith, absent)))
]

pub find_in-put_ne :
    (new : Task) (ref : String) (features : List Feature)
    → ref ≢ new.ref
    → find_in (put_in new features) ref ≡ find_in features ref
find_in-put_ne new ref [] h = refl
find_in-put_ne new ref (f ∷ fs) h = elim (Bool-cases (any_of (has_ref new.ref) f.tasks)) [
  | inl here ↦ ground (arith, find-modify_ne new ref f.tasks h)
  | inr past ↦ ground (arith, find_in-put_ne new ref fs h)
]
