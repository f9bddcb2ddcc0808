-- ===== src/Contract/Ready.antt =====
-- What the readiness of a task says of its dependencies.
use orc_state.Base.{
  Bool, true, false, not, ◌&&◌, List, [], ◌∷◌, Option, none, some, String, ◌≡◌, refl, arith,
  filter_by, dedup, without, every, eq_iff,
}
use orc_state.Model.Task.{TaskStatus}
use orc_state.Contract.{ReadinessKind, ready, derive_dependency_readiness, is_waiting, of_waiting}

abbrev pub is_ready : ReadinessKind → Bool
is_ready ready = true
is_ready _ = false

abbrev is_empty_list : List String → Bool
is_empty_list [] = true
is_empty_list (x ∷ xs) = false

is_ready-of_waiting : (refs : List String) → is_ready (of_waiting refs).kind ≡ is_empty_list refs
is_ready-of_waiting [] = refl
is_ready-of_waiting (ref ∷ refs) = refl

is_empty_list-filter_by :
    (p : String → Bool) (xs : List String)
    → is_empty_list (filter_by p xs) ≡ every (λ x. not (p x)) xs
is_empty_list-filter_by p [] = refl
is_empty_list-filter_by p (x ∷ xs) = ground (arith, is_empty_list-filter_by p xs)

every-without :
    (p : String → Bool) (a : String) (xs : List String)
    → (p a && every p (without a xs)) ≡ (p a && every p xs)
every-without p a [] = refl
every-without p a (x ∷ xs) = ground (arith, every-without p a xs, eq_iff x a)

every-dedup : (p : String → Bool) (xs : List String) → every p (dedup xs) ≡ every p xs
every-dedup p [] = refl
every-dedup p (x ∷ xs) = ground (arith, every-without p x (dedup xs), every-dedup p xs)

every-cong :
    (p q : String → Bool) (xs : List String) → ((x : String) → p x ≡ q x) → every p xs ≡ every q xs
every-cong p q [] same = refl
every-cong p q (x ∷ xs) same = ground (arith, same x, every-cong p q xs same)

-- The status of a task whose work is merged; an unknown task has none.
abbrev pub merged : Option TaskStatus → Bool
merged (some TaskStatus.done) = true
merged (some TaskStatus.released) = true
merged _ = false

abbrev waits_to_start : TaskStatus → Bool
waits_to_start TaskStatus.todo = true
waits_to_start _ = false

not_waiting : (status : Option TaskStatus) → not (is_waiting status) ≡ merged status
not_waiting none = refl
not_waiting (some s) = ground arith

-- A task is ready exactly if it is `todo` and every dependency, with repetitions or not, is known and
-- has the status `done` or `released`.
pub derive_dependency_readiness-is_ready :
    (status : TaskStatus) (depends_on : List String) (status_by_ref : String → Option TaskStatus)
    → is_ready (derive_dependency_readiness status depends_on status_by_ref).kind
      ≡ (waits_to_start status && every (λ ref. merged (status_by_ref ref)) depends_on)
unfolding derive_dependency_readiness
derive_dependency_readiness-is_ready status depends_on status_by_ref =
    let met : String → Bool = λ ref. not (is_waiting (status_by_ref ref)) in
    ground (
      arith,
      is_ready-of_waiting (filter_by (λ ref. is_waiting (status_by_ref ref)) (dedup depends_on)),
      is_empty_list-filter_by (λ ref. is_waiting (status_by_ref ref)) (dedup depends_on),
      every-dedup met depends_on,
      every-cong met (λ ref. merged (status_by_ref ref)) depends_on
          (λ ref. not_waiting (status_by_ref ref)),
    )
