-- ===== src/Base/Find.antt =====
-- Laws of `find` and `modify_first`.
use orc_state.Base.Tests.{Bool-cases}
use orc_state.Base.Lists.{any_of, find, modify_first}
use mathlib.Core.Path.{◌≡◌}
use mathlib.Core.Logic.{inl, inr}
use mathlib.Core.Bool.{Bool, true, false}
use mathlib.Core.Option.{some}
use mathlib.Core.List.{List, [], ◌∷◌, ◌++◌}
use native.Mathlib.Omega.{arith}

module _ {ℓ} {A : Type ℓ} where
  -- What `find` returns passes the test.
  pub find_sound : (p : A → Bool) (xs : List A) {a : A} → find p xs ≡ some a → p a ≡ true
  find_sound p [] h = ground arith
  find_sound p (x ∷ xs) {a} h = ground (arith, find_sound p xs {a = a})

  pub find-modify_first :
      (p : A → Bool) (f : A → A) (xs : List A) {a : A}
      → find p xs ≡ some a
      → p (f a) ≡ true
      → find p (modify_first p f xs) ≡ some (f a)
  find-modify_first p f [] h k = ground arith
  find-modify_first p f (x ∷ xs) {a} h k = elim (Bool-cases (p x)) [
    | inl e ↦ ground arith
    | inr e ↦ ground (arith, find-modify_first p f xs {a = a})
  ]

  pub find-snoc :
      (p : A → Bool) (xs : List A) (a : A)
      → any_of p xs ≡ false
      → p a ≡ true
      → find p (xs ++ a ∷ []) ≡ some a
  find-snoc p [] a none_yes h = ground arith
  find-snoc p (x ∷ xs) a none_yes h = ground (arith, find-snoc p xs a)

  pub find-snoc_ne :
      (p : A → Bool) (xs : List A) (a : A) → p a ≡ false → find p (xs ++ a ∷ []) ≡ find p xs
  find-snoc_ne p [] a e = ground arith
  find-snoc_ne p (x ∷ xs) a e = ground (arith, find-snoc_ne p xs a)
