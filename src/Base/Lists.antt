-- ===== src/Base/Lists.antt =====
-- Array methods of the source over lists: `includes`, `every`, `some`, `filter`, `find`, and the
-- mutation of the first element that `find` returns.
use Prim.Native.Nat.{ℕ, suc}
use Prim.Native.String.{String}
use mathlib.Core.Bool.{Bool, true, false, not, ◌&&◌, ◌||◌}
use mathlib.Core.Option.{Option, none, some}
use mathlib.Core.List.{List, [], ◌∷◌}
use text.Mathlib.Text.{◌==◌}

module _ {ℓ} {A : Type ℓ} where
  abbrev pub length : List A → ℕ
  length [] = 0
  length (x ∷ xs) = suc (length xs)

  abbrev pub filter_by : (A → Bool) → List A → List A
  filter_by p [] = []
  filter_by p (x ∷ xs) = let rest = filter_by p xs in elim (p x) [ true ↦ x ∷ rest | false ↦ rest ]

  abbrev pub every : (A → Bool) → List A → Bool
  every p [] = true
  every p (x ∷ xs) = p x && every p xs

  abbrev pub any_of : (A → Bool) → List A → Bool
  any_of p [] = false
  any_of p (x ∷ xs) = p x || any_of p xs

  abbrev pub find : (A → Bool) → List A → Option A
  find p [] = none
  find p (x ∷ xs) = let rest = find p xs in elim (p x) [ true ↦ some x | false ↦ rest ]

  -- `find` returns a reference, and the caller writes to that element.
  abbrev pub modify_first : (A → Bool) → (A → A) → List A → List A
  modify_first p f [] = []
  modify_first p f (x ∷ xs) =
      let rest = modify_first p f xs in elim (p x) [ true ↦ f x ∷ xs | false ↦ x ∷ rest ]

  -- What holds of every element, by recursion so that the tactics read it.
  abbrev pub All {κ} : (A → Type κ) → List A → Type κ
  All P [] = Unit
  All P (x ∷ xs) = P x × All P xs

abbrev pub includes : List String → String → Bool
includes xs a = any_of (λ x. x == a) xs

-- `[...new Set(xs)]`: the first occurrence of each text stays.
abbrev pub without : String → List String → List String
without a xs = filter_by (λ x. not (x == a)) xs

abbrev pub dedup : List String → List String
dedup [] = []
dedup (x ∷ xs) = x ∷ without x (dedup xs)
