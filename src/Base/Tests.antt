-- ===== src/Base/Tests.antt =====
-- Boolean tests, the conditional, optional values as the source tests them, and results.
use Prim.Native.Nat.{ℕ, compare, Ordering}
use Prim.Native.String.{String}
use mathlib.Core.Path.{◌≡◌, refl}
use mathlib.Core.Logic.{◌⊎◌, inl, inr}
use mathlib.Core.Bool.{Bool, true, false, not}
use mathlib.Core.Option.{Option, none, some}
use text.Mathlib.Text.{◌==◌}

abbrev pub ltb : ℕ → ℕ → Bool
ltb a b = elim (compare a b) [ Ordering.lt ↦ true | _ ↦ false ]

abbrev pub leb : ℕ → ℕ → Bool
leb a b = elim (compare a b) [ Ordering.gt ↦ false | _ ↦ true ]

-- Equality of numbers; `==` is equality of texts.
abbrev pub nat_eq : ℕ → ℕ → Bool
nat_eq a b = elim (compare a b) [ Ordering.eq ↦ true | _ ↦ false ]

infix 1 if◌then◌else◌
abbrev pub if◌then◌else◌ {ℓ} : {A : Type ℓ} → Bool → A → A → A
if true then x else y = x
if false then x else y = y

pub Bool-cases : (b : Bool) → (b ≡ true) ⊎ (b ≡ false)
Bool-cases true = inl refl
Bool-cases false = inr refl

pub Option-cases {ℓ} : {A : Type ℓ} (o : Option A) → (o ≡ none) ⊎ ((a : A) × (o ≡ some a))
Option-cases none = inl refl
Option-cases (some a) = inr (a, refl)

module _ {ℓ} {A : Type ℓ} where
  -- `x != null`.
  abbrev pub is_some : Option A → Bool
  is_some none = false
  is_some (some a) = true

  -- `x ?? d`.
  abbrev pub or_default : Option A → A → A
  or_default none d = d
  or_default (some a) d = a

  -- `x ?? y` where `y` may be null too.
  abbrev pub or_else : Option A → Option A → Option A
  or_else none y = y
  or_else (some a) y = some a

-- A text in a condition: the empty text is false, as null and undefined are.
abbrev pub truthy : Option String → Bool
truthy none = false
truthy (some s) = not (s == "")

-- `x === y` on texts that may be absent.
abbrev pub opt_eq : Option String → Option String → Bool
opt_eq none none = true
opt_eq (some a) (some b) = a == b
opt_eq _ _ = false

-- What was thrown, or a result. `throw_if test fault` is `if (test) throw fault`.
pub data Result {ℓ κ} (Thrown : Type ℓ) (Value : Type κ) : Type (ℓ ⊔ κ) where
  err : Thrown → Result Thrown Value
  ok : Value → Result Thrown Value

module _ {ℓ} {Thrown : Type ℓ} where
  abbrev pub throw_if : Bool → Thrown → Result Thrown (Unit {0})
  throw_if test fault = if test then err fault else ok tt

  infixl 5 ◌>>=◌ ◌>>◌
  abbrev pub ◌>>=◌ {κ μ} :
      {X : Type κ} {Y : Type μ} → Result Thrown X → (X → Result Thrown Y) → Result Thrown Y
  err fault >>= next = err fault
  ok x >>= next = next x

  abbrev pub ◌>>◌ {μ} : {Y : Type μ} → Result Thrown (Unit {0}) → Result Thrown Y → Result Thrown Y
  first >> second = first >>= λ done. second

  -- A chain that succeeds has a first step that does.
  pub >>=-eq-ok {κ μ} :
      {X : Type κ} {Y : Type μ} (first : Result Thrown X) (next : X → Result Thrown Y) {y : Y}
      → (first >>= next) ≡ ok y
      → (x : X) × (first ≡ ok x) × (next x ≡ ok y)
  >>=-eq-ok (err fault) next h = cc
  >>=-eq-ok (ok x) next h = (x, refl, h)

pub Result-cases {ℓ κ} :
    {E : Type ℓ} {X : Type κ} (r : Result E X) → ((e : E) × (r ≡ err e)) ⊎ ((x : X) × (r ≡ ok x))
Result-cases (err e) = inl (e, refl)
Result-cases (ok x) = inr (x, refl)
