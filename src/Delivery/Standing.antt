-- ===== src/Delivery/Standing.antt =====
-- The primary key of the table of commands: every row is the one that stands under its id.
use mathlib.Core.Path.{subst}
use orc_state.Base.{
  Bool, true, false, ◌≡◌, ◌≢◌, refl, arith, String, ℕ, List, [], ◌∷◌, map, some, eq_iff, eq_refl,
  find, filter_by, includes, All, Bool-cases, Option-cases, inl, inr, ltb,
}
use orc_state.Runs.Commit.{Distinct}
use orc_state.Store.Schema.{update_where}
use orc_state.Delivery.Schema.{DurableCommand, Db, has_command_id, command_of}
use orc_state.Delivery.Sending.{is_due, first_due}
use orc_state.Delivery.Moves.{Move, find-update_self, find-update_ne}

abbrev pub ids : List DurableCommand → List String
ids cs = map (λ c. c.command_id) cs

abbrev pub IsTable : Db → Type 0
IsTable db = Distinct (ids db.commands)

-- The commands are rows of the table, as they are now.
abbrev pub Standing : Db → List DurableCommand → Type 0
Standing db cs = All (λ (c : DurableCommand). command_of db c.command_id ≡ some c) cs

standing_past :
    (x : DurableCommand) (xs whole : List DurableCommand)
    → All (λ (c : DurableCommand). find (has_command_id c.command_id) whole ≡ some c) xs
    → includes (ids xs) x.command_id ≡ false
    → All (λ (c : DurableCommand). find (has_command_id c.command_id) (x ∷ whole) ≡ some c) xs
standing_past x [] whole h apart = tt
standing_past x (c ∷ cs) whole h apart = (
  ground (arith, h.0, eq_iff x.command_id c.command_id, eq_iff c.command_id x.command_id),
  standing_past x cs whole h.1 (ground arith),
)

standing_all :
    (cs : List DurableCommand)
    → Distinct (ids cs)
    → All (λ (c : DurableCommand). find (has_command_id c.command_id) cs ≡ some c) cs
standing_all [] d = tt
standing_all (c ∷ cs) d =
    (ground (arith, eq_refl c.command_id), standing_past c cs cs (standing_all cs d.1) d.0)

All-filter_by {ℓ κ} :
    {A : Type ℓ} (P : A → Type κ) (p : A → Bool) (xs : List A) → All P xs → All P (filter_by p xs)
All-filter_by P p [] h = tt
All-filter_by P p (x ∷ xs) h = elim (Bool-cases (p x)) [
  | inl e ↦ subst (All P) {x = x ∷ filter_by p xs} (ground arith) (h.0, All-filter_by P p xs h.1)
  | inr e ↦ subst (All P) {x = filter_by p xs} (ground arith) (All-filter_by P p xs h.1)
]

pub filter_by_sound {ℓ} :
    {A : Type ℓ} (p : A → Bool) (xs : List A) → All (λ x. p x ≡ true) (filter_by p xs)
filter_by_sound p [] = tt
filter_by_sound p (x ∷ xs) = elim (Bool-cases (p x)) [
  | inl e ↦
      subst (All (λ y. p y ≡ true)) {x = x ∷ filter_by p xs} (ground arith)
        (e, filter_by_sound p xs)
  | inr e ↦ subst (All (λ y. p y ≡ true)) {x = filter_by p xs} (ground arith) (filter_by_sound p xs)
]

pub includes-filter_by :
    (p : DurableCommand → Bool) (cs : List DurableCommand) (id : String)
    → includes (ids cs) id ≡ false
    → includes (ids (filter_by p cs)) id ≡ false
includes-filter_by p [] id h = refl
includes-filter_by p (c ∷ cs) id h = ground (arith, includes-filter_by p cs id)

pub Distinct-filter_by :
    (p : DurableCommand → Bool) (cs : List DurableCommand)
    → Distinct (ids cs)
    → Distinct (ids (filter_by p cs))
Distinct-filter_by p [] d = tt
Distinct-filter_by p (c ∷ cs) d = elim (Bool-cases (p c)) [
  | inl e ↦
      subst (λ l. Distinct (ids l)) {x = c ∷ filter_by p cs} (ground arith)
        (includes-filter_by p cs c.command_id d.0, Distinct-filter_by p cs d.1)
  | inr e ↦
      subst (λ l. Distinct (ids l)) {x = filter_by p cs} (ground arith)
        (Distinct-filter_by p cs d.1)
]

-- Selected rows stand in the table, each under its own id.
pub selected-Standing :
    (p : DurableCommand → Bool) (db : Db)
    → IsTable db
    → Standing db (filter_by p db.commands) × Distinct (ids (filter_by p db.commands))
selected-Standing p db d = (
  All-filter_by (λ (c : DurableCommand). command_of db c.command_id ≡ some c) p db.commands
      (standing_all db.commands d),
  Distinct-filter_by p db.commands d,
)

first_due-All {κ} :
    (P : DurableCommand → Type κ) (at : ℕ) (cs : List DurableCommand) {c : DurableCommand}
    → All P cs
    → first_due at cs ≡ some c
    → P c
first_due-All P at [] h e = absurd (ground arith)
first_due-All P at (x ∷ xs) {c} h e = elim (Option-cases (first_due at xs)) [
  | inl empty ↦ subst P {x = x} (ground arith) h.0
  | inr (y, rest) ↦ elim (Bool-cases (is_due at x)) [
    | inr later ↦ first_due-All P at xs {c = c} h.1 (ground arith)
    | inl due ↦ elim (Bool-cases (ltb y.created_at x.created_at)) [
      | inl e1 ↦ subst P {x = y} (ground arith) (first_due-All P at xs {c = y} h.1 rest)
      | inr e1 ↦ subst P {x = x} (ground arith) h.0
    ]
  ]
]

pub first_due-is_due :
    (at : ℕ) (cs : List DurableCommand) {c : DurableCommand}
    → first_due at cs ≡ some c
    → is_due at c ≡ true
first_due-is_due at [] e = absurd (ground arith)
first_due-is_due at (x ∷ xs) {c} e = ground (arith, first_due-is_due at xs {c = c})

pub first_due-standing :
    (at : ℕ) (db : Db) {c : DurableCommand}
    → IsTable db
    → first_due at db.commands ≡ some c
    → command_of db c.command_id ≡ some c
first_due-standing at db {c} d e =
    first_due-All (λ (x : DurableCommand). command_of db x.command_id ≡ some x) at db.commands
      {c = c} (standing_all db.commands d) e

ids-update_where :
    (id : String) (set : DurableCommand → DurableCommand) (cs : List DurableCommand)
    → ((x : DurableCommand) → (set x).command_id ≡ x.command_id)
    → ids (update_where (has_command_id id) set cs) ≡ ids cs
ids-update_where id set [] keeps = refl
ids-update_where id set (c ∷ cs) keeps = ground (arith, keeps c, ids-update_where id set cs keeps)

pub Move-IsTable : {db db' : Db} → Move db db' → IsTable db → IsTable db'
Move-IsTable {db} {db'} m d =
    let kept = ids-update_where m.was.command_id m.set db.commands m.keeps in
    subst Distinct {x = ids db.commands} (ground (arith, m.rows, kept)) d

pub Move-self :
    {db db' : Db} (m : Move db db') → command_of db' m.was.command_id ≡ some (m.set m.was)
Move-self {db} {db'} m =
    ground (arith, m.rows, m.found, find-update_self m.was.command_id m.set m.keeps db.commands)

pub Move-other :
    {db db' : Db} (m : Move db db') (id : String)
    → id ≢ m.was.command_id
    → command_of db' id ≡ command_of db id
Move-other {db} {db'} m id apart =
    ground (arith, m.rows, find-update_ne m.was.command_id m.set m.keeps db.commands id apart)

-- Commands other than the one that moved still stand.
pub Move-Standing :
    {db db' : Db} (m : Move db db') (cs : List DurableCommand)
    → includes (ids cs) m.was.command_id ≡ false
    → Standing db cs
    → Standing db' cs
Move-Standing {db} {db'} m [] apart h = tt
Move-Standing {db} {db'} m (c ∷ cs) apart h = (
  ground (
    arith,
    h.0,
    Move-other m c.command_id (λ e. ground (arith, eq_iff c.command_id m.was.command_id)),
  ),
  Move-Standing m cs (ground arith) h.1,
)
