-- ===== src/Activity/Latest.antt =====
-- The entry of a run is of its latest event.
use orc_state.Base.{
  Bool, true, false, Option, none, some, String, List, [], ◌∷◌, ℕ, ◌≤◌, ◌≡◌, refl, sym, arith, ◌==◌,
  eq_iff, eq_refl, All, leb, Option-cases, Bool-cases, inl, inr,
}
use mathlib.Core.Path.{subst}
use orc_state.Base.Time.{Stamp, iso, junk}
use orc_state.Activity.{
  OrcEvent, Entry, entry_of, set_entry, record_event, run_and_time, visit, visit_all, build_run_map,
}

-- No instant after `n`, where a time stands.
abbrev at_most : ℕ → Option Stamp → Bool
at_most n none = true
at_most n (some (iso m)) = leb m n
at_most n (some (junk text)) = false

abbrev time_of {ℓ} : {T : Type ℓ} → Option (Entry T) → Option Stamp
time_of none = none
time_of (some e) = some e.ts

module _ {ℓ} {T : Type ℓ} where
  entry_of-set_entry :
      (new : Entry T) (entries : List (Entry T))
      → entry_of (set_entry new entries) new.run_id ≡ some new
  entry_of-set_entry new [] = ground (arith, eq_refl new.run_id)
  entry_of-set_entry new (e ∷ es) = ground (arith, eq_refl new.run_id, entry_of-set_entry new es)

  entry_of-set_entry_ne :
      (new : Entry T) (other : String) (entries : List (Entry T))
      → (new.run_id == other) ≡ false
      → entry_of (set_entry new entries) other ≡ entry_of entries other
  entry_of-set_entry_ne new other [] ne = ground arith
  entry_of-set_entry_ne new other (e ∷ es) ne = ground (
    arith,
    eq_iff e.run_id new.run_id,
    eq_iff e.run_id other,
    eq_iff new.run_id other,
    entry_of-set_entry_ne new other es ne,
  )

  record_event_same :
      (new : Entry T) (entries : List (Entry T)) (n : ℕ)
      → at_most n (time_of (entry_of (record_event new entries) new.run_id)) ≡ true
      → at_most n (time_of (entry_of entries new.run_id)) ≡ true
  record_event_same new entries n h = ground (arith, entry_of-set_entry new entries)

  record_event_earlier :
      (new : Entry T) (entries : List (Entry T)) (run_id : String) (n : ℕ)
      → at_most n (time_of (entry_of (record_event new entries) run_id)) ≡ true
      → at_most n (time_of (entry_of entries run_id)) ≡ true
  record_event_earlier new entries run_id n h = elim (Bool-cases (new.run_id == run_id)) [
    | inl same ↦
        subst
          (λ id.
            at_most n (time_of (entry_of (record_event new entries) id)) ≡ true
            → at_most n (time_of (entry_of entries id)) ≡ true)
          ((eq_iff new.run_id run_id).0 same) (record_event_same new entries n) h
    | inr apart ↦ ground (arith, entry_of-set_entry_ne new run_id entries apart)
  ]

  record_event-le :
      (new : Entry T) (entries : List (Entry T)) (m n : ℕ)
      → at_most n (time_of (entry_of (record_event new entries) new.run_id)) ≡ true
      → new.ts ≡ iso m
      → m ≤ n
  record_event-le new entries m n h e = ground (arith, entry_of-set_entry new entries)

module _ {ℓ} {T : Type ℓ} (filter : OrcEvent → Bool) (extract : OrcEvent → T) (run_id : String)
    (n : ℕ) where
  visit_earlier :
      (e : OrcEvent) (entries : List (Entry T))
      → at_most n (time_of (entry_of (visit filter extract e entries) run_id)) ≡ true
      → at_most n (time_of (entry_of entries run_id)) ≡ true
  visit_earlier e entries h = elim (Option-cases (run_and_time filter e)) [
    | inl none_taken ↦
        subst (λ l. at_most n (time_of (entry_of l run_id)) ≡ true)
          {x = visit filter extract e entries} (ground arith) h
    | inr ((r, t), taken) ↦
        let new : Entry T = record { run_id = r; ts = t; value = extract e } in
        record_event_earlier new entries run_id n (
          subst (λ l. at_most n (time_of (entry_of l run_id)) ≡ true)
            {x = visit filter extract e entries} (ground arith) h)
  ]

  visit-le :
      (e : OrcEvent) (entries : List (Entry T)) (m : ℕ)
      → run_and_time filter e ≡ some (run_id, iso m)
      → at_most n (time_of (entry_of (visit filter extract e entries) run_id)) ≡ true
      → m ≤ n
  visit-le e entries m taken h =
      let new : Entry T = record { run_id = run_id; ts = iso m; value = extract e } in
      record_event-le new entries m n
        (subst (λ l. at_most n (time_of (entry_of l run_id)) ≡ true)
          {x = visit filter extract e entries} (ground arith) h)
        refl

  visit_all_earlier :
      (events : List OrcEvent) (entries : List (Entry T))
      → at_most n (time_of (entry_of (visit_all filter extract events entries) run_id)) ≡ true
      → at_most n (time_of (entry_of entries run_id)) ≡ true
  visit_all_earlier [] entries h = h
  visit_all_earlier (e ∷ es) entries h =
      visit_earlier e entries (visit_all_earlier es (visit filter extract e entries) h)

  visit_all-le :
      (events : List OrcEvent) (entries : List (Entry T))
      → at_most n (time_of (entry_of (visit_all filter extract events entries) run_id)) ≡ true
      → All (λ e. (m : ℕ) → run_and_time filter e ≡ some (run_id, iso m) → m ≤ n) events
  visit_all-le [] entries h = tt
  visit_all-le (e ∷ es) entries h = (
    λ m taken. visit-le e entries m taken (visit_all_earlier es (visit filter extract e entries) h),
    visit_all-le es (visit filter extract e entries) h,
  )

-- If the map has an entry for a run and the entry's time is an instant, no event of the run that the
-- map takes into account has a later instant.
pub build_run_map_latest {ℓ} :
    {T : Type ℓ} (filter : OrcEvent → Bool) (extract : OrcEvent → T) (events : List OrcEvent)
    (run_id : String) (n : ℕ) {found : Entry T}
    → entry_of (build_run_map filter extract events) run_id ≡ some found
    → found.ts ≡ iso n
    → All (λ e. (m : ℕ) → run_and_time filter e ≡ some (run_id, iso m) → m ≤ n) events
unfolding build_run_map
build_run_map_latest filter extract events run_id n {found} h t =
    visit_all-le filter extract run_id n events []
      (subst (λ o. at_most n (time_of o) ≡ true) {x = some found} (sym h) (ground arith))
