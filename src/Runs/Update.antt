-- ===== src/Runs/Update.antt =====
-- Committing a table in which one claim was changed in place.
use orc_state.Base.{
  Bool, true, false, not, ◌&&◌, List, [], ◌∷◌, ◌++◌, ◌≡◌, refl, arith, ◌==◌, eq_refl, All, any_of,
  modify_first, ok, Bool-cases, inl, inr, ap, sym, ◌∙◌, suc, ◌+◌, length, find, some,
}
use mathlib.Core.Path.{subst}
use orc_state.Model.Claim.{Claim, is_active}
use orc_state.Runs.{Event, RunsDb, put_row, conflicts, upsert_all, append_events, commit_claims}
use mathlib.Core.List.{append-nil, append_assoc}
use orc_state.Runs.Commit.{
  run_ids, Distinct, RowsOf, Settled, put_row-past, settle, Settled-none, keep_rows, RowsOf-desired,
  sequenced,
}

-- The new version of a claim keeps its run and its task, and is active only if the old one was.
pub record Follows (new old : Claim) : Type 0 where
  pub run_id : new.run_id ≡ old.run_id
  pub task_ref : new.task_ref ≡ old.task_ref
  pub active : is_active new.state ≡ true → is_active old.state ≡ true

abbrev pub AllFollow : List Claim → List Claim → Type 0
AllFollow [] [] = Unit
AllFollow (n ∷ ns) (o ∷ os) = Follows n o × AllFollow ns os
AllFollow _ _ = ⊥

-- No two active claims are for one task.
abbrev Consistent : List Claim → Type 0
Consistent claims = All (λ (c : Claim). conflicts c claims ≡ false) claims

Follows-self : (c : Claim) → Follows c c
Follows-self c = record { run_id = refl; task_ref = refl; active = λ h. h }

AllFollow-self : (cs : List Claim) → AllFollow cs cs
AllFollow-self [] = tt
AllFollow-self (c ∷ cs) = (Follows-self c, AllFollow-self cs)

others_follow :
    (n o : Claim) (ns os : List Claim)
    → Follows n o
    → AllFollow ns os
    → any_of
        (λ row. not (row.run_id == n.run_id) && is_active row.state && row.task_ref == n.task_ref)
        ns
      ≡ true
    → any_of
        (λ row. not (row.run_id == o.run_id) && is_active row.state && row.task_ref == o.task_ref)
        os
      ≡ true
others_follow n o [] [] f h e = ground arith
others_follow n o [] (y ∷ ys) f h e = absurd h
others_follow n o (x ∷ xs) [] f h e = absurd h
others_follow n o (x ∷ xs) (y ∷ ys) f h e =
    let g = h.0 in
    ground
      (arith, f.run_id, f.task_ref, g.run_id, g.task_ref, g.active, others_follow n o xs ys f h.1)

no_conflict :
    (n o : Claim) (ns os : List Claim)
    → Follows n o
    → AllFollow ns os
    → conflicts o os ≡ false
    → conflicts n ns ≡ false
no_conflict n o ns os f h e = ground (arith, f.active, others_follow n o ns os f h)

All-middle {ℓ κ} :
    {A : Type ℓ} (P : A → Type κ) (xs : List A) (y : A) (ys : List A) → All P (xs ++ y ∷ ys) → P y
All-middle P [] y ys h = h.0
All-middle P (x ∷ xs) y ys h = All-middle P xs y ys h.1

AllFollow-append :
    (ns os : List Claim) (rest : List Claim) → AllFollow ns os → AllFollow (ns ++ rest) (os ++ rest)
AllFollow-append [] [] rest h = AllFollow-self rest
AllFollow-append (n ∷ ns) (o ∷ os) rest h = (h.0, AllFollow-append ns os rest h.1)
AllFollow-append [] (o ∷ os) rest h = absurd h
AllFollow-append (n ∷ ns) [] rest h = absurd h

AllFollow-snoc :
    (ns os : List Claim) (n o : Claim)
    → AllFollow ns os
    → Follows n o
    → AllFollow (ns ++ n ∷ []) (os ++ o ∷ [])
AllFollow-snoc [] [] n o h f = (f, tt)
AllFollow-snoc (x ∷ ns) (y ∷ os) n o h f = (h.0, AllFollow-snoc ns os n o h.1 f)
AllFollow-snoc [] (y ∷ os) n o h f = absurd h
AllFollow-snoc (x ∷ ns) [] n o h f = absurd h

-- Writing new versions of the rows, the first of which are written already.
upsert_all-total :
    (claims settled before rows : List Claim)
    → Distinct (run_ids claims)
    → Settled settled claims
    → AllFollow settled before
    → AllFollow claims rows
    → Consistent (before ++ rows)
    → upsert_all claims (settled ++ rows) ≡ ok (settled ++ claims)
unfolding upsert_all
upsert_all-total [] settled before [] d s f g c = refl
upsert_all-total [] settled before (r ∷ rs) d s f g c = absurd g
upsert_all-total (n ∷ ns) settled before [] d s f g c = absurd g
upsert_all-total (n ∷ ns) settled before (r ∷ rs) d s f g c =
    let free : conflicts n (settled ++ r ∷ rs) ≡ false =
      no_conflict n r (settled ++ r ∷ rs) (before ++ r ∷ rs) g.0
        (AllFollow-append settled before (r ∷ rs) f)
        (All-middle (λ (x : Claim). conflicts x (before ++ r ∷ rs) ≡ false) before r rs c) in
    let over : put_row n (settled ++ r ∷ rs) ≡ (settled ++ n ∷ []) ++ rs =
      put_row-past n settled (r ∷ rs) s.0
      ∙ ap (λ l. settled ++ l) (ground (arith, g.0.run_id, eq_refl r.run_id))
      ∙ sym (append_assoc settled (n ∷ []) rs) in
    let rest =
      upsert_all-total ns (settled ++ n ∷ []) (before ++ r ∷ []) rs d.1
        (settle settled n ns s.1 d.0) (AllFollow-snoc settled before n r f g.0) g.1
        (rw append_assoc c) in
    ground (arith, free, over, rest, append_assoc settled (n ∷ []) ns)

append_events-total :
    (valid : Event → Bool) (events : List Event) (db : RunsDb)
    → All (λ e. valid e ≡ true) events
    → append_events valid events db
      ≡ ok (record db {
        events = db.events ++ sequenced db.last_seq events;
        last_seq = db.last_seq + length events;
      })
unfolding append_events
append_events-total valid [] db h = ground (arith, append-nil db.events)
append_events-total valid (e ∷ es) db h =
    let mid = record db {
      events = db.events ++ record { seq = suc db.last_seq; event = e } ∷ [];
      last_seq = suc db.last_seq;
    } in
    ground (
      arith,
      h.0,
      append_events-total valid es mid h.1,
      append_assoc db.events (record { seq = suc db.last_seq; event = e } ∷ [])
          (sequenced (suc db.last_seq) es),
    )

-- The table as the source keeps it: a row for each run, and one active run for a task.
pub record IsTable (claims : List Claim) : Type 0 where
  pub distinct : Distinct (run_ids claims)
  pub consistent : Consistent claims

pub run_ids-follow : (ns os : List Claim) → AllFollow ns os → run_ids ns ≡ run_ids os
run_ids-follow [] [] h = refl
run_ids-follow (n ∷ ns) (o ∷ os) h = ground (arith, h.0.run_id, run_ids-follow ns os h.1)
run_ids-follow [] (o ∷ os) h = absurd h
run_ids-follow (n ∷ ns) [] h = absurd h

pub RowsOf-follow : (ns os : List Claim) → AllFollow ns os → RowsOf os ns
RowsOf-follow [] [] h = tt
RowsOf-follow (n ∷ ns) (o ∷ os) h = (sym h.0.run_id, RowsOf-follow ns os h.1)
RowsOf-follow [] (o ∷ os) h = absurd h
RowsOf-follow (n ∷ ns) [] h = absurd h

consistent_suffix :
    (ns os new old : List Claim)
    → AllFollow ns os
    → AllFollow new old
    → All (λ (c : Claim). conflicts c old ≡ false) os
    → All (λ (c : Claim). conflicts c new ≡ false) ns
consistent_suffix [] [] new old f g h = tt
consistent_suffix (n ∷ ns) (o ∷ os) new old f g h =
    (no_conflict n o new old f.0 g h.0, consistent_suffix ns os new old f.1 g h.1)
consistent_suffix [] (o ∷ os) new old f g h = absurd f
consistent_suffix (n ∷ ns) [] new old f g h = absurd f

pub AllFollow-IsTable : (ns os : List Claim) → AllFollow ns os → IsTable os → IsTable ns
AllFollow-IsTable ns os f t = record {
  distinct = rw (run_ids-follow ns os f) t.distinct;
  consistent = consistent_suffix ns os ns os f f t.consistent;
}

-- The commit of new versions of the rows, each of the same run and task as the row it replaces and
-- active only if that one was, does not run into the unique index of a well-formed table: it succeeds if
-- the events are valid, makes the table exactly those versions, and appends the events.
pub commit_claims-in_place :
    (valid : Event → Bool) (claims : List Claim) (events : List Event) (db : RunsDb)
    → IsTable db.claims
    → AllFollow claims db.claims
    → All (λ e. valid e ≡ true) events
    → commit_claims valid claims events db
      ≡ ok (record {
        claims = claims;
        events = db.events ++ sequenced db.last_seq events;
        last_seq = db.last_seq + length events;
      })
unfolding commit_claims
commit_claims-in_place valid claims events db t f good =
    let kept =
      keep_rows db.claims (run_ids claims)
        (RowsOf-desired db.claims claims (RowsOf-follow claims db.claims f)) in
    let written =
      ap (upsert_all claims) kept
      ∙ upsert_all-total claims [] [] db.claims (rw (run_ids-follow claims db.claims f) t.distinct)
          (Settled-none claims) tt f t.consistent in
    ground (arith, written, append_events-total valid events (record db { claims = claims }) good)

pub AllFollow-modify :
    (p : Claim → Bool) (new : Claim) (claims : List Claim) {old : Claim}
    → find p claims ≡ some old
    → Follows new old
    → AllFollow (modify_first p (λ _. new) claims) claims
AllFollow-modify p new [] h f = absurd (ground arith)
AllFollow-modify p new (c ∷ cs) {old} h f = elim (Bool-cases (p c)) [
  | inl e ↦
      subst (λ l. AllFollow l (c ∷ cs)) {x = new ∷ cs} (ground arith)
        (subst (Follows new) {x = old} (ground arith) f, AllFollow-self cs)
  | inr e ↦
      subst (λ l. AllFollow l (c ∷ cs)) {x = c ∷ modify_first p (λ _. new) cs} (ground arith)
        (Follows-self c, AllFollow-modify p new cs {old = old} (ground arith) f)
]
