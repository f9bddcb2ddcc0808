-- ===== src/Runs/Commit.antt =====
-- What a successful `commitClaims` leaves in the table and in the log.
use orc_state.Base.{
  Bool, true, false, List, [], ◌∷◌, ◌++◌, map, String, ℕ, suc, ◌≡◌, refl, arith, ◌==◌, eq_iff,
  eq_refl, All, includes, filter_by, ok, >>=-eq-ok, ap, sym, ◌∙◌,
}
use mathlib.Core.List.{append-nil, append_assoc}
use orc_state.Model.Claim.{Claim}
use orc_state.Runs.{
  Event, SequencedEvent, RunsDb, put_row, upsert_claim, upsert_all, append_event, append_events,
  commit_claims,
}

abbrev pub run_ids : List Claim → List String
run_ids claims = map (λ c. c.run_id) claims

abbrev pub Distinct : List String → Type 0
Distinct [] = Unit
Distinct (x ∷ xs) = (includes xs x ≡ false) × Distinct xs

-- The rows are those of the first claims, in the same order.
abbrev pub RowsOf : List Claim → List Claim → Type 0
RowsOf [] claims = Unit
RowsOf (row ∷ rows) [] = ⊥
RowsOf (row ∷ rows) (claim ∷ claims) = (row.run_id ≡ claim.run_id) × RowsOf rows claims

pub put_row-past :
    (claim : Claim) (settled rows : List Claim)
    → includes (run_ids settled) claim.run_id ≡ false
    → put_row claim (settled ++ rows) ≡ settled ++ put_row claim rows
put_row-past claim [] rows h = refl
put_row-past claim (s ∷ ss) rows h = ground (arith, put_row-past claim ss rows)

-- No claim of the second list is in the first.
abbrev pub Settled : List Claim → List Claim → Type 0
Settled settled claims = All (λ (c : Claim). includes (run_ids settled) c.run_id ≡ false) claims

includes-snoc :
    (xs : List String) (x y : String)
    → includes xs y ≡ false
    → (x == y) ≡ false
    → includes (xs ++ x ∷ []) y ≡ false
includes-snoc [] x y h e = ground arith
includes-snoc (z ∷ zs) x y h e = ground (arith, includes-snoc zs x y)

map-snoc : (cs : List Claim) (c : Claim) → run_ids (cs ++ c ∷ []) ≡ run_ids cs ++ c.run_id ∷ []
map-snoc [] c = refl
map-snoc (x ∷ xs) c = ap (λ l. x.run_id ∷ l) (map-snoc xs c)

pub settle :
    (settled : List Claim) (c : Claim) (cs : List Claim)
    → Settled settled cs
    → includes (run_ids cs) c.run_id ≡ false
    → Settled (settled ++ c ∷ []) cs
settle settled c [] h apart = tt
settle settled c (d ∷ ds) h apart = (
  rw (map-snoc settled c) (
      includes-snoc (run_ids settled) c.run_id d.run_id h.0
        (ground (arith, eq_iff c.run_id d.run_id, eq_iff d.run_id c.run_id))),
  settle settled c ds h.1 (ground arith),
)

upsert_claim-ok :
    (c : Claim) (rows out : List Claim) → upsert_claim c rows ≡ ok out → out ≡ put_row c rows
upsert_claim-ok c rows out h = unfold upsert_claim in ground arith

-- Writing the claims in order, over rows that belong to the first of them.
upsert_all-exact :
    (claims settled rows out : List Claim)
    → Distinct (run_ids claims)
    → Settled settled claims
    → RowsOf rows claims
    → upsert_all claims (settled ++ rows) ≡ ok out
    → out ≡ settled ++ claims
unfolding upsert_all
upsert_all-exact [] settled [] out d s r h = ground arith
upsert_all-exact [] settled (row ∷ rows) out d s r h = absurd r
upsert_all-exact (c ∷ cs) settled [] out d s r h =
    let (mid, first, rest) = >>=-eq-ok (upsert_claim c (settled ++ [])) (upsert_all cs) h in
    let step : mid ≡ (settled ++ c ∷ []) ++ [] =
      upsert_claim-ok c (settled ++ []) mid first
      ∙ put_row-past c settled [] s.0
      ∙ sym (append-nil (settled ++ c ∷ [])) in
    upsert_all-exact cs (settled ++ c ∷ []) [] out d.1 (settle settled c cs s.1 d.0) tt
      (rw step at rest)
    ∙ append_assoc settled (c ∷ []) cs
upsert_all-exact (c ∷ cs) settled (row ∷ rows) out d s r h =
    let (mid, first, rest) = >>=-eq-ok (upsert_claim c (settled ++ row ∷ rows)) (upsert_all cs) h in
    let over : put_row c (row ∷ rows) ≡ c ∷ rows = ground (arith, r.0, eq_refl c.run_id) in
    let step : mid ≡ (settled ++ c ∷ []) ++ rows =
      upsert_claim-ok c (settled ++ row ∷ rows) mid first
      ∙ put_row-past c settled (row ∷ rows) s.0
      ∙ ap (λ l. settled ++ l) over
      ∙ sym (append_assoc settled (c ∷ []) rows) in
    upsert_all-exact cs (settled ++ c ∷ []) rows out d.1 (settle settled c cs s.1 d.0) r.1
      (rw step at rest)
    ∙ append_assoc settled (c ∷ []) cs

-- Every row of a table whose rows are those of the first claims is kept.
pub keep_rows :
    (rows : List Claim) (desired : List String)
    → All (λ (row : Claim). includes desired row.run_id ≡ true) rows
    → filter_by (λ (row : Claim). includes desired row.run_id) rows ≡ rows
keep_rows [] desired h = refl
keep_rows (r ∷ rs) desired h = ground (arith, h.0, keep_rows rs desired h.1)

widen :
    (rows : List Claim) (x : String) (desired : List String)
    → All (λ (row : Claim). includes desired row.run_id ≡ true) rows
    → All (λ (row : Claim). includes (x ∷ desired) row.run_id ≡ true) rows
widen [] x desired h = tt
widen (r ∷ rs) x desired h = (ground (arith, h.0), widen rs x desired h.1)

pub RowsOf-desired :
    (rows claims : List Claim)
    → RowsOf rows claims
    → All (λ (row : Claim). includes (run_ids claims) row.run_id ≡ true) rows
RowsOf-desired [] claims h = tt
RowsOf-desired (r ∷ rs) [] h = absurd h
RowsOf-desired (r ∷ rs) (c ∷ cs) h = (
  ground (arith, h.0, eq_iff c.run_id r.run_id),
  widen rs c.run_id (run_ids cs) (RowsOf-desired rs cs h.1),
)

pub Settled-none : (claims : List Claim) → Settled [] claims
Settled-none [] = tt
Settled-none (c ∷ cs) = (refl, Settled-none cs)

-- The events under the sequence numbers that follow `n`.
abbrev pub sequenced : ℕ → List Event → List SequencedEvent
sequenced n [] = []
sequenced n (e ∷ es) = record { seq = suc n; event = e } ∷ sequenced (suc n) es

module _ (valid : Event → Bool) where
  append_events-ok :
      (events : List Event) (db db' : RunsDb)
      → append_events valid events db ≡ ok db'
      → (db'.claims ≡ db.claims)
        × (db'.events ≡ db.events ++ sequenced db.last_seq events)
        × All (λ e. valid e ≡ true) events
  unfolding append_events
  append_events-ok [] db db' h = (ground arith, ground (arith, append-nil db.events), tt)
  append_events-ok (e ∷ es) db db' h =
      let (mid, first, rest) = >>=-eq-ok (append_event valid e db) (append_events valid es) h in
      let (claims, log, good) = append_events-ok es mid db' rest in
      (
        ground arith,
        ground (
          arith,
          append_assoc db.events (record { seq = suc db.last_seq; event = e } ∷ [])
              (sequenced (suc db.last_seq) es),
        ),
        (ground arith, good),
      )

  -- If the table's rows are those of the first claims, and the claims' runs are distinct, then a
  -- commit that succeeds makes the table exactly the given claims, in order, and appends exactly the
  -- given events, each valid, under the next sequence numbers.
  pub commit_claims-exact :
      (claims : List Claim) (events : List Event) (db db' : RunsDb)
      → Distinct (run_ids claims)
      → RowsOf db.claims claims
      → commit_claims valid claims events db ≡ ok db'
      → (db'.claims ≡ claims)
        × (db'.events ≡ db.events ++ sequenced db.last_seq events)
        × All (λ e. valid e ≡ true) events
  unfolding commit_claims
  commit_claims-exact claims events db db' d r h =
      let kept = keep_rows db.claims (run_ids claims) (RowsOf-desired db.claims claims r) in
      let (rows, first, rest) =
        >>=-eq-ok
          (upsert_all claims (filter_by (λ row. includes (run_ids claims) row.run_id) db.claims)) _
          h in
      let (same, log, good) = append_events-ok events (record db { claims = rows }) db' rest in
      (
        same
            ∙ upsert_all-exact claims [] db.claims rows d (Settled-none claims) r
                (sym (ap (upsert_all claims) kept) ∙ first),
        log,
        good,
      )
