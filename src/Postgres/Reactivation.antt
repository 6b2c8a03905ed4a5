-- ===== src/Postgres/Reactivation.antt =====
-- What cleaning up and registering again make of a row of the persistent store.
use task_discovery_service.Prelude.{
  ℕ, ◌-◌, ◌≡◌, ◌↔◌, refl, sym, ap, subst, ◌∙◌, Bool, true, false, not, ◌&&◌, Option, none, some,
  List, [], ◌∷◌, map, Text, text_eq, text_beq_iff, if◌then◌else◌, if_both, ltb, arith, Bool-cases,
  inl, inr,
}
use task_discovery_service.Word.{lt64}
use task_discovery_service.Registry.{ServiceEntry}
use task_discovery_service.Postgres.{
  Row, PostgresStore, normalized_capacity, is_row_of, int4_max, refreshed_row, new_row, upsert,
  pg_register, expired_row, deactivated, pg_cleanup,
}

-- The row of a task and an address.
abbrev pub row_of : Text → Text → List Row → Option Row
row_of task address [] = none
row_of task address (r ∷ rows) =
    if is_row_of task address r then some r else row_of task address rows

abbrev pub upserted : Text → ServiceEntry → ℕ → Option Row → Row
upserted task entry now none = new_row task entry now
upserted task entry now (some r) = refreshed_row entry now r

is_row_of_iff :
    (task address : Text) (r : Row)
    → (is_row_of task address r ≡ true) ↔ ((r.task ≡ task) × (r.address ≡ address))
is_row_of_iff task address r =
    ground (arith, text_beq_iff r.task task, text_beq_iff r.address address)

-- What Cleanup makes of a row.
abbrev pub cleaned : ℕ → ℕ → Option Row → Option Row
cleaned cutoff now none = none
cleaned cutoff now (some r) = some (deactivated cutoff now r)

other_row :
    (task address : Text) (r : Row)
    → ((r.task ≡ task) → (r.address ≡ address) → ⊥)
    → is_row_of task address r ≡ false
other_row task address r n = elim (Bool-cases (is_row_of task address r)) [
  | inl e ↦ let (t, a) = (is_row_of_iff task address r).0 e in absurd (n t a)
  | inr e ↦ e
]

deactivated_row :
    (task address : Text) (cutoff now : ℕ) (r : Row)
    → is_row_of task address (deactivated cutoff now r) ≡ is_row_of task address r
deactivated_row task address cutoff now r =
    if_both (λ x. is_row_of task address x ≡ is_row_of task address r) (expired_row cutoff r) _ r
      refl refl

row_of-upsert_same :
    (task : Text) (entry : ServiceEntry) (now : ℕ) (rows : List Row)
    → row_of task entry.address (upsert task entry now rows)
      ≡ some (upserted task entry now (row_of task entry.address rows))
unfolding upsert new_row refreshed_row
row_of-upsert_same task entry now [] =
    rw ((is_row_of_iff task entry.address (new_row task entry now)).1 (refl, refl)) refl
row_of-upsert_same task entry now (r ∷ rows) = elim (Bool-cases (is_row_of task entry.address r)) [
  | inl e ↦ rw (e, e) refl
  | inr e ↦ rw (e, e) (row_of-upsert_same task entry now rows)
]

row_of-upsert_other :
    (task t a : Text) (entry : ServiceEntry) (now : ℕ) (rows : List Row)
    → ((task ≡ t) → (entry.address ≡ a) → ⊥)
    → row_of t a (upsert task entry now rows) ≡ row_of t a rows
unfolding upsert new_row refreshed_row
row_of-upsert_other task t a entry now [] n = rw (other_row t a (new_row task entry now) n) refl
row_of-upsert_other task t a entry now (r ∷ rows) n =
    elim (Bool-cases (is_row_of task entry.address r)) [
      | inl e ↦
          let (t_same, a_same) = (is_row_of_iff task entry.address r).0 e in
          let out = other_row t a r (λ h k. n (sym t_same ∙ h) (sym a_same ∙ k)) in rw (e, out) refl
      | inr e ↦ rw e (ground (arith, row_of-upsert_other task t a entry now rows n))
    ]

row_of-cleaned :
    (task address : Text) (cutoff now : ℕ) (rows : List Row)
    → row_of task address (map (deactivated cutoff now) rows)
      ≡ cleaned cutoff now (row_of task address rows)
row_of-cleaned task address cutoff now [] = refl
row_of-cleaned task address cutoff now (r ∷ rows) =
    let same = deactivated_row task address cutoff now r in
    elim (Bool-cases (is_row_of task address r)) [
      | inl e ↦ rw (same, e) refl
      | inr e ↦ rw (same, e) (row_of-cleaned task address cutoff now rows)
    ]

-- The count that a registration keeps: that of a row which the cleanup left active.
abbrev pub kept_count : ℕ → Option Row → ℕ
kept_count cutoff none = 0
kept_count cutoff (some r) =
    if r.is_active && not (ltb r.last_heartbeat cutoff) then r.query_count else 0

same_row : {x r : Row} → some x ≡ some r → x ≡ r
same_row e = cc

count_expired :
    (active old : Bool) (n : ℕ) → old && active ≡ true → 0 ≡ (if active && not old then n else 0)
count_expired true true n e = refl
count_expired true false n e = ground arith
count_expired false old n e = refl

count_recent :
    (active old : Bool) (n : ℕ)
    → old && active ≡ false
    → (if active then n else 0) ≡ (if active && not old then n else 0)
count_recent true true n e = ground arith
count_recent true false n e = refl
count_recent false old n e = refl

row_of-found :
    (task address : Text) (rows : List Row) (r : Row)
    → row_of task address rows ≡ some r
    → (r.task ≡ task) × (r.address ≡ address)
row_of-found task address [] r h = cc
row_of-found task address (x ∷ rows) r h = elim (Bool-cases (is_row_of task address x)) [
  | inl e ↦
      let h' = subst (λ b. (if b then some x else row_of task address rows) ≡ some r) e h in
      (is_row_of_iff task address r).0
        (subst (λ y. is_row_of task address y ≡ true) (same_row h') e)
  | inr e ↦
      row_of-found task address rows r
        (subst (λ b. (if b then some x else row_of task address rows) ≡ some r) e h)
]

-- The row of a plain registration, with a count.
abbrev active_row : Text → ServiceEntry → ℕ → ℕ → Row
active_row task entry now count = record {
  task = task;
  address = entry.address;
  last_heartbeat = entry.last_heartbeat;
  query_count = count;
  capacity = normalized_capacity entry.capacity;
  is_active = true;
  updated_at = now;
}

module _ (task : Text) (entry : ServiceEntry) (now : ℕ)
    (plain : lt64 0 entry.query_count ≡ false) where
  refreshed-row :
      (r : Row) (task_same : r.task ≡ task) (address_same : r.address ≡ entry.address)
      → refreshed_row entry now r
        ≡ active_row task entry now (if r.is_active then r.query_count else 0)
  unfolding refreshed_row
  refreshed-row r t a = rw (plain, t, a) refl

  upserted-row :
      (cutoff cleaned_at : ℕ) (o : Option Row)
      → ((r : Row) → o ≡ some r → (r.task ≡ task) × (r.address ≡ entry.address))
      → upserted task entry now (cleaned cutoff cleaned_at o)
        ≡ active_row task entry now (kept_count cutoff o)
  unfolding new_row
  upserted-row cutoff cleaned_at none f = rw plain refl
  upserted-row cutoff cleaned_at (some r) f =
      let (t, a) = f r refl in
      elim (Bool-cases (expired_row cutoff r)) [
        | inl e ↦ rw e (
            refreshed-row (record r { is_active = false; updated_at = cleaned_at }) t a
            ∙ ap (active_row task entry now)
                (count_expired r.is_active (ltb r.last_heartbeat cutoff) r.query_count e))
        | inr e ↦ rw e (
            refreshed-row r t a
            ∙ ap (active_row task entry now)
                (count_recent r.is_active (ltb r.last_heartbeat cutoff) r.query_count e))
      ]

-- After a cleanup, a plain registration whose capacity fits into the column gives its task and
-- address one active row with its heartbeat and its capacity, at least 1, which counts the queries
-- so far only if the row was active and the cleanup found its heartbeat recent; every other row is
-- as the cleanup left it.
pub pg_register-after_cleanup :
    (out_of_range : ℕ → Text) (task : Text) (entry : ServiceEntry) (timeout cleaned_at now : ℕ)
    (ps : PostgresStore)
    → lt64 0 entry.query_count ≡ false
    → ltb int4_max (normalized_capacity entry.capacity) ≡ false
    → let cutoff = cleaned_at - timeout in
      let after = (pg_cleanup timeout cleaned_at ps).1 in
      let r = pg_register out_of_range none task entry now after in
      (r.0 ≡ none)
      × (row_of task entry.address r.1.rows
          ≡ some (record {
            task = task;
            address = entry.address;
            last_heartbeat = entry.last_heartbeat;
            query_count = kept_count cutoff (row_of task entry.address ps.rows);
            capacity = normalized_capacity entry.capacity;
            is_active = true;
            updated_at = now;
          }))
      × ((t a : Text)
          → ((task ≡ t) → (entry.address ≡ a) → ⊥)
          → row_of t a r.1.rows ≡ cleaned cutoff cleaned_at (row_of t a ps.rows))
unfolding pg_register pg_cleanup
pg_register-after_cleanup out_of_range task entry timeout cleaned_at now ps plain fits =
    let cutoff = cleaned_at - timeout in
    let rows = map (deactivated cutoff cleaned_at) ps.rows in
    rw fits (
      refl,
      row_of-upsert_same task entry now rows
          ∙ ap some (
              ap (upserted task entry now)
                (row_of-cleaned task entry.address cutoff cleaned_at ps.rows)
              ∙ upserted-row task entry now plain cutoff cleaned_at
                  (row_of task entry.address ps.rows) (row_of-found task entry.address ps.rows)),
      λ t a n.
          row_of-upsert_other task t a entry now rows n
          ∙ row_of-cleaned t a cutoff cleaned_at ps.rows,
    )
