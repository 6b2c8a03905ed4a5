-- ===== src/Simulation/Pctr/Journeys.antt =====
-- The journeys of one run use up the taps: no token keeps two that are not processed.
use task_discovery_service.Prelude.{
  ℕ, ◌+◌, ◌≤◌, ◌≡◌, ◌⊎◌, inl, inr, refl, sym, ap, ◌∙◌, subst, Bool, true, false, not, ◌&&◌, Option,
  none, some, List, [], ◌∷◌, Text, ◌==◌, text_eq, text_beq, if◌then◌else◌, any, length, keep_if,
  arith, Bool-cases, beq→eq, beq_refl,
}
use task_discovery_service.Prelude.Result.{Result, ok, err}
use task_discovery_service.Prelude.Sorting.{sort_by, any-sort_by}
use task_discovery_service.Simulation.Pctr.{
  TapRow, PctrStore, is_open, construct_token, add_token, open_tokens, has_two, paired_tokens,
  add_journeys, construct_tokens, run_pctr_journey_construction,
}
use task_discovery_service.Simulation.Pctr.Pairs.{
  keep_none, open_count, store-add_journeys, count-construct_token, settled-construct_token,
}

module _ (token : Text) where
  -- After a run over some tokens, a token has at most one open tap if it is one of them or had at
  -- most one before.
  count-construct_tokens :
      (fault : Text → Option Text) (names : List Text) (s : PctrStore)
      → ((name : Text) → fault name ≡ none)
      → (any (text_beq token) names ≡ true) ⊎ (open_count token s ≤ 1)
      → open_count token (construct_tokens fault names s).1 ≤ 1
  unfolding construct_tokens
  count-construct_tokens fault [] s works h = elim h [ inl e ↦ cc | inr le ↦ le ]
  count-construct_tokens fault (name ∷ names) s works h =
      let s' = (construct_token name s).1 in
      let less = count-construct_token token name s in
      let before : (any (text_beq token) names ≡ true) ⊎ (open_count token s' ≤ 1) = elim h [
        | inr le ↦ inr (omega arith)
        | inl e ↦ elim (Bool-cases (text_beq token name)) [
          | inl same ↦ inr (
              subst (λ (t : Text). open_count token (construct_token t s).1 ≤ 1)
                (beq→eq token name same) (settled-construct_token token s))
          | inr other ↦ inl (ground arith)
        ]
      ] in
      rw (works name) (
        subst (λ (x : PctrStore). open_count token x ≤ 1)
          (sym (store-add_journeys (construct_token name s).0 (construct_tokens fault names s')))
          (count-construct_tokens fault names s' works before))

  any-add_token :
      (name : Text) (names : List Text)
      → any (text_beq token) names ≡ true
      → any (text_beq token) (add_token name names) ≡ true
  any-add_token name names h = ground arith

  any-add_same : (names : List Text) → any (text_beq token) (add_token token names) ≡ true
  any-add_same names = elim (Bool-cases (any (text_beq token) names)) [
    | inl e ↦ rw (e, e) refl
    | inr e ↦ rw (e, beq_refl token) refl
  ]

  found_step :
      (processed : Bool) (name : Text) (rest : List Text) (r : TapRow) (kept : List TapRow)
      → 1 ≤ length (if name == token && not processed then r ∷ kept else kept)
      → (1 ≤ length kept → any (text_beq token) rest ≡ true)
      → any (text_beq token) (if processed then rest else add_token name rest) ≡ true
  found_step true name rest r kept h ih = ih (ground arith)
  found_step false name rest r kept h ih = elim (Bool-cases (name == token)) [
    | inl e ↦
        subst (λ (t : Text). any (text_beq token) (add_token t rest) ≡ true)
          (sym (beq→eq name token e)) (any-add_same rest)
    | inr e ↦ any-add_token name rest (ih (ground arith))
  ]

  open_token_found :
      (rows : List TapRow)
      → 1 ≤ length (keep_if (is_open token) rows)
      → any (text_beq token) (open_tokens rows) ≡ true
  open_token_found [] h = absurd (omega arith)
  open_token_found (r ∷ rows) h =
      found_step r.processed r.token (open_tokens rows) r (keep_if (is_open token) rows) h
        (open_token_found rows)

  any-keep_if :
      (p : Text → Bool) (names : List Text)
      → p token ≡ true
      → any (text_beq token) names ≡ true
      → any (text_beq token) (keep_if p names) ≡ true
  any-keep_if p [] passes h = h
  any-keep_if p (name ∷ names) passes h = elim (Bool-cases (text_beq token name)) [
    | inl e ↦ rw (sym (beq→eq token name e), passes, beq_refl token) refl
    | inr e ↦ ground (arith, any-keep_if p names passes)
  ]

  token_paired :
      (collation : Text → ℕ) (s : PctrStore)
      → (any (text_beq token) (paired_tokens collation s) ≡ true) ⊎ (open_count token s ≤ 1)
  unfolding paired_tokens
  token_paired collation s = elim (Bool-cases (has_two s token)) [
    | inr e ↦ inr (ground arith)
    | inl e ↦ inl (
        any-sort_by collation (text_beq token) (keep_if (has_two s) (open_tokens s.transactions))
        ∙ any-keep_if (has_two s) (open_tokens s.transactions) e
            (open_token_found s.transactions (ground arith)))
  ]

result-add_journeys :
    (m n : ℕ) (r : Result Text ℕ × PctrStore) → r.0 ≡ ok n → (add_journeys m r).0 ≡ ok (m + n)
result-add_journeys m n (err e, s) h = cc
result-add_journeys m n (ok k, s) h = cc

run_ok :
    (fault : Text → Option Text) (names : List Text) (s : PctrStore)
    → ((name : Text) → fault name ≡ none)
    → (n : ℕ) × ((construct_tokens fault names s).0 ≡ ok n)
unfolding construct_tokens
run_ok fault [] s works = (0, refl)
run_ok fault (name ∷ names) s works =
    let (n, e) = run_ok fault names (construct_token name s).1 works in
    let m = (construct_token name s).0 in
    (
      m + n,
      rw (works name)
          (result-add_journeys m n (construct_tokens fault names (construct_token name s).1) e),
    )

second_run :
    (collation : Text → ℕ) (fault : Text → Option Text) (s : PctrStore)
    → ((token : Text) → open_count token s ≤ 1)
    → run_pctr_journey_construction collation none fault s ≡ (ok 0, s)
unfolding run_pctr_journey_construction construct_tokens paired_tokens
second_run collation fault s settled =
    let none_left =
      keep_none (has_two s) (open_tokens s.transactions) (λ token. ground (arith, settled token)) in
    ap (λ names. construct_tokens fault (sort_by collation names) s) none_left

-- What a run that finds nothing to do returns.
abbrev pub listed : Option Text → Result Text ℕ
listed none = ok 0
listed (some e) = err e

second_run-listed :
    (collation : Text → ℕ) (list_fault : Option Text) (fault : Text → Option Text) (s : PctrStore)
    → ((token : Text) → open_count token s ≤ 1)
    → run_pctr_journey_construction collation list_fault fault s ≡ (listed list_fault, s)
unfolding run_pctr_journey_construction
second_run-listed collation none fault s settled = second_run collation fault s settled
second_run-listed collation (some e) fault s settled = refl

-- After a run without an error of the database, no token has two taps that are not processed, so that
-- a second run changes nothing, whatever the errors of the database: it returns the error of the
-- statement that lists the tokens, and no journey if that has none.
pub run-settles :
    (collation : Text → ℕ) (fault later : Text → Option Text) (list_fault : Option Text)
    (s : PctrStore)
    → ((name : Text) → fault name ≡ none)
    → let (result, s') = run_pctr_journey_construction collation none fault s in
      ((n : ℕ) × (result ≡ ok n))
      × ((token : Text) → open_count token s' ≤ 1)
      × (run_pctr_journey_construction collation list_fault later s' ≡ (listed list_fault, s'))
unfolding run_pctr_journey_construction
run-settles collation fault later list_fault s works =
    let names = paired_tokens collation s in
    let s' = (construct_tokens fault names s).1 in
    let settled = λ (token : Text).
      count-construct_tokens token fault names s works (token_paired token collation s) in
    (run_ok fault names s works, settled, second_run-listed collation list_fault later s' settled)
