-- ===== src/Dht/Ring/Search.antt =====
-- The binary search of the ring: it ends within the rounds given, at the first identifier that is
-- not before the one looked for.
use task_discovery_service.Prelude.{
  ℕ, zero, suc, ◌+◌, ◌-◌, ◌/◌, ◌≤◌, ◌<◌, ◌≡◌, sym, ◌∙◌, Bool, true, false, ltb, ltb→lt, arith,
  Bool-cases, inl, inr,
}
use task_discovery_service.Dht.Ring.{search_between}

-- The test fails before the place, and holds from it on.
pub record Splits (f : ℕ → Bool) (n r : ℕ) : Type 0 where
  pub bound : r ≤ n
  pub before : (i : ℕ) → i < r → f i ≡ false
  pub after : (i : ℕ) → r ≤ i → i < n → f i ≡ true

module _ (f : ℕ → Bool) (n : ℕ) (mono : (i j : ℕ) → i ≤ j → j < n → f i ≡ true → f j ≡ true) where
  fails_before : (m h : ℕ) → f h ≡ false → m ≤ h → h < n → f m ≡ false
  fails_before m h t le lt = elim (Bool-cases (f m)) [
    | inl e ↦ let both : true ≡ false = sym (mono m h le lt e) ∙ t in cc
    | inr e ↦ e
  ]

  search_between-Splits :
      (fuel i j : ℕ)
      → i ≤ j
      → j ≤ n
      → j - i ≤ fuel
      → ((m : ℕ) → m < i → f m ≡ false)
      → ((m : ℕ) → j ≤ m → m < n → f m ≡ true)
      → Splits f n (search_between fuel f i j)
  unfolding search_between
  search_between-Splits zero i j le jn fu lo hi = record {
    bound = omega arith;
    before = lo;
    after = λ m h k. hi m (omega arith) k;
  }
  search_between-Splits (suc fuel) i j le jn fu lo hi =
      let h = (i + j) / 2 in
      elim (Bool-cases (ltb i j)) [
        | inr e ↦
            rw e
              (record { bound = omega arith; before = lo; after = λ m p q. hi m (ground arith) q })
        | inl e ↦
            let lt : i < j = ltb→lt i j e in
            elim (Bool-cases (f h)) [
              | inl t ↦
                  rw (e, t)
                    (search_between-Splits fuel i h (omega arith) (omega arith) (omega arith) lo
                      (λ m p q. mono h m p q t))
              | inr t ↦
                  rw (e, t)
                    (search_between-Splits fuel (h + 1) j (omega arith) jn (omega arith)
                      (λ m p. fails_before m h t (omega arith) (omega arith)) hi)
            ]
      ]

  -- For a test on n places that, once true, is true at all later places, the search with n
  -- rounds finds the place where the test turns.
  pub search_places : Splits f n (search_between n f 0 n)
  search_places =
      search_between-Splits n 0 n (omega arith) (omega arith) (omega arith)
        (λ m h. absurd (omega arith)) (λ m h k. absurd (omega arith))
