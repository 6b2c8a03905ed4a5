-- ===== src/Simulation/Pa/Tokens.antt =====
-- Each token is one card's, and a card keeps its token.
use task_discovery_service.Prelude.{
  ◌≡◌, ◌≢◌, refl, sym, ◌∙◌, subst, Bool, true, false, Option, none, some, List, [], ◌∷◌, Text, ◌==◌,
  text_eq, if◌then◌else◌, arith, Bool-cases, Option-cases, inl, inr, beq→eq, beq_refl, ℕ,
}
use task_discovery_service.Prelude.Result.{Result, ok, err}
use task_discovery_service.Assoc.{Assoc, lookup, insert, lookup-insert}
use task_discovery_service.Simulation.Pa.{
  is_taken, insert_token, or_unchanged, insert_others, read_again, on_fault, after_insert,
  create_token, token_or_new, get_or_create_token,
}

-- No token is that of two cards.
abbrev pub IsUnambiguous : Assoc Text Text → Type 0
IsUnambiguous tokens =
    (c d token : Text) → lookup c tokens ≡ some token → lookup d tokens ≡ some token → c ≡ d

-- Cards keep the tokens that they have.
abbrev pub IsExtended : Assoc Text Text → Assoc Text Text → Type 0
IsExtended old new = (c token : Text) → lookup c old ≡ some token → lookup c new ≡ some token

taken_step :
    (here : Bool) (old token : Text) (later : Option Text) (rest : Bool)
    → (if here then some old else later) ≡ some token
    → (later ≡ some token → rest ≡ true)
    → (if old == token then true else rest) ≡ true
taken_step true old token later rest e h = let q : old ≡ token = cc in rw (q, beq_refl token) refl
taken_step false old token later rest e h = ground (arith, h e)

taken_of_lookup :
    (c token : Text) (tokens : Assoc Text Text)
    → lookup c tokens ≡ some token
    → is_taken token tokens ≡ true
unfolding lookup
taken_of_lookup c token [] e = cc
taken_of_lookup c token ((other, old) ∷ tokens) e =
    taken_step (other == c) old token (lookup c tokens) (is_taken token tokens) e
      (taken_of_lookup c token tokens)

abbrev pub IsGood : Assoc Text Text → Assoc Text Text → Type 0
IsGood old new = IsUnambiguous new × IsExtended old new

pub same-IsGood : (tokens : Assoc Text Text) → IsUnambiguous tokens → IsGood tokens tokens
same-IsGood tokens one = (one, λ c token e. e)

IsGood-trans :
    (old middle new : Assoc Text Text) → IsGood old middle → IsGood middle new → IsGood old new
IsGood-trans old middle new (_, kept) (one, kept') =
    (one, λ c token e. kept' c token (kept c token e))

-- What stands for a card after a row is added: the new token or the old one.
pair_step :
    (c_new d_new : Bool) (c d card_id token other : Text) (old_c old_d : Option Text)
    → (c_new ≡ true → card_id ≡ c)
    → (d_new ≡ true → card_id ≡ d)
    → (old_c ≢ some token)
    → (old_d ≢ some token)
    → (old_c ≡ some other → old_d ≡ some other → c ≡ d)
    → (if c_new then some token else old_c) ≡ some other
    → (if d_new then some token else old_d) ≡ some other
    → c ≡ d
pair_step true true c d card_id token other old_c old_d x y m n one e e' = sym (x refl) ∙ y refl
pair_step true false c d card_id token other old_c old_d x y m n one e e' = absurd (n (e' ∙ sym e))
pair_step false true c d card_id token other old_c old_d x y m n one e e' = absurd (m (e ∙ sym e'))
pair_step false false c d card_id token other old_c old_d x y m n one e e' = one e e'

kept_step :
    (b : Bool) (token other : Text) (old : Option Text)
    → (b ≡ true → old ≡ none)
    → old ≡ some other
    → (if b then some token else old) ≡ some other
kept_step true token other old absent e = let n = absent refl in cc
kept_step false token other old absent e = e

new_row-IsGood :
    (token card_id : Text) (tokens : Assoc Text Text)
    → IsUnambiguous tokens
    → lookup card_id tokens ≡ none
    → is_taken token tokens ≡ false
    → IsGood tokens (insert card_id token tokens)
new_row-IsGood token card_id tokens one absent free =
    let unused : (c : Text) → lookup c tokens ≢ some token =
      λ c e. (let t = taken_of_lookup c token tokens e in cc) in
    (
      (λ c d other e e'.
          pair_step (card_id == c) (card_id == d) c d card_id token other (lookup c tokens)
            (lookup d tokens) (beq→eq card_id c) (beq→eq card_id d) (unused c) (unused d)
            (one c d other) (sym (lookup-insert card_id c token tokens) ∙ e)
            (sym (lookup-insert card_id d token tokens) ∙ e')),
      (λ c other e.
          lookup-insert card_id c token tokens
          ∙ kept_step (card_id == c) token other (lookup c tokens)
              (λ q. subst (λ x. lookup x tokens ≡ none) (beq→eq card_id c q) absent) e),
    )

-- An insertion is refused, or it is good and the card has a token.
abbrev IsInserted : Text → Assoc Text Text → Result Text (Assoc Text Text) → Type 0
IsInserted card_id tokens (err e) = Unit
IsInserted card_id tokens (ok tokens') =
    IsGood tokens tokens' × (token : Text) × (lookup card_id tokens' ≡ some token)

insert_token-IsInserted :
    (token card_id : Text) (tokens : Assoc Text Text)
    → IsUnambiguous tokens
    → IsInserted card_id tokens (insert_token token card_id tokens)
unfolding insert_token
insert_token-IsInserted token card_id tokens one = elim (Option-cases (lookup card_id tokens)) [
  | inr (old, e) ↦ rw e (same-IsGood tokens one, old, e)
  | inl absent ↦ elim (Bool-cases (is_taken token tokens)) [
    | inl taken ↦ rw (absent, taken) tt
    | inr free ↦
        rw (absent, free)
          (
            new_row-IsGood token card_id tokens one absent free,
            token,
            lookup-insert card_id card_id token tokens ∙ rw (beq_refl card_id) refl,
          )
  ]
]

or_unchanged-IsGood :
    (card_id : Text) (tokens : Assoc Text Text) (r : Result Text (Assoc Text Text))
    → IsUnambiguous tokens
    → IsInserted card_id tokens r
    → IsGood tokens (or_unchanged tokens r)
or_unchanged-IsGood card_id tokens (err e) one h = same-IsGood tokens one
or_unchanged-IsGood card_id tokens (ok tokens') one (good, _, _) = good

insert_others-IsGood :
    (others : List (Text × Text)) (tokens : Assoc Text Text)
    → IsUnambiguous tokens
    → IsGood tokens (insert_others others tokens)
unfolding insert_others
insert_others-IsGood [] tokens one = same-IsGood tokens one
insert_others-IsGood ((token, card_id) ∷ others) tokens one =
    let tokens' = or_unchanged tokens (insert_token token card_id tokens) in
    let good =
      or_unchanged-IsGood card_id tokens (insert_token token card_id tokens) one
        (insert_token-IsInserted token card_id tokens one) in
    IsGood-trans tokens tokens' (insert_others others tokens') good
      (insert_others-IsGood others tokens' good.0)

-- The table is good, and a token that is answered is the card's.
abbrev pub IsAnswered : Text → Assoc Text Text → Result Text Text × Assoc Text Text → Type 0
IsAnswered card_id tokens (answer, tokens') =
    IsGood tokens tokens'
    × ((token : Text) → answer ≡ ok token → lookup card_id tokens' ≡ some token)

read_again_ok : (o : Option Text) (token : Text) → read_again o ≡ ok token → o ≡ some token
read_again_ok none token e = cc
read_again_ok (some t) token e = cc

on_fault-IsAnswered :
    (fault : Option Text) (card_id : Text) (old tokens : Assoc Text Text)
    (r : Result Text Text × Assoc Text Text)
    → IsGood old tokens
    → IsAnswered card_id old r
    → IsAnswered card_id old (on_fault fault tokens r)
on_fault-IsAnswered none card_id old tokens r good h = h
on_fault-IsAnswered (some e) card_id old tokens r good h = (good, λ token q. cc)

module _ (fault : ℕ → Option Text) where
  after_insert-IsAnswered :
      (card_id : Text) (tokens : Assoc Text Text) (r : Result Text (Assoc Text Text))
      → IsUnambiguous tokens
      → IsInserted card_id tokens r
      → IsAnswered card_id tokens (after_insert fault card_id tokens r)
  after_insert-IsAnswered card_id tokens (err e) one h = (same-IsGood tokens one, λ token e. cc)
  after_insert-IsAnswered card_id tokens (ok tokens') one (good, _, _) =
      on_fault-IsAnswered (fault 2) card_id tokens tokens' _ good
        (good, read_again_ok (lookup card_id tokens'))

  create_token-IsAnswered :
      (fresh : Result Text Text) (card_id : Text) (tokens : Assoc Text Text)
      → IsUnambiguous tokens
      → IsAnswered card_id tokens (create_token fault fresh card_id tokens)
  create_token-IsAnswered (err e) card_id tokens one = (same-IsGood tokens one, λ token e. cc)
  create_token-IsAnswered (ok token) card_id tokens one =
      on_fault-IsAnswered (fault 1) card_id tokens tokens _ (same-IsGood tokens one) (
        after_insert-IsAnswered card_id tokens (insert_token token card_id tokens) one
          (insert_token-IsInserted token card_id tokens one))

  token_or_new-IsAnswered :
      (found : Option Text) (fresh : Result Text Text) (others : List (Text × Text))
      (card_id : Text) (tokens : Assoc Text Text)
      → IsUnambiguous tokens
      → lookup card_id tokens ≡ found
      → IsAnswered card_id tokens (token_or_new fault found fresh others card_id tokens)
  token_or_new-IsAnswered (some old) fresh others card_id tokens one e =
      (same-IsGood tokens one, λ token q. cc)
  token_or_new-IsAnswered none fresh others card_id tokens one e =
      let tokens' = insert_others others tokens in
      let good = insert_others-IsGood others tokens one in
      let (made, answered) = create_token-IsAnswered fresh card_id tokens' good.0 in
      (IsGood-trans tokens tokens' (create_token fault fresh card_id tokens').1 good made, answered)

  pub get_or_create_token-IsAnswered :
      (fresh : Result Text Text) (others : List (Text × Text)) (card_id : Text)
      (tokens : Assoc Text Text)
      → IsUnambiguous tokens
      → IsAnswered card_id tokens (get_or_create_token fault fresh others card_id tokens)
  unfolding get_or_create_token
  get_or_create_token-IsAnswered fresh others card_id tokens one =
      on_fault-IsAnswered (fault 0) card_id tokens tokens _ (same-IsGood tokens one)
        (token_or_new-IsAnswered (lookup card_id tokens) fresh others card_id tokens one refl)
