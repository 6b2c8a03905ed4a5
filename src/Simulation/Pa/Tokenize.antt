-- ===== src/Simulation/Pa/Tokenize.antt =====
-- What a request at /tokenize answers and leaves.
use task_discovery_service.Prelude.{
  ℕ, ◌≡◌, ◌⊎◌, refl, ap, Bool, true, false, Option, none, some, List, [], Text, ◌==◌, text_eq,
  if_both, inl, inr, not, if◌then◌else◌, arith,
}
use task_discovery_service.Prelude.Result.{Result, ok, err}
use task_discovery_service.Assoc.{Assoc, lookup}
use task_discovery_service.Text.{codes, trim_space}
use task_discovery_service.Word.{lt64}
use task_discovery_service.Simulation.Pa.{
  Card, funds_of, PaTables, card_has_min_funds, get_or_create_token, TokenizeResponse, with_token,
  checked_card, funds_checked, decrypted, decoded, handle_tokenize,
}
use task_discovery_service.Simulation.Pa.Tokens.{
  IsUnambiguous, IsGood, IsAnswered, same-IsGood, get_or_create_token-IsAnswered,
}

-- A card of the table that is active and not blocked and has the funds.
abbrev pub CanPay : ℕ → Text → PaTables → Type 0
CanPay min_cents card_id pa =
    (card : Card) × (lookup card_id pa.cards ≡ some card)
    × (card.active ≡ true)
    × (card.blocked ≡ false)
    × (lt64 card.balance_cents min_cents ≡ false)

funds_step :
    (active blocked less : Bool)
    → let checked : Bool × Text =
        if blocked
        then (false, codes "blocked")
        else if not active
        then (false, codes "inactive")
        else if less
        then (false, codes "insufficient funds")
        else (true, codes "ok") in
      checked.0 ≡ true → (active ≡ true) × (blocked ≡ false) × (less ≡ false)
funds_step active true less h = ground (arith, h)
funds_step false false less h = ground (arith, h)
funds_step true false true h = ground (arith, h)
funds_step true false false h = (refl, refl, refl)

funds_of-CanPay :
    (min_cents : ℕ) (found : Option Card)
    → (funds_of min_cents found).0 ≡ true
    → (card : Card) × (found ≡ some card)
      × (card.active ≡ true)
      × (card.blocked ≡ false)
      × (lt64 card.balance_cents min_cents ≡ false)
funds_of-CanPay min_cents none h = ground (arith, h)
funds_of-CanPay min_cents (some card) h =
    let (active, unblocked, funds) =
      funds_step card.active card.blocked (lt64 card.balance_cents min_cents) h in
    (card, refl, active, unblocked, funds)

card_has_min_funds-CanPay :
    (min_cents : ℕ) (card_id : Text) (pa : PaTables)
    → (card_has_min_funds min_cents card_id pa).0 ≡ true
    → CanPay min_cents card_id pa
unfolding card_has_min_funds
card_has_min_funds-CanPay min_cents card_id pa = funds_of-CanPay min_cents (lookup card_id pa.cards)

module _ (min_funds_cents : ℕ) (funds_fault : Option Text) (fault : ℕ → Option Text)
    (fresh : Result Text Text) (others : List (Text × Text)) where
  -- What a card that is accepted has: it can pay, and the token that is answered is its own.
  abbrev pub HasToken : PaTables → TokenizeResponse × PaTables → Text → Type 0
  HasToken pa (resp, pa') card_id =
      CanPay min_funds_cents card_id pa × (lookup card_id pa'.tokens ≡ some resp.token)

  abbrev IsDone : Text → PaTables → TokenizeResponse × PaTables → Type 0
  IsDone card_id pa r =
      IsGood pa.tokens r.1.tokens × ((r.0.accepted ≡ false) ⊎ HasToken pa r card_id)

  with_token-IsDone :
      (card_id : Text) (pa : PaTables) (r : Result Text Text × Assoc Text Text)
      → (card_has_min_funds min_funds_cents card_id pa).0 ≡ true
      → IsAnswered card_id pa.tokens r
      → IsDone card_id pa (with_token pa r)
  with_token-IsDone card_id pa (err e, tokens) has (good, _) = (good, inl refl)
  with_token-IsDone card_id pa (ok token, tokens) has (good, answered) =
      (good, inr (card_has_min_funds-CanPay min_funds_cents card_id pa has, answered token refl))

  checked_card-IsDone :
      (checked : Bool × Text) (card_id : Text) (pa : PaTables)
      → IsUnambiguous pa.tokens
      → card_has_min_funds min_funds_cents card_id pa ≡ checked
      → IsDone card_id pa
          (checked_card min_funds_cents funds_fault fault fresh others checked card_id pa)
  checked_card-IsDone (true, reason) card_id pa one e =
      with_token-IsDone card_id pa (get_or_create_token fault fresh others card_id pa.tokens)
        (ap (λ (x : Bool × Text). x.0) e)
        (get_or_create_token-IsAnswered fault fresh others card_id pa.tokens one)
  checked_card-IsDone (false, reason) card_id pa one e = (same-IsGood pa.tokens one, inl refl)

  funds_checked-IsDone :
      (failed : Option Text) (card_id : Text) (pa : PaTables)
      → IsUnambiguous pa.tokens
      → IsDone card_id pa (
          funds_checked min_funds_cents funds_fault fault fresh others failed
            (card_has_min_funds min_funds_cents card_id pa)
            card_id
            pa)
  funds_checked-IsDone none card_id pa one =
      checked_card-IsDone (card_has_min_funds min_funds_cents card_id pa) card_id pa one refl
  funds_checked-IsDone (some e) card_id pa one = (same-IsGood pa.tokens one, inl refl)

  module _ (decode decrypt : Text → Option Text) (ciphertext_b64 : Text) where
    abbrev pub IsTokenized : PaTables → TokenizeResponse × PaTables → Type 0
    IsTokenized pa r =
        IsGood pa.tokens r.1.tokens
        × ((r.0.accepted ≡ false)
            ⊎ (ciphertext : Text) × (card_data : Text) × (decode (trim_space ciphertext_b64)
                ≡ some ciphertext)
              × (decrypt ciphertext ≡ some card_data)
              × HasToken pa r (trim_space card_data))

    decrypted-IsTokenized :
        (pa : PaTables) (ciphertext : Text) (card_data : Option Text)
        → IsUnambiguous pa.tokens
        → decode (trim_space ciphertext_b64) ≡ some ciphertext
        → decrypt ciphertext ≡ card_data
        → IsTokenized pa (decrypted min_funds_cents funds_fault fault fresh others card_data pa)
    decrypted-IsTokenized pa ciphertext none one e f = (same-IsGood pa.tokens one, inl refl)
    decrypted-IsTokenized pa ciphertext (some card_data) one e f =
        let card_id = trim_space card_data in
        let (good, token) = funds_checked-IsDone funds_fault card_id pa one in
        if_both (IsTokenized pa) (card_id == []) _ _ (same-IsGood pa.tokens one, inl refl)
          (
            good,
            elim token [
              | inl refused ↦ inl refused
              | inr has ↦ inr (ciphertext, card_data, e, f, has)
            ],
          )

    decoded-IsTokenized :
        (pa : PaTables) (ciphertext : Option Text)
        → IsUnambiguous pa.tokens
        → decode (trim_space ciphertext_b64) ≡ ciphertext
        → IsTokenized pa
            (decoded min_funds_cents funds_fault fault fresh others decrypt ciphertext pa)
    decoded-IsTokenized pa none one e = (same-IsGood pa.tokens one, inl refl)
    decoded-IsTokenized pa (some ciphertext) one e =
        decrypted-IsTokenized pa ciphertext (decrypt ciphertext) one e refl

    -- If no token is that of two cards, then so it is after a request at /tokenize, whatever other
    -- requests insert meanwhile and whichever statement of the database fails, and each card keeps
    -- its token; and a request that is accepted names, encrypted, a card that is active, not blocked
    -- and has the funds, and answers that card's token.
    pub handle_tokenize-token :
        (pa : PaTables)
        → IsUnambiguous pa.tokens
        → IsTokenized pa (
            handle_tokenize min_funds_cents funds_fault fault fresh others decode decrypt
              ciphertext_b64 pa)
    unfolding handle_tokenize
    handle_tokenize-token pa one =
        decoded-IsTokenized pa (decode (trim_space ciphertext_b64)) one refl
