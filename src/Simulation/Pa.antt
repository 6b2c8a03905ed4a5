-- ===== src/Simulation/Pa.antt =====
-- Simulation/pa/main.go, the handler of /tokenize, and GetOrCreateToken and CardHasMinFunds of
-- Simulation/carddb/pa.go: the PA gives a card that can pay a token in its place. The table
-- pctr_tokens is an association list from cards to tokens; a balance is an integer of 64 bits.
pub mod Tokens
pub mod Tokenize
use task_discovery_service.Prelude.{
  ℕ, Bool, true, false, not, Option, none, some, List, [], ◌∷◌, Text, ◌==◌, text_eq, if◌then◌else◌,
  any, is_some,
}
use task_discovery_service.Prelude.Result.{Result, ok, err}
use task_discovery_service.Assoc.{Assoc, lookup, insert}
use task_discovery_service.Text.{codes, trim_space}
use task_discovery_service.Word.{lt64}

pub record Card : Type 0 where
  pub active : Bool
  pub blocked : Bool
  pub balance_cents : ℕ

pub record PaTables : Type 0 where
  pub cards : Assoc Text Card
  pub tokens : Assoc Text Text

abbrev pub funds_of : ℕ → Option Card → Bool × Text
funds_of min_cents none = (false, codes "unknown card")
funds_of min_cents (some card) =
    if card.blocked
    then (false, codes "blocked")
    else if not card.active
    then (false, codes "inactive")
    else if lt64 card.balance_cents min_cents
    then (false, codes "insufficient funds")
    else (true, codes "ok")

unfoldable pub card_has_min_funds : ℕ → Text → PaTables → Bool × Text
card_has_min_funds min_cents card_id pa = funds_of min_cents (lookup card_id pa.cards)

abbrev pub is_taken : Text → Assoc Text Text → Bool
is_taken token tokens = any (λ r. r.1 == token) tokens

-- The INSERT: a card that has a row is left alone, and a token of another card is refused.
unfoldable pub insert_token : Text → Text → Assoc Text Text → Result Text (Assoc Text Text)
insert_token token card_id tokens =
    if is_some (lookup card_id tokens)
    then ok tokens
    else if is_taken token tokens
    then err (codes "duplicate key")
    else ok (insert card_id token tokens)

abbrev pub or_unchanged : Assoc Text Text → Result Text (Assoc Text Text) → Assoc Text Text
or_unchanged tokens (err e) = tokens
or_unchanged tokens (ok tokens') = tokens'

-- What other requests insert, as tokens with their cards.
unfoldable pub insert_others : List (Text × Text) → Assoc Text Text → Assoc Text Text
insert_others [] tokens = tokens
insert_others ((token, card_id) ∷ others) tokens =
    insert_others others (or_unchanged tokens (insert_token token card_id tokens))

abbrev pub read_again : Option Text → Result Text Text
read_again none = err (codes "no rows")
read_again (some token) = ok token

-- An error of a statement, after which the table is as it was.
abbrev pub on_fault :
    Option Text
    → Assoc Text Text
    → Result Text Text × Assoc Text Text
    → Result Text Text × Assoc Text Text
on_fault none tokens r = r
on_fault (some e) tokens r = (err e, tokens)

-- `fault` is the error of a statement: of the first SELECT, of the INSERT, and of the last SELECT.
module _ (fault : ℕ → Option Text) where
  abbrev pub after_insert :
      Text → Assoc Text Text → Result Text (Assoc Text Text) → Result Text Text × Assoc Text Text
  after_insert card_id tokens (err e) = (err e, tokens)
  after_insert card_id tokens (ok tokens') =
      on_fault (fault 2) tokens' (read_again (lookup card_id tokens'), tokens')

  abbrev pub create_token :
      Result Text Text → Text → Assoc Text Text → Result Text Text × Assoc Text Text
  create_token (err e) card_id tokens = (err e, tokens)
  create_token (ok token) card_id tokens =
      on_fault (fault 1) tokens (after_insert card_id tokens (insert_token token card_id tokens))

  abbrev pub token_or_new :
      Option Text
      → Result Text Text
      → List (Text × Text)
      → Text
      → Assoc Text Text
      → Result Text Text × Assoc Text Text
  token_or_new (some token) fresh others card_id tokens = (ok token, tokens)
  token_or_new none fresh others card_id tokens =
      create_token fresh card_id (insert_others others tokens)

  -- `fresh` is what crypto/rand gives, in hexadecimal, and `others` what other requests insert between
  -- the first statement and the second.
  unfoldable pub get_or_create_token :
      Result Text Text
      → List (Text × Text)
      → Text
      → Assoc Text Text
      → Result Text Text × Assoc Text Text
  get_or_create_token fresh others card_id tokens =
      on_fault (fault 0) tokens (token_or_new (lookup card_id tokens) fresh others card_id tokens)

-- A response: the status, whether the card is accepted, the token and the reason.
pub record TokenizeResponse : Type 0 where
  pub status : ℕ
  pub accepted : Bool
  pub token : Text
  pub reason : Text

abbrev pub refused_card : ℕ → Text → TokenizeResponse
refused_card status reason = record {
  status = status;
  accepted = false;
  token = [];
  reason = reason;
}

abbrev pub with_token : PaTables → Result Text Text × Assoc Text Text → TokenizeResponse × PaTables
with_token pa (err e, tokens) = (refused_card 503 (codes "db error"), record pa { tokens = tokens })
with_token pa (ok token, tokens) = (
  record { status = 200; accepted = true; token = token; reason = codes "ok" },
  record pa { tokens = tokens },
)

-- `funds_fault` is the error of the query of the card's funds.
module _ (min_funds_cents : ℕ) (funds_fault : Option Text) (fault : ℕ → Option Text)
    (fresh : Result Text Text) (others : List (Text × Text)) where
  abbrev pub checked_card : Bool × Text → Text → PaTables → TokenizeResponse × PaTables
  checked_card (has, reason) card_id pa =
      if has
      then with_token pa (get_or_create_token fault fresh others card_id pa.tokens)
      else (refused_card 200 reason, pa)

  abbrev pub funds_checked :
      Option Text → Bool × Text → Text → PaTables → TokenizeResponse × PaTables
  funds_checked none checked card_id pa = checked_card checked card_id pa
  funds_checked (some e) checked card_id pa = (refused_card 503 (codes "db error"), pa)

  abbrev pub tokenize_card : Text → PaTables → TokenizeResponse × PaTables
  tokenize_card card_id pa =
      if card_id == []
      then (refused_card 400 (codes "empty card"), pa)
      else funds_checked funds_fault (card_has_min_funds min_funds_cents card_id pa) card_id pa

  abbrev pub decrypted : Option Text → PaTables → TokenizeResponse × PaTables
  decrypted none pa = (refused_card 400 (codes "decrypt failed"), pa)
  decrypted (some card_data) pa = tokenize_card (trim_space card_data) pa

  abbrev pub decoded : (Text → Option Text) → Option Text → PaTables → TokenizeResponse × PaTables
  decoded decrypt none pa = (refused_card 400 (codes "invalid ciphertext"), pa)
  decoded decrypt (some ciphertext) pa = decrypted (decrypt ciphertext) pa

  -- The handler of /tokenize for a POST whose body decodes to a ciphertext, with packages base64 and
  -- pctrcrypto as arguments.
  unfoldable pub handle_tokenize :
      (Text → Option Text) → (Text → Option Text) → Text → PaTables → TokenizeResponse × PaTables
  handle_tokenize decode decrypt ciphertext_b64 pa =
      decoded decrypt (decode (trim_space ciphertext_b64)) pa
