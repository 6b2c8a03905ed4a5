-- ===== src/Simulation/Gate/Opening.antt =====
-- A gate whose transactions go to a station, over exchanges that may fail before or after the station
-- has the transaction.
use task_discovery_service.Prelude.{
  ℕ, ◌≡◌, refl, subst, Bool, true, false, Option, none, some, List, [], ◌∷◌, Text, ◌==◌, text_eq,
  if◌then◌else◌, if_both, nat_beq, arith, Bool-cases, inl, inr, ◌⊎◌,
}
use task_discovery_service.Prelude.Result.{Result, ok, err}
use task_discovery_service.Text.{codes}
use task_discovery_service.Simulation.{Transaction, TransactionAck}
use task_discovery_service.Simulation.Station.{
  Buffers, Posting, kept_transaction, is_refused, handle_transaction, Station, arrives,
  station_step,
}
use task_discovery_service.Simulation.Tap.{parse_tap}
use task_discovery_service.Simulation.Resolve.{resolve_base, base_or_empty}
use task_discovery_service.Simulation.Gate.{
  GateConfig, GateState, Surroundings, Verdict, check_card, check_oyster, check_with_key,
  transaction_of, of_ack, send_transaction, after_check, after_parse, handle_tap,
}

-- How httpPostJSON ends: with an answer that is read, with an error before the request arrives, or
-- with one after it, when the answer is late, lost or not JSON.
pub data Exchange : Type 0 where
  answered : Exchange
  not_sent : Text → Exchange
  answer_lost : Text → Exchange

abbrev pub IsLost : Exchange → Type 0
IsLost exchange = (e : Text) × (exchange ≡ answer_lost e)

module _ (batch_size : ℕ) (station_id oybo_task pctrbo_task : Text) (arrival : Text × Text)
    (exchange : Exchange) where
  -- The request that carries a transaction, with the station's time at its arrival.
  abbrev pub carrying : Transaction → Posting
  carrying tx = record { is_post = true; body = some tx; unix_nano = arrival.0; now = arrival.1 }

  abbrev pub of_status : ℕ × TransactionAck × List Transaction × Buffers → Result Text Bool
  of_status (status, ack, batch, b) =
      if nat_beq status 200 then ok ack.accepted else err (codes "http error")

  abbrev pub posted_to_station : Transaction → Station → Station
  posted_to_station tx s =
      station_step batch_size station_id oybo_task pctrbo_task (arrives (carrying tx)) s

  abbrev pub exchanged : Exchange → Transaction → Station → Result Text Bool × Station
  exchanged answered tx s = (
    of_status (handle_transaction batch_size station_id (carrying tx) s.buffers),
    posted_to_station tx s,
  )
  exchanged (not_sent e) tx s = (err e, s)
  exchanged (answer_lost e) tx s = (err e, posted_to_station tx s)

  -- httpPostJSON to the handler of /transaction.
  abbrev pub station_send : Text → Transaction → Station → Result Text Bool × Station
  station_send url tx s = exchanged exchange tx s

  -- An answer that goes with what a station has accepted before and after.
  abbrev Matches : Exchange → Transaction → Bool → List Transaction → List Transaction → Type 0
  Matches ended kept answer before after =
      (answer ≡ true → after ≡ kept ∷ before)
      × (answer ≡ false → (after ≡ before) ⊎ (IsLost ended × (after ≡ kept ∷ before)))

  posted-Matches :
      (tx : Transaction) (s : Station)
      → (is_refused (kept_transaction station_id (carrying tx) tx) ≡ true
          → (posted_to_station tx s).accepted ≡ s.accepted)
        × (is_refused (kept_transaction station_id (carrying tx) tx) ≡ false
            → (posted_to_station tx s).accepted
              ≡ kept_transaction station_id (carrying tx) tx ∷ s.accepted)
  unfolding station_step handle_transaction
  posted-Matches tx s = ((λ e. rw e refl), (λ e. rw e refl))

  answered-Matches :
      (tx : Transaction) (s : Station)
      → Matches answered
          (kept_transaction station_id (carrying tx) tx)
          (of_ack (exchanged answered tx s).0).0
          s.accepted
          (posted_to_station tx s).accepted
  unfolding station_step handle_transaction
  answered-Matches tx s =
      elim (Bool-cases (is_refused (kept_transaction station_id (carrying tx) tx))) [
        | inl e ↦ rw e (λ h. ground arith, λ h. inl refl)
        | inr e ↦ rw e (λ h. refl, λ h. ground arith)
      ]

  exchanged-Matches :
      (ended : Exchange) (tx : Transaction) (s : Station)
      → let r = exchanged ended tx s in
        Matches ended
          (kept_transaction station_id (carrying tx) tx)
          (of_ack r.0).0
          s.accepted
          r.1.accepted
  exchanged-Matches answered tx s = answered-Matches tx s
  exchanged-Matches (not_sent e) tx s = (λ h. ground arith, λ h. inl refl)
  exchanged-Matches (answer_lost e) tx s =
      let (refused, kept) = posted-Matches tx s in
      (
        λ h. ground arith,
        λ h. elim (Bool-cases (is_refused (kept_transaction station_id (carrying tx) tx))) [
          | inl q ↦ inl (refused q)
          | inr q ↦ inr ((e, refl), kept q)
        ],
      )

  module _ (config : GateConfig) (others : Surroundings Station) (now : ℕ)
      (tap_time unix_nano : Text) where
    abbrev pub to_station : Surroundings Station
    to_station = record others { send = station_send }

    -- What a gate that opens has put into the station.
    abbrev pub Enters : Text → Text → Verdict → List Transaction → List Transaction → Type 0
    Enters card_type card_id v before after =
        let tx = transaction_of config to_station now tap_time unix_nano card_type card_id v in
        after ≡ kept_transaction station_id (carrying tx) tx ∷ before

    -- The gate opens after this check of the card, and the station has the transaction, or stays
    -- closed, and the station has what it had, or its answer was lost.
    abbrev IsKept :
        Text → Text → Verdict → List Transaction → (Bool × Text) × GateState Station → Type 0
    IsKept card_type card_id v before r =
        (r.0.0 ≡ true → (v.allowed ≡ true) × Enters card_type card_id v before r.1.world.accepted)
        × (r.0.0 ≡ false
            → (r.1.world.accepted ≡ before)
              ⊎ (IsLost exchange
                  × (v.allowed ≡ true)
                  × Enters card_type card_id v before r.1.world.accepted))

    closed :
        (card_type card_id reason : Text) (v : Verdict) (g : GateState Station)
        → IsKept card_type card_id v g.world.accepted ((false, reason), g)
    closed card_type card_id reason v g = (λ h. ground arith, λ h. inl refl)

    send-IsKept :
        (card_type card_id : Text) (v : Verdict) (g : GateState Station)
        → v.allowed ≡ true
        → IsKept card_type card_id v g.world.accepted (
            send_transaction config to_station now tap_time unix_nano
              (transaction_of config to_station now tap_time unix_nano card_type card_id v)
              g)
    send-IsKept card_type card_id v g a =
        let tx = transaction_of config to_station now tap_time unix_nano card_type card_id v in
        let (found, cache) =
          resolve_base to_station.station_answers config.station_fallback now g.station_cache in
        let base = base_or_empty found in
        let (opened, refused) = exchanged-Matches exchange tx g.world in
        if_both (IsKept card_type card_id v g.world.accepted) (base == []) _ _
          (closed card_type card_id (codes "station not found") v
            (record g { station_cache = cache }))
          (
            (λ h. (a, opened h)),
            (λ h. elim (refused h) [
              | inl same ↦ inl same
              | inr (lost, entered) ↦ inr (lost, a, entered)
            ]),
          )

    branch-IsKept :
        (card_type card_id : Text) (v : Verdict) (g : GateState Station) (allowed : Bool)
        → v.allowed ≡ allowed
        → IsKept card_type card_id v g.world.accepted (
            if allowed
            then send_transaction config to_station now tap_time unix_nano
                (transaction_of config to_station now tap_time unix_nano card_type card_id v)
                g
            else ((false, v.reason), g))
    branch-IsKept card_type card_id v g true e = send-IsKept card_type card_id v g e
    branch-IsKept card_type card_id v g false e = closed card_type card_id v.reason v g

    check_card-world :
        (card_type card_id : Text) (g : GateState Station)
        → (check_card config to_station now tap_time unix_nano card_type card_id g).1.world
          ≡ g.world
    unfolding check_oyster
    check_card-world card_type card_id g =
        if_both (λ (r : Verdict × GateState Station). r.1.world ≡ g.world) (card_type == codes "OY")
          _ _ refl (with_key-world others.encrypt card_id g)
      where
        with_key-world :
            (key : Option (Text → Result Text Text)) (card_id : Text) (g : GateState Station)
            → (check_with_key config to_station now tap_time unix_nano key card_id g).1.world
              ≡ g.world
        with_key-world none card_id g = refl
        with_key-world (some encrypt) card_id g = refl

    abbrev pub verdict_of : Text → Text → GateState Station → Verdict
    verdict_of card_type card_id g =
        (check_card config to_station now tap_time unix_nano card_type card_id g).0

    -- What is shown of a tap that parses as the first argument says.
    abbrev IsDecided :
        Result Text (Text × Text) → GateState Station → (Bool × Text) × GateState Station → Type 0
    IsDecided found g r =
        (r.0.0 ≡ true
          → (card_type : Text) × (card_id : Text) × (found ≡ ok (card_type, card_id))
            × ((verdict_of card_type card_id g).allowed ≡ true)
            × Enters card_type card_id (verdict_of card_type card_id g) g.world.accepted
                r.1.world.accepted)
        × (r.0.0 ≡ false
            → (r.1.world.accepted ≡ g.world.accepted)
              ⊎ (IsLost exchange
                  × (card_type : Text) × (card_id : Text) × (found ≡ ok (card_type, card_id))
                  × ((verdict_of card_type card_id g).allowed ≡ true)
                  × Enters card_type card_id (verdict_of card_type card_id g) g.world.accepted
                      r.1.world.accepted))

    parse-IsDecided :
        (found : Result Text (Text × Text)) (g : GateState Station)
        → IsDecided found g (after_parse config to_station now tap_time unix_nano found g)
    parse-IsDecided (err e) g = (λ h. ground arith, λ h. inl refl)
    parse-IsDecided (ok (card_type, card_id)) g =
        let checked = check_card config to_station now tap_time unix_nano card_type card_id g in
        let v = checked.0 in
        let (opened, refused) =
          subst
            (λ w.
              IsKept card_type card_id v w.accepted
                (after_check config to_station now tap_time unix_nano card_type card_id checked))
            (check_card-world card_type card_id g)
            (branch-IsKept card_type card_id v checked.1 v.allowed refl) in
        (
          (λ h. let (allows, entered) = opened h in (card_type, card_id, refl, allows, entered)),
          (λ h. elim (refused h) [
            | inl same ↦ inl same
            | inr (lost, allows, entered) ↦ inr (lost, card_type, card_id, refl, allows, entered)
          ]),
        )

    -- A tap opens a gate, whose transactions go to a station, only if it names a card that the check
    -- allows, and then the station has accepted that card's transaction and nothing else; a tap that
    -- leaves the gate closed leaves the station with what it had accepted, unless the answer of the
    -- station was lost on the way, when the station may have the transaction of an allowed card.
    pub gate_opens-accepted :
        (tap_line : Text) (g : GateState Station)
        → let r = handle_tap config to_station now tap_time unix_nano tap_line g in
          ((r.0.0 ≡ true)
            × (card_type : Text) × (card_id : Text) × (parse_tap tap_line ≡ ok (card_type, card_id))
            × ((verdict_of card_type card_id g).allowed ≡ true)
            × Enters card_type card_id
                (verdict_of card_type card_id g)
                g.world.accepted
                r.1.world.accepted)
          ⊎ ((r.0.0 ≡ false)
              × ((r.1.world.accepted ≡ g.world.accepted)
                  ⊎ (IsLost exchange
                      × (card_type : Text) × (card_id : Text) × (parse_tap tap_line
                          ≡ ok (card_type, card_id))
                      × ((verdict_of card_type card_id g).allowed ≡ true)
                      × Enters card_type card_id
                          (verdict_of card_type card_id g)
                          g.world.accepted
                          r.1.world.accepted)))
    unfolding handle_tap
    gate_opens-accepted tap_line g =
        let r = handle_tap config to_station now tap_time unix_nano tap_line g in
        let (opened, refused) = parse-IsDecided (parse_tap tap_line) g in
        elim (Bool-cases r.0.0) [
          | inl e ↦
              let (card_type, card_id, parsed, allows, entered) = opened e in
              inl (e, card_type, card_id, parsed, allows, entered)
          | inr e ↦ inr (e, refused e)
        ]
